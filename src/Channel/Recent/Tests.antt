-- ===== src/Channel/Recent/Tests.antt =====
-- A channel that keeps two elements.
use srf.Base.{ℕ, ◌≡◌, refl, true, false, [], ◌∷◌, none, some, arith}
use srf.Channel.Recent.{
  RecentChannel, new_channel, do_await_write, do_await_read, do_await_read_until, do_close_channel,
  do_is_channel_closed,
}
use srf.Channel.Recent.Window.{IsOpen, write_all, write_all-recent}
use srf.Channel.Recent.Deadline.{IsIdle, never_times_out}

abbrev idle : RecentChannel ℕ
idle = record { is_shutdown = false; max_size = 2; deque = [] }

idle_runs : new_channel 2 ≡ idle
unfolding new_channel
idle_runs = refl

-- With no room at all, `pop_front` is called on an empty deque.
no_room : do_await_write {T = ℕ} 7 (new_channel 0) ≡ none
unfolding do_await_write new_channel
no_room = refl

reader_waits : do_await_read idle ≡ none
unfolding do_await_read
reader_waits = refl

closed_runs : do_is_channel_closed (do_close_channel idle) ≡ true
unfolding do_is_channel_closed do_close_channel
closed_runs = refl

idle-IsOpen : IsOpen idle
idle-IsOpen = record { up = refl; room = omega arith; bounded = omega arith }

idle-IsIdle : IsIdle idle
idle-IsIdle = record { up = refl; nothing = refl }

write_all-recent_example :
    (c : RecentChannel ℕ) × (write_all (1 ∷ 2 ∷ 3 ∷ []) idle ≡ some c)
    × IsOpen c
    × (c.max_size ≡ 2)
    × (c.deque ≡ 2 ∷ 3 ∷ [])
write_all-recent_example = write_all-recent (1 ∷ 2 ∷ 3 ∷ []) idle idle-IsOpen

never_times_out_example : do_await_read_until 100 ((101, idle) ∷ (500, idle) ∷ []) ≡ none
never_times_out_example =
    never_times_out 100 ((101, idle) ∷ (500, idle) ∷ [])
      ((omega arith, idle-IsIdle), ((omega arith, idle-IsIdle), tt))
