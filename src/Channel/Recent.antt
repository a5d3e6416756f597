-- ===== src/Channel/Recent.antt =====
-- include/srf/channel/recent_channel.hpp: a channel that drops its oldest element when it is full.
-- The calls hold the mutex, so each is one step; a reader that waits is a call without a result.
pub mod Window
pub mod Deadline
mod Tests
use srf.Base.{
  ℕ, ◌≤◌, ◌<◌, Bool, true, false, not, ◌&&◌, List, [], ◌∷◌, ◌++◌, Option, none, some, length, leb,
  ltb, if◌then◌else◌,
}
use srf.Channel.{Status, success, empty, closed, timeout}

pub record RecentChannel (T : Type 0) : Type 0 where
  pub is_shutdown : Bool
  pub max_size : ℕ
  pub deque : List T

-- What a reader gets: its status, the element, and the channel after it.
abbrev pub Read : Type 0 → Type 0
Read T = Status × Option T × RecentChannel T

module _ {T : Type 0} where
  unfoldable pub new_channel : ℕ → RecentChannel T
  new_channel count = record { is_shutdown = false; max_size = count; deque = [] }

  -- std::deque::pop_front, which is undefined on an empty deque
  pub pop_front : List T → Option (List T)
  pop_front [] = none
  pop_front (x ∷ xs) = some xs

  pub push_back : RecentChannel T → T → Option (List T) → Option (Status × RecentChannel T)
  push_back c x none = none
  push_back c x (some xs) = some (success, record c { deque = xs ++ (x ∷ []) })

  -- `none` is undefined behaviour.
  unfoldable pub do_await_write : T → RecentChannel T → Option (Status × RecentChannel T)
  unfolding pop_front push_back
  do_await_write x c =
      if c.is_shutdown
      then some (closed, c)
      else push_back c x
          (if leb c.max_size (length c.deque) then pop_front c.deque else some c.deque)

  pub take_front : Status → RecentChannel T → List T → Read T
  take_front otherwise c [] = (otherwise, none, c)
  take_front otherwise c (x ∷ xs) = (success, some x, record c { deque = xs })

  abbrev pub is_empty : List T → Bool
  is_empty [] = true
  is_empty (x ∷ xs) = false

  -- `none`: the reader waits on the condition variable.
  unfoldable pub do_await_read : RecentChannel T → Option (Read T)
  unfolding take_front
  do_await_read c =
      if is_empty c.deque && not c.is_shutdown
      then none
      else if c.is_shutdown
      then some (closed, none, c)
      else some (take_front empty c c.deque)

  unfoldable pub do_try_read : RecentChannel T → Read T
  unfolding take_front
  do_try_read c = if c.is_shutdown then (closed, none, c) else take_front empty c c.deque

  -- Each element of the list is what one evaluation of the loop's condition sees: the clock and the
  -- channel, which other threads may change while this one waits. `none`: the loop goes on.
  unfoldable pub do_await_read_until : ℕ → List (ℕ × RecentChannel T) → Option (Read T)
  unfolding take_front
  do_await_read_until deadline [] = none
  do_await_read_until deadline ((now, c) ∷ seen) =
      let again = do_await_read_until deadline seen in
      if is_empty c.deque && not c.is_shutdown && ltb deadline now
      then again
      else if c.is_shutdown
      then some (closed, none, c)
      else some (take_front timeout c c.deque)

  unfoldable pub do_close_channel : RecentChannel T → RecentChannel T
  do_close_channel c = record c { is_shutdown = true }

  unfoldable pub do_is_channel_closed : RecentChannel T → Bool
  do_is_channel_closed c = c.is_shutdown
