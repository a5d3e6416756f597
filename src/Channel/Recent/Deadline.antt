-- ===== src/Channel/Recent/Deadline.antt =====
-- `do_await_read_until` tests its deadline the wrong way round.
use srf.Base.{ℕ, ◌≤◌, ◌<◌, ◌≡◌, refl, false, List, [], ◌∷◌, none, some, All, arith}
use srf.Channel.{timeout}
use srf.Channel.Recent.{RecentChannel, do_await_read_until}

module _ {T : Type 0} where
  -- A reader finds the channel open and empty.
  pub record IsIdle (c : RecentChannel T) : Type 0 where
    pub up : c.is_shutdown ≡ false
    pub nothing : c.deque ≡ []

  -- With its deadline still ahead, a reader of an open, empty channel does not wait: it times out at
  -- its first look, whatever is written later.
  pub times_out_early :
      (deadline now : ℕ) (c : RecentChannel T) (later : List (ℕ × RecentChannel T))
      → now ≤ deadline
      → IsIdle c
      → do_await_read_until deadline ((now, c) ∷ later) ≡ some (timeout, none, c)
  unfolding do_await_read_until
  times_out_early deadline now c later h v = rw (v.nothing, v.up) (ground arith)

  -- With its deadline past, a reader never times out: it goes on for as long as the channel stays
  -- open and empty, however often it looks.
  pub never_times_out :
      (deadline : ℕ) (seen : List (ℕ × RecentChannel T))
      → All (λ e. (deadline < e.0) × IsIdle e.1) seen
      → do_await_read_until deadline seen ≡ none
  unfolding do_await_read_until
  never_times_out deadline [] h = refl
  never_times_out deadline ((now, c) ∷ seen) (h, hs) =
      rw (h.1.nothing, h.1.up) (ground (arith, never_times_out deadline seen hs, h.0))
