-- ===== src/Channel/Recent/Window.antt =====
-- The channel holds the most recent elements, and hands them out oldest first.
use srf.Base.{
  ℕ, zero, suc, ◌+◌, ◌-◌, ◌≤◌, ◌<◌, ◌≡◌, refl, ap, ◌∙◌, false, List, [], ◌∷◌, ◌++◌, Option, none,
  some, length, length-append, arith, leb, Bool-cases, inl, inr, if◌then◌else◌,
}
use mathlib.Core.List.{append_assoc, append-nil}
use srf.Channel.{success}
use srf.Channel.Recent.{RecentChannel, pop_front, do_await_write, do_try_read, do_close_channel}

module _ {T : Type 0} where
  abbrev pub drop : ℕ → List T → List T
  drop zero xs = xs
  drop (suc n) [] = []
  drop (suc n) (x ∷ xs) = drop n xs

  length-drop : (n : ℕ) (xs : List T) → length (drop n xs) ≡ length xs - n
  length-drop zero xs = omega arith
  length-drop (suc n) [] = omega arith
  length-drop (suc n) (x ∷ xs) = omega (arith, length-drop n xs)

  drop-append : (n : ℕ) (xs ys : List T) → n ≤ length xs → drop n xs ++ ys ≡ drop n (xs ++ ys)
  drop-append zero xs ys h = refl
  drop-append (suc n) [] ys h = absurd (omega arith)
  drop-append (suc n) (x ∷ xs) ys h = drop-append n xs ys (omega arith)

  drop-drop : (m n k : ℕ) (xs : List T) → k ≡ n + m → drop m (drop n xs) ≡ drop k xs
  drop-drop m zero k xs e = let e' : m ≡ k = omega arith in rw e'
  drop-drop zero (suc n) k [] e = let e' : k ≡ suc n = omega arith in rw e'
  drop-drop (suc m) (suc n) zero [] e = refl
  drop-drop (suc m) (suc n) (suc k) [] e = refl
  drop-drop m (suc n) zero (x ∷ xs) e = absurd (omega arith)
  drop-drop m (suc n) (suc k) (x ∷ xs) e = drop-drop m n k xs (omega arith)

  -- The last `m` elements.
  abbrev pub recent : ℕ → List T → List T
  recent m xs = drop (length xs - m) xs

  -- Dropping old elements before more are appended does not show.
  recent-append : (m : ℕ) (xs ys : List T) → recent m (recent m xs ++ ys) ≡ recent m (xs ++ ys)
  recent-append m xs ys = rw (drop-append old xs ys (omega arith)) (
      drop-drop _ old _ (xs ++ ys) (omega (arith, length-drop old (xs ++ ys), length-append xs ys)))
    where
      old : ℕ
      old = length xs - m

  pub record IsOpen (c : RecentChannel T) : Type 0 where
    pub up : c.is_shutdown ≡ false
    pub room : 0 < c.max_size
    pub bounded : length c.deque ≤ c.max_size

  -- What a write to an open channel leaves.
  write_deque :
      (m : ℕ) (x : T) (xs : List T)
      → 0 < m
      → length xs ≤ m
      → (if leb m (length xs) then pop_front xs else some xs) ≡ some (drop (suc (length xs) - m) xs)
  unfolding pop_front
  write_deque m x [] h k = let e : 1 - m ≡ 0 = omega arith in rw e (ground arith)
  write_deque m x (y ∷ ys) h k = elim (Bool-cases (leb m (suc (length ys)))) [
    | inl is_full ↦ let e : suc (suc (length ys)) - m ≡ 1 = ground arith in rw (is_full, e)
    | inr has_room ↦ let e : suc (suc (length ys)) - m ≡ 0 = ground arith in rw (has_room, e)
  ]

  written : RecentChannel T → T → RecentChannel T
  written c x = record c { deque = recent c.max_size (c.deque ++ (x ∷ [])) }

  write_one :
      (x : T) (c : RecentChannel T)
      → IsOpen c
      → (do_await_write x c ≡ some (success, written c x)) × IsOpen (written c x)
  unfolding do_await_write written
  write_one x c v = ground (
    arith,
    write_deque c.max_size x c.deque v.room v.bounded,
    drop-append (suc (length c.deque) - c.max_size) c.deque (x ∷ []),
    length-append c.deque (x ∷ []),
    length-drop (suc (length c.deque) - c.max_size) (c.deque ++ (x ∷ [])),
  )

  -- The writes of a list of elements, in order. `none` if one of them does not succeed.
  pub write_all : List T → RecentChannel T → Option (RecentChannel T)
  write_all [] c = some c
  write_all (x ∷ xs) c = elim (do_await_write x c) [
    | none ↦ none
    | some (success, c') ↦ write_all xs c'
    | some (_, c') ↦ none
  ]

  -- However many elements are written to an open channel, every write succeeds, and the channel
  -- then holds the `max_size` most recent of what it held and what was written, in order.
  pub write_all-recent :
      (xs : List T) (c : RecentChannel T)
      → IsOpen c
      → (c' : RecentChannel T) × (write_all xs c ≡ some c')
        × IsOpen c'
        × (c'.max_size ≡ c.max_size)
        × (c'.deque ≡ recent c.max_size (c.deque ++ xs))
  unfolding write_all written
  write_all-recent [] c v = (
    c,
    refl,
    v,
    refl,
    rw (append-nil c.deque)
        (let e : length c.deque - c.max_size ≡ 0 = omega (arith, v.bounded) in rw e),
  )
  write_all-recent (x ∷ xs) c v =
      let (e, w) = write_one x c v in
      let (c', done, open', cap, holds) = write_all-recent xs (written c x) w in
      (
        c',
        rw (e, write_all) done,
        open',
        cap,
        holds
            ∙ recent-append c.max_size (c.deque ++ (x ∷ [])) xs
            ∙ ap (recent c.max_size) (append_assoc c.deque (x ∷ []) xs),
      )

  -- Reads until the channel has nothing left to give: the elements, in order.
  pub read_all : ℕ → RecentChannel T → List T
  read_all zero c = []
  read_all (suc n) c =
      let (_, x, c') = do_try_read c in elim x [ none ↦ [] | some y ↦ y ∷ read_all n c' ]

  -- Reads give the elements of an open channel in order, the oldest first; a channel that was
  -- closed gives none of those that it still holds.
  pub read_all-deque :
      (xs : List T) (n m : ℕ)
      → length xs ≤ n
      → (read_all n (record { is_shutdown = false; max_size = m; deque = xs }) ≡ xs)
        × (read_all n (do_close_channel (record { is_shutdown = false; max_size = m; deque = xs }))
            ≡ [])
  unfolding read_all do_try_read do_close_channel
  read_all-deque [] zero m h = (refl, refl)
  read_all-deque [] (suc n) m h = (refl, refl)
  read_all-deque (x ∷ xs) zero m h = absurd (omega arith)
  read_all-deque (x ∷ xs) (suc n) m h =
      (ap (λ r. x ∷ r) (read_all-deque xs n m (omega arith)).0, refl)
