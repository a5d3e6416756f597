-- ===== src/SegmentService/Joining.antt =====
-- The wait for the runners of a segment.
use srf.Base.{
  ◌≡◌, refl, sym, ap, ◌∙◌, List, [], ◌∷◌, ◌++◌, map, Option, none, some, Text, text_key, Outcome,
  ok, throws, Exception, All, Option-cases, inl, inr, ◌⊎◌,
}
use mathlib.Core.List.{append_assoc, append-nil}
use srf.Base.Map.{keys}
use srf.SegmentService.{
  Part, egress, node, ingress, Running, runners_of, check_all, do_service_await_join,
}

-- The runners of a part, and all of them in the order of the wait.
abbrev pub part_runners : Part → Running → List (Part × Text)
part_runners p s = map (λ n. (p, n)) (keys (runners_of p s))

abbrev pub waited : Running → List (Part × Text)
waited s = (part_runners ingress s ++ part_runners node s) ++ part_runners egress s

-- The segment once all were waited for.
abbrev pub after_wait : Running → Running
after_wait s = record s { joined = s.joined ++ waited s }

module _ (ends : Part → Text → Option Exception) where
  abbrev first_of : List (Part × Text) → Option Exception → Option Exception
  first_of [] first = first
  first_of (r ∷ rs) first = first_of rs (elim first [ none ↦ ends r.0 r.1 | some e ↦ some e ])

  check_all-first_of :
      (p : Part) (ns : List Text) (first : Option Exception) (s : Running)
      → check_all ends p ns (first, s) ≡ (
        first_of (map (λ n. (p, n)) ns) first,
        record s { joined = s.joined ++ map (λ n. (p, n)) ns },
      )
  unfolding check_all
  check_all-first_of p [] first s =
      ap (λ l. (first, record s { joined = l })) (sym (append-nil s.joined))
  check_all-first_of p (n ∷ ns) first s =
      check_all-first_of p ns _ _
      ∙ ap (λ l. (first_of (map (λ n. (p, n)) (n ∷ ns)) first, record s { joined = l }))
          (append_assoc s.joined ((p, n) ∷ []) (map (λ n. (p, n)) ns))

  first_of-append :
      (rs ts : List (Part × Text)) (first : Option Exception)
      → first_of ts (first_of rs first) ≡ first_of (rs ++ ts) first
  first_of-append [] ts first = refl
  first_of-append (r ∷ rs) ts first = first_of-append rs ts _

  first_of-some : (rs : List (Part × Text)) (e : Exception) → first_of rs (some e) ≡ some e
  first_of-some [] e = refl
  first_of-some (r ∷ rs) e = first_of-some rs e

  -- Either nothing was thrown, or what is found is the first exception.
  abbrev pub Finds : List (Part × Text) → Option Exception → Type 0
  Finds rs found =
      ((found ≡ none) × All (λ r. ends r.0 r.1 ≡ none) rs)
      ⊎ ((before after : List (Part × Text)) × (p : Part) × (n : Text) × (e : Exception) × (rs
            ≡ before ++ ((p, n) ∷ after))
          × All (λ r. ends r.0 r.1 ≡ none) before
          × (ends p n ≡ some e)
          × (found ≡ some e))

  first_of-Finds : (rs : List (Part × Text)) → Finds rs (first_of rs none)
  first_of-Finds [] = inl (refl, tt)
  first_of-Finds (r ∷ rs) = elim (Option-cases (ends r.0 r.1)) [
    | inl good ↦
        let same = ap (first_of rs) good in
        elim (first_of-Finds rs) [
          | inl (h, k) ↦ inl (same ∙ h, (good, k))
          | inr (b, a, p, n, e, h, k, l, m) ↦
              inr (r ∷ b, a, p, n, e, ap (λ l. r ∷ l) h, (good, k), l, same ∙ m)
        ]
    | inr (e, bad) ↦
        inr ([], rs, r.0, r.1, e, refl, tt, bad, ap (first_of rs) bad ∙ first_of-some rs e)
  ]

  all_checks :
      (s : Running)
      → check_all ends egress (keys (runners_of egress s)) (
          check_all ends node
            (keys (runners_of node s))
            (check_all ends ingress (keys (runners_of ingress s)) (none, s)))
        ≡ (first_of (waited s) none, after_wait s)
  all_checks s =
      let i = part_runners ingress s in
      let n = part_runners node s in
      let e = part_runners egress s in
      let keys_of : Part → List Text = λ p. keys (runners_of p s) in
      ap (λ r. check_all ends egress (keys_of egress) (check_all ends node (keys_of node) r))
        (check_all-first_of ingress (keys_of ingress) none s)
      ∙ ap (check_all ends egress (keys_of egress))
          (check_all-first_of node (keys_of node) _ (record s { joined = s.joined ++ i }))
      ∙ check_all-first_of egress (keys_of egress) _ (record s { joined = (s.joined ++ i) ++ n })
      ∙ ap (λ f. (f, record s { joined = ((s.joined ++ i) ++ n) ++ e }))
          (ap (first_of e) (first_of-append i n none) ∙ first_of-append (i ++ n) e none)
      ∙ ap (λ l. (first_of (waited s) none, record s { joined = l }))
          (ap (λ l. l ++ e) (append_assoc s.joined i n) ∙ append_assoc s.joined (i ++ n) e)

  -- Every runner of a segment is waited for, the ingress ports' first and the egress ports' last, and the first
  -- exception of any of them is thrown at the end; if there is none, the wait returns.
  pub do_service_await_join-first :
      (s : Running)
      → ((do_service_await_join ends s ≡ (ok tt, after_wait s))
          × All (λ r. ends r.0 r.1 ≡ none) (waited s))
        ⊎ ((before after : List (Part × Text)) × (p : Part) × (n : Text) × (e : Exception) × (waited
                s
              ≡ before ++ ((p, n) ∷ after))
            × All (λ r. ends r.0 r.1 ≡ none) before
            × (ends p n ≡ some e)
            × (do_service_await_join ends s ≡ (throws e, after_wait s)))
  unfolding do_service_await_join
  do_service_await_join-first s = elim (first_of-Finds (waited s)) [
    | inl (h, k) ↦ inl (ap conclude (all_checks s ∙ ap (λ f. (f, after_wait s)) h), k)
    | inr (b, a, p, n, e, h, k, l, m) ↦
        inr (b, a, p, n, e, h, k, l, ap conclude (all_checks s ∙ ap (λ f. (f, after_wait s)) m))
  ]
    where
      conclude : Option Exception × Running → Outcome (Unit {0}) × Running
      conclude r = elim r.0 [ none ↦ (ok tt, r.1) | some e ↦ (throws e, r.1) ]
