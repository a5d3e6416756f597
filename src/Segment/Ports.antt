-- ===== src/Segment/Ports.antt =====
-- What `validate_ports` accepts.
use srf.Base.{
  ℕ, ◌≡◌, ◌↔◌, refl, Bool, true, false, if◌then◌else◌, ◌==◌, List, [], ◌∷◌, map, Text, text_key,
  nat_key, Outcome, ok, throws, Exception, length, arith, Distinct, length-set_of_iff, set_of, ◌∙◌,
  sym, ==_iff,
}
use srf.Base.Map.{Map}
use srf.Addresses.{port_name_hash, segment_name_hash}
use srf.Segment.{Definition, port_names, validate_ports, define}

length-map : (f : Text → ℕ) (xs : List Text) → length (map f xs) ≡ length xs
length-map f [] = refl
length-map f (x ∷ xs) = omega (arith, length-map f xs)

hashes-Distinct_iff :
    (names : List Text)
    → (length (set_of (map port_name_hash names)) ≡ length names)
      ↔ Distinct (map port_name_hash names)
hashes-Distinct_iff names = (
  λ h. (length-set_of_iff _).0 (h ∙ sym (length-map port_name_hash names)),
  λ h. (length-set_of_iff _).1 h ∙ length-map port_name_hash names,
)

-- The two nested tests, with what each of them decides.
abbrev verdict : Bool → Bool → Outcome (Unit {0})
verdict a b =
    if a
    then if b then ok tt else throws Exception.port_hash_collision
    else throws Exception.port_names_not_unique

verdict-cases :
    (P Q : Type 0) (a b : Bool)
    → (a ≡ true) ↔ P
    → (b ≡ true) ↔ Q
    → ((verdict a b ≡ ok tt) ↔ (P × Q))
      × ((verdict a b ≡ throws Exception.port_names_not_unique) ↔ (¬ P))
      × ((verdict a b ≡ throws Exception.port_hash_collision) ↔ (P × (¬ Q)))
verdict-cases P Q true true p q = (
  ((λ _. (p.0 refl, q.0 refl)), (λ _. refl)),
  ((λ h. absurd (cc h)), (λ h. absurd (h (p.0 refl)))),
  ((λ h. absurd (cc h)), (λ h. absurd (h.1 (q.0 refl)))),
)
verdict-cases P Q true false p q = (
  ((λ h. absurd (cc h)), (λ h. absurd (cc (q.1 h.1)))),
  ((λ h. absurd (cc h)), (λ h. absurd (h (p.0 refl)))),
  ((λ _. (p.0 refl, λ h. cc (q.1 h))), (λ _. refl)),
)
verdict-cases P Q false b p q = (
  ((λ h. absurd (cc h)), (λ h. absurd (cc (p.1 h.0)))),
  ((λ _ h. cc (p.1 h)), (λ _. refl)),
  ((λ h. absurd (cc h)), (λ h. absurd (cc (p.1 h.0)))),
)

-- `validate_ports` passes exactly when the ingress and egress port names all differ, and so do
-- their hashes. It throws "names must be unique" exactly when a name stands twice, and "hash
-- collision" exactly when the names differ and two hashes do not.
pub validate_ports-cases :
    {I : Type 0} (d : Definition I)
    → let names = port_names d in
      ((validate_ports d ≡ ok tt) ↔ (Distinct names × Distinct (map port_name_hash names)))
      × ((validate_ports d ≡ throws Exception.port_names_not_unique) ↔ (¬ Distinct names))
      × ((validate_ports d ≡ throws Exception.port_hash_collision)
          ↔ (Distinct names × (¬ Distinct (map port_name_hash names))))
unfolding validate_ports
validate_ports-cases d =
    verdict-cases _ _ _ _ (tested _ _ (length-set_of_iff names))
      (tested _ _ (hashes-Distinct_iff names))
  where
    names : List Text
    names = port_names d

    tested : {P : Type 0} (m n : ℕ) → (m ≡ n) ↔ P → ((m == n) ≡ true) ↔ P
    tested m n e = ((λ h. e.0 ((==_iff m n).0 h)), (λ h. (==_iff m n).1 (e.1 h)))

-- A definition that the constructor returns carries the name and ports that it was given, the hash
-- of the name as its id, and valid ports.
pub define-ok :
    {I : Type 0} (name : Text) (ingress egress : Map Text I) (d : Definition I)
    → define name ingress egress ≡ ok d
    → (d.name ≡ name)
      × (d.id ≡ segment_name_hash name)
      × (d.ingress_initializers ≡ ingress)
      × (d.egress_initializers ≡ egress)
      × (validate_ports d ≡ ok tt)
unfolding define
define-ok name ingress egress d h = ground arith
