-- ===== src/Names/Registration.antt =====
-- What a registration promises, and what the detector rules out.
use srf.Base.{
  ℕ, ◌≡◌, ◌≢◌, ◌↔◌, refl, Text, text_beq_iff, text_key, nat_key, ==_iff, ◌=?=◌, ok, throws,
  Exception, none, some, arith, Option-cases, inl, inr, Bool-cases, ap, ◌∙◌,
}
use srf.Base.Map.{find, insert, find-insert, =?=_refl}
use srf.Addresses.{port_name_hash}
use srf.Names.{CollisionDetector, register_name, lookup_name, name_of}

-- The name is stored under its hash.
abbrev pub Registered : Text → CollisionDetector → Type 0
Registered name d = find (port_name_hash name) d ≡ some name

-- Every stored name stands under its own hash.
abbrev pub IsHashed : CollisionDetector → Type 0
IsHashed d = (h : ℕ) (n : Text) → find h d ≡ some n → port_name_hash n ≡ h

-- The two ways in which `register_name` succeeds, and the one in which it fails.
pub data Registers (name : Text) (d : CollisionDetector) : Type 0 where
  fresh :
      find (port_name_hash name) d ≡ none
      → register_name name d ≡ (ok (port_name_hash name), insert (port_name_hash name) name d)
      → Registers name d
  again :
      Registered name d → register_name name d ≡ (ok (port_name_hash name), d) → Registers name d
  collides :
      (other : Text)
      → find (port_name_hash name) d ≡ some other
      → other ≢ name
      → register_name name d ≡ (throws Exception.name_collision, d)
      → Registers name d

register_name-found :
    (name other : Text) (d : CollisionDetector)
    → find (port_name_hash name) d ≡ some other
    → Registers name d
unfolding register_name
register_name-found name other d e = elim (Bool-cases (other =?= name)) [
  | inl same ↦
      again (e ∙ ap some ((text_beq_iff other name).0 same)) (rw (e, register_name) (rw same))
  | inr differs ↦
      collides other e (λ eq. cc ((text_beq_iff other name).1 eq))
        (rw (e, register_name) (rw differs))
]

pub register_name-cases : (name : Text) (d : CollisionDetector) → Registers name d
unfolding register_name
register_name-cases name d = elim (Option-cases (find (port_name_hash name) d)) [
  | inl e ↦ fresh e (rw (e, register_name))
  | inr (other, e) ↦ register_name-found name other d e
]

-- What stands under a hash stays there while another name is registered.
pub register_name-keeps :
    (name other : Text) (h : ℕ) (d : CollisionDetector)
    → find h d ≡ some other
    → find h (register_name name d).1 ≡ some other
unfolding register_name
register_name-keeps name other h d e =
    ground (arith, ==_iff (port_name_hash name) h, find-insert (port_name_hash name) h name d)

lookup_name-Registered :
    (name : Text) (d : CollisionDetector)
    → Registered name d
    → (lookup_name name d ≡ ok (port_name_hash name)) × (name_of (port_name_hash name) d ≡ ok name)
unfolding lookup_name name_of
lookup_name-Registered name d e =
    (rw (e, lookup_name) (rw ((text_beq_iff name name).1 refl)), rw (e, name_of))

registered :
    (name : Text) (d : CollisionDetector) (id : ℕ)
    → (register_name name d).0 ≡ ok id
    → (id ≡ port_name_hash name) × Registered name (register_name name d).1
registered name d id h = elim (register_name-cases name d) [
  | fresh e r ↦
      (cc (ap (λ t. t.0) r), rw r (find-insert _ _ name d ∙ rw (=?=_refl (port_name_hash name))))
  | again e r ↦ (cc (ap (λ t. t.0) r), rw r e)
  | collides other e ne r ↦ absurd (cc (ap (λ t. t.0) r))
]

-- A name that is registered without an exception gets its 16-bit hash as its id. From then on
-- `lookup_name` gives that id for the name and `name` gives the name for that id, and whatever
-- stood under any hash before still does.
pub register_name-Registered :
    (name : Text) (d : CollisionDetector) (id : ℕ)
    → (register_name name d).0 ≡ ok id
    → (id ≡ port_name_hash name)
      × (lookup_name name (register_name name d).1 ≡ ok id)
      × (name_of id (register_name name d).1 ≡ ok name)
      × ((h : ℕ) (other : Text)
          → find h d ≡ some other
          → find h (register_name name d).1 ≡ some other)
register_name-Registered name d id h =
    let (e, r) = registered name d id h in
    let (found, named) = lookup_name-Registered name (register_name name d).1 r in
    (e, rw e found, rw e named, λ k other. register_name-keeps name other k d)

-- Registration fails exactly when another name stands under the same 16-bit hash; it then throws
-- and changes nothing.
pub register_name-collision :
    (name : Text) (d : CollisionDetector)
    → ((r : Exception) × ((register_name name d).0 ≡ throws r))
      ↔ ((other : Text) × (find (port_name_hash name) d ≡ some other) × (other ≢ name))
register_name-collision name d = (fails, λ (other, e, ne). clashes other e ne)
  where
    fails :
        (r : Exception) × ((register_name name d).0 ≡ throws r)
        → (other : Text) × (find (port_name_hash name) d ≡ some other) × (other ≢ name)
    fails (r, h) = elim (register_name-cases name d) [
      | fresh e q ↦ absurd (cc (ap (λ t. t.0) q))
      | again e q ↦ absurd (cc (ap (λ t. t.0) q))
      | collides other e ne q ↦ (other, e, ne)
    ]

    clashes :
        (other : Text)
        → find (port_name_hash name) d ≡ some other
        → other ≢ name
        → (r : Exception) × ((register_name name d).0 ≡ throws r)
    clashes other e ne = elim (register_name-cases name d) [
      | fresh f q ↦ absurd (cc)
      | again f q ↦ absurd (ne (cc))
      | collides o f n q ↦ (Exception.name_collision, ap (λ t. t.0) q)
    ]

lookup_name-found :
    (name : Text) (d : CollisionDetector) (id : ℕ)
    → lookup_name name d ≡ ok id
    → Registered name d × (id ≡ port_name_hash name)
unfolding lookup_name
lookup_name-found name d id h = elim (Option-cases (find (port_name_hash name) d)) [
  | inl e ↦ absurd (cc (rw (e, lookup_name) at h))
  | inr (other, e) ↦ same other e
]
  where
    same :
        (other : Text)
        → find (port_name_hash name) d ≡ some other
        → Registered name d × (id ≡ port_name_hash name)
    same other e = ground (arith, text_beq_iff other name)

-- Two names that are looked up to one id are one name.
pub lookup_name-injective :
    (a b : Text) (d : CollisionDetector) (id : ℕ)
    → lookup_name a d ≡ ok id
    → lookup_name b d ≡ ok id
    → a ≡ b
lookup_name-injective a b d id p q =
    let (ra, ea) = lookup_name-found a d id p in
    let (rb, eb) = lookup_name-found b d id q in cc (ra, rb, ea, eb)

-- Registration keeps every stored name under its own hash.
pub register_name-IsHashed :
    (name : Text) (d : CollisionDetector) → IsHashed d → IsHashed (register_name name d).1
register_name-IsHashed name d v h n e = elim (register_name-cases name d) [
  | fresh f q ↦ ground (
    arith,
    rw q at e,
    ==_iff (port_name_hash name) h,
    find-insert (port_name_hash name) h name d,
    v h n,
  )
  | again f q ↦ v h n (rw q at e)
  | collides other f ne q ↦ v h n (rw q at e)
]
