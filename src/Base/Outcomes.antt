-- ===== src/Base/Outcomes.antt =====
-- How a call ends, and programs that change a state on the way.
use Prim.Native.Nat.{ℕ}
use mathlib.Core.Bool.{Bool, true, false}
use mathlib.Core.Path.{◌≡◌, refl, ap}
use mathlib.Core.Logic.{◌≢◌}

-- The exceptions that the modelled code throws, one for each message of the source.
pub data Exception : Type 0 where
  name_collision name_not_registered hash_not_registered : Exception
  duplicate_segment port_names_not_unique port_hash_collision : Exception
  insufficient_cpus runner_disabled not_owned : Exception
  not_in_topology no_more_threads cpus_exhausted wrong_message_type : Exception
  invalid_manifold out_of_range : Exception
  duplicate_converter no_writer_type no_reader_type : Exception
  duplicate_object object_not_found port_not_found port_type_mismatch : Exception
  not_a_source wrong_source_type not_a_sink wrong_sink_type : Exception
  -- One that the code of a node threw.
  thrown : ℕ → Exception

-- `fatal` is a failed CHECK or a LOG(FATAL), which end the process.
pub data Outcome {ℓ} (A : Type ℓ) : Type ℓ where
  ok : A → Outcome A
  throws : Exception → Outcome A
  fatal : Outcome A

-- What was changed before an exception stays changed.
abbrev pub M : Type 0 → Type 0 → Type 0
M S A = S → Outcome A × S

abbrev pub pure : {S A : Type 0} → A → M S A
pure a s = (ok a, s)

abbrev pub and_then : {S A B : Type 0} → Outcome A × S → (A → M S B) → Outcome B × S
and_then (ok a, s) f = f a s
and_then (throws e, s) f = (throws e, s)
and_then (fatal, s) f = (fatal, s)

infixl 5 ◌>>=◌ ◌>>◌
abbrev pub ◌>>=◌ : {S A B : Type 0} → M S A → (A → M S B) → M S B
◌>>=◌ m f s = and_then (m s) f

abbrev pub ◌>>◌ : {S B : Type 0} → M S (Unit {0}) → M S B → M S B
m >> k = m >>= λ _. k

-- Throw, unless the test passes.
abbrev pub require : {S : Type 0} → Bool → Exception → M S (Unit {0})
require true e s = (ok tt, s)
require false e s = (throws e, s)

-- CHECK(b)
abbrev pub check : {S : Type 0} → Bool → M S (Unit {0})
check true s = (ok tt, s)
check false s = (fatal, s)

-- What holds of a result: `P` of the value and the state, or `Q` of the state at an exception. The
-- process does not end.
abbrev pub Ensures : {S A : Type 0} → (A → S → Type 0) → (S → Type 0) → Outcome A × S → Type 0
Ensures P Q (ok a, s) = P a s
Ensures P Q (throws e, s) = Q s
Ensures P Q (fatal, s) = ⊥

pub Ensures-and_then :
    {S A B : Type 0} (P : A → S → Type 0) (P' : B → S → Type 0) (Q : S → Type 0) (r : Outcome A × S)
    (f : A → M S B)
    → Ensures P Q r
    → ((a : A) (s : S) → P a s → Ensures P' Q (f a s))
    → Ensures P' Q (and_then r f)
Ensures-and_then P P' Q (ok a, s) f h k = k a s h
Ensures-and_then P P' Q (throws e, s) f h k = h
Ensures-and_then P P' Q (fatal, s) f h k = h

pub Ensures-weaken :
    {S A : Type 0} (P P' : A → S → Type 0) (Q Q' : S → Type 0) (r : Outcome A × S)
    → Ensures P Q r
    → ((a : A) (s : S) → P a s → P' a s)
    → ((s : S) → Q s → Q' s)
    → Ensures P' Q' r
Ensures-weaken P P' Q Q' (ok a, s) h k l = k a s h
Ensures-weaken P P' Q Q' (throws e, s) h k l = l s h
Ensures-weaken P P' Q Q' (fatal, s) h k l = h

-- Where no exception is allowed, there is a value.
pub Ensures-ok :
    {S A : Type 0} (P : A → S → Type 0) (r : Outcome A × S)
    → Ensures P (λ s. ⊥) r
    → (a : A) × (r.0 ≡ ok a) × P a r.1
Ensures-ok P (ok a, s) h = (a, refl, h)
Ensures-ok P (throws e, s) h = absurd h
Ensures-ok P (fatal, s) h = absurd h

-- A call without a state of its own.
abbrev pub bind : {A B : Type 0} → Outcome A → (A → Outcome B) → Outcome B
bind (ok a) f = f a
bind (throws e) f = throws e
bind fatal f = fatal

pub ok-injective : {A : Type 0} (a b : A) → ok a ≡ ok b → a ≡ b
ok-injective a b h = ap (λ o. elim o [ ok c ↦ c | throws _ ↦ a | fatal ↦ a ]) h

-- Where a sequence has a value, so has its first part.
pub bind-ok :
    {A B : Type 0} (m : Outcome A) (f : A → Outcome B) (b : B)
    → bind m f ≡ ok b
    → (a : A) × (m ≡ ok a) × (f a ≡ ok b)
bind-ok (ok a) f b h = (a, refl, h)
bind-ok (throws e) f b h = absurd cc
bind-ok fatal f b h = absurd cc

-- What holds of the state if the call returns a value.
abbrev pub After : {S A : Type 0} → (S → Type 0) → Outcome A × S → Type 0
After P (ok a, s) = P s
After P (throws e, s) = Unit
After P (fatal, s) = Unit

pub After-and_then :
    {S A B : Type 0} (P Q : S → Type 0) (r : Outcome A × S) (f : A → M S B)
    → After P r
    → ((a : A) (s : S) → P s → After Q (f a s))
    → After Q (and_then r f)
After-and_then P Q (ok a, s) f h k = k a s h
After-and_then P Q (throws e, s) f h k = tt
After-and_then P Q (fatal, s) f h k = tt

pub After-weaken :
    {S A : Type 0} (P Q : S → Type 0) (r : Outcome A × S)
    → After P r
    → ((s : S) → P s → Q s)
    → After Q r
After-weaken P Q (ok a, s) h k = k s h
After-weaken P Q (throws e, s) h k = tt
After-weaken P Q (fatal, s) h k = tt

pub After-never : {S A : Type 0} (r : Outcome A × S) → After (λ s. ⊥) r → (a : A) → r.0 ≢ ok a
After-never (ok a, s) h b e = absurd h
After-never (throws x, s) h b e = absurd cc
After-never (fatal, s) h b e = absurd cc

pub After-pair : {S A : Type 0} (P : S → Type 0) (o : Outcome A) (s : S) → P s → After P (o, s)
After-pair P (ok a) s h = h
After-pair P (throws e) s h = tt
After-pair P fatal s h = tt

pub After-always : {S A : Type 0} (r : Outcome A × S) → After (λ _. Unit {0}) r
After-always (ok a, s) = tt
After-always (throws e, s) = tt
After-always (fatal, s) = tt

pub After-and_pair :
    {S A : Type 0} (Q : S → Type 0) (o : Outcome A) (s : S) (f : M S (Unit {0}))
    → After Q (f s)
    → After Q (and_then (o, s) λ _. f)
After-and_pair Q (ok x) s f h = h
After-and_pair Q (throws e) s f h = tt
After-and_pair Q fatal s f h = tt
