-- ===== src/Instances/Tests.antt =====
-- A pipeline with one segment, which sends to one port and receives from another.
use srf.Base.{
  ℕ, ◌≡◌, refl, ap, ◌≢◌, [], ◌∷◌, none, some, Text, ok, nat_key, ◌=?=◌, if◌then◌else◌, arith, true,
  false, Bool, throws, fatal, thrown, All, ◌==◌, Outcome,
}
use srf.Base.Map.{find}
use srf.Segment.{Definition}
use srf.Pipeline.{Pipeline}
use srf.Service.{new_service, Hook}
use srf.Instances.{
  Segment, Instance, new_instance, construct, create_segment, do_service_await_join,
}
use srf.Instances.Joining.{Joined, do_service_await_join-joins}
use srf.Instances.Creation.{Wired, create_segment-wires}

abbrev relay : Definition ℕ
relay = record {
  name = 114 ∷ [];
  id = 1;
  ingress_initializers = (105 ∷ [], 7) ∷ [];
  egress_initializers = (111 ∷ [], 8) ∷ [];
}

abbrev pipeline : Pipeline ℕ
pipeline = record { segments = (1, relay) ∷ []; segment_hasher = []; port_hasher = [] }

abbrev first : Segment ℕ
first = record {
  definition = relay;
  rank = 0;
  partition_id = 0;
  connected = [];
  service = new_service;
}

constructed : construct pipeline 1 (λ i. i) (λ _. ok tt) 65536 0 ≡ ok first
unfolding construct find
constructed = refl

different : ◌≢◌ {A = Text} (105 ∷ []) (111 ∷ [])
different e = absurd (omega (arith, ap {B = ℕ} (λ l. elim l [ [] ↦ 0 | c ∷ _ ↦ c ]) e))

create_segment-wires_example :
    (p' : Instance ℕ) × (s' : Segment ℕ) × (create_segment pipeline 1
        (λ i. i)
        (λ _. ok tt)
        65536
        0
        new_instance
      ≡ (ok tt, p'))
    × ((b : ℕ) → find b p'.segments ≡ (if 65536 =?= b then some s' else none))
    × Wired (λ i. i) first [] s' p'.manifolds
unfolding find
create_segment-wires_example =
    create_segment-wires pipeline 1 (λ i. i) (λ _. ok tt) 65536 0 new_instance first (omega arith)
      refl constructed (((λ e. absurd (different e)), tt), (tt, tt)) (λ n m h. absurd cc)

-- Two segments, of which the first one fails.
abbrev two_segments : Instance ℕ
two_segments = record {
  manifolds = [];
  segments = (65536, first) ∷ (65537, record first { rank = 1 }) ∷ [];
  joinable = true;
}

abbrev one_fails : ℕ → Hook → Outcome (Unit {0})
one_fails a h = if a == 65536 then throws (thrown 1) else ok tt

do_service_await_join-joins_example :
    (two_segments.joinable ≡ false → do_service_await_join one_fails two_segments ≡ none)
    × (two_segments.joinable ≡ true
        → (r : Outcome (Unit {0}) × Instance ℕ) × (do_service_await_join one_fails two_segments
            ≡ some r)
          × (r.0 ≢ fatal)
          × All (λ a. one_fails a Hook.await_join ≡ ok tt → Joined r.1 a) (65536 ∷ 65537 ∷ []))
do_service_await_join-joins_example =
    do_service_await_join-joins one_fails (λ a e. ends (a == 65536) e) two_segments
  where
    ends : (b : Bool) → ◌≢◌ {A = Outcome (Unit {0})} (if b then throws (thrown 1) else ok tt) fatal
    ends true e = absurd cc
    ends false e = absurd cc
