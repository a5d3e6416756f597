-- ===== src/Controller/Tests.antt =====
-- A controller that runs one segment and is told to run none.
use srf.Base.{
  All, some, true, nat_key, text_key, arith, ℕ, ◌≤◌, ◌≡◌, refl, [], ◌∷◌, ok, fatal, contains,
}
use srf.Base.Map.{find, insert, All-find}
use srf.Segment.{Definition}
use srf.Pipeline.{Pipeline}
use srf.Instances.{
  Instance, Segment, new_instance, mark_joinable, construct, for_each, stop_segment,
}
use srf.Controller.{
  Controller, SegmentAddresses, new_controller, update_segments, set_difference, create_at,
}
use srf.Service.{new_service, running, level}
use srf.Instances.Starting.{Live, Follows}
use srf.Instances.Settling.{FitsTypes}
use srf.Instances.Readiness.{IsReady}
use srf.Controller.Growth.{update_segments-grows}
use srf.Controller.Removal.{update_segments-removal}

abbrev lone : Definition ℕ
lone = record {
  name = 114 ∷ [];
  id = 1;
  ingress_initializers = [];
  egress_initializers = (111 ∷ [], 8) ∷ [];
}

abbrev definition : Pipeline ℕ
definition = record { segments = (1, lone) ∷ []; segment_hasher = []; port_hasher = [] }

abbrev updated : Controller ℕ
unfolding update_segments
updated =
    (update_segments definition 1 (λ i. i) (λ _. ok tt) (λ _ _. ok tt) (λ l. l) ((65536, 0) ∷ [])
      (new_controller new_instance)).1

first_update :
    (update_segments definition 1
      (λ i. i)
      (λ _. ok tt)
      (λ _ _. ok tt)
      (λ l. l)
      ((65536, 0) ∷ [])
      (new_controller new_instance)).0
    ≡ ok tt
unfolding update_segments contains find insert mark_joinable
first_update = refl

second_update :
    (update_segments definition 1 (λ i. i) (λ _. ok tt) (λ _ _. ok tt) (λ l. l) [] updated).0
    ≡ fatal
unfolding update_segments updated contains find insert mark_joinable
second_update = refl

-- The instance once the segment that is to go was stopped.
abbrev after_stop : Instance ℕ
unfolding update_segments
after_stop = (for_each (stop_segment definition (λ _ _. ok tt)) (65536 ∷ []) updated.pipeline).1

update_segments-removal_example :
    (t : Instance ℕ) × (update_segments definition 1
        (λ i. i)
        (λ _. ok tt)
        (λ _ _. ok tt)
        (λ l. l)
        []
        updated
      ≡ (fatal, record updated { pipeline = t }))
    × ((s : Segment ℕ) × (find 65536 t.segments ≡ some s) × (3 ≤ level s.service.state))
unfolding updated after_stop contains find insert mark_joinable for_each set_difference
update_segments-removal_example =
    update_segments-removal definition 1 (λ i. i) (λ _. ok tt) (λ _ _. ok tt) (λ l. l)
      (λ b. (refl, refl)) [] updated 65536 updated.pipeline after_stop after_stop.manifolds refl
      refl refl refl refl

-- Two instances of the segment, on one partition.
abbrev two : SegmentAddresses
two = (65536, 0) ∷ (65537, 0) ∷ []

abbrev lone_at : ℕ → Segment ℕ
lone_at rank = record {
  definition = lone;
  rank = rank;
  partition_id = 0;
  connected = [];
  service = new_service;
}

abbrev begun : Controller ℕ
begun = new_controller new_instance

update_segments-grows_example :
    (t : Instance ℕ) × (update_segments definition 1
        (λ i. i)
        (λ _. ok tt)
        (λ _ _. ok tt)
        (λ l. l)
        two
        begun
      ≡ (ok tt, record begun { pipeline = t; current_segments = two }))
    × All (Live t) (set_difference (65536 ∷ 65537 ∷ []) [])
    × ((a : ℕ) (s : Segment ℕ)
        → find a begun.pipeline.segments ≡ some s
        → (s' : Segment ℕ) × (find a t.segments ≡ some s')
          × Follows s s'
          × (s'.service.state ≡ running))
    × (t.joinable ≡ true)
    × IsReady (λ n. 8) t
unfolding contains find insert set_difference construct for_each create_at
update_segments-grows_example =
    update_segments-grows definition 1 (λ i. i) (λ _. ok tt) (λ _ _. ok tt) (λ l. l) (λ n. 8) two
      begun (λ a. (refl, refl)) (((λ e. absurd omega arith), tt), (tt, tt)) tt
      (
        (0, lone_at 0, refl, omega arith, refl, (tt, tt), fits, refl),
        ((0, lone_at 1, refl, omega arith, refl, (tt, tt), fits, refl), tt),
      )
      (refl, (refl, tt))
      (record { named = λ n m h. absurd cc; settled = tt; startable = λ a s h. absurd cc })
  where
    fits : FitsTypes (λ (i : ℕ). i) (λ n. 8) lone
    fits = (
      (λ n i f. All-find (λ e. e.1 ≡ 8) n i lone.egress_initializers (refl, tt) f),
      (λ n i f. absurd cc),
    )
