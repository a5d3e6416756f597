-- ===== src/Manifold.antt =====
-- include/srf/manifold: the manifold of a port name, between the segments that send to the port and those
-- that receive from it. A connection is attached by a later update.
pub mod RoundRobin
pub mod Updates
mod Tests
use srf.Base.{
  ℕ, zero, suc, Option, Bool, true, false, not, List, [], ◌∷◌, ◌++◌, none, some, Text, nat_key, ok,
  fatal, M, and_then, ◌>>=◌, ◌>>◌, check, ◌==◌, if◌then◌else◌, get_elem?, length, contains,
}

-- A port of a segment, with the type of its data.
pub record Port : Type 0 where
  pub address : ℕ
  pub data_type : ℕ

-- MuxedIngress: the addresses of the sources with an edge to the muxer.
pub record Ingress : Type 0 where
  pub inputs : List ℕ

-- MappedEgress and RoundRobinEgress: the addresses with an output channel, and the pick list of channels.
pub record Egress : Type 0 where
  pub outputs : List ℕ
  pub pick_list : List ℕ
  pub next : ℕ

-- A CompositeManifold with the members of LoadBalancer: what m_balancer holds, and m_runner.
pub record Manifold : Type 0 where
  pub port_name : Text
  pub data_type : ℕ
  pub input_updates : List Port
  pub output_updates : List Port
  pub ingress : Ingress
  pub egress : Egress
  pub balancer : Bool
  pub runner : Bool

abbrev pub new_egress : Egress
new_egress = record { outputs = []; pick_list = []; next = 0 }

-- manifold::Factory<T>::make_manifold
abbrev pub make_manifold : Text → ℕ → Manifold
make_manifold name type = record {
  port_name = name;
  data_type = type;
  input_updates = [];
  output_updates = [];
  ingress = record { inputs = [] };
  egress = new_egress;
  balancer = true;
  runner = false;
}

-- TypedIngress::add_input and MuxedIngress::do_add_input. The cast fails if the types differ.
unfoldable pub add_input : ℕ → Port → M Ingress (Unit {0})
add_input type source = check (source.data_type == type) >> λ i.
    (ok tt, record i { inputs = i.inputs ++ (source.address ∷ []) })

-- `shuffle` gives the order of the shuffled pick list. `status` says whether a write to the channel of an
-- address succeeds.
module _ (shuffle : List ℕ → List ℕ) where
  abbrev pub update_pick_list : Egress → Egress
  update_pick_list e = record e { pick_list = shuffle e.outputs; next = 0 }

  -- TypedEgress::add_output and RoundRobinEgress::do_add_output
  unfoldable pub add_output : ℕ → Port → M Egress (Unit {0})
  add_output type sink = check (sink.data_type == type) >> λ e.
      (check (not (contains sink.address e.outputs)) >> λ e.
      (ok tt, update_pick_list (record e { outputs = e.outputs ++ (sink.address ∷ []) })))
        e

-- MappedEgress::clear
abbrev pub clear : Egress → Egress
clear e = record e { outputs = [] }

-- Some fibers of one thread that share an egress: `pending` are the writes that have begun, each with the channel that
-- was picked for it, and `written` the ones that are done.
pub record Writers (A : Type 0) : Type 0 where
  pub egress : Egress
  pub pending : List (ℕ × A)
  pub written : List (ℕ × A)

-- An element of a list, and the others.
unfoldable pub take_out : {B : Type 0} → ℕ → List B → Option (B × List B)
take_out i [] = none
take_out zero (x ∷ xs) = some (x, xs)
take_out (suc i) (x ∷ xs) = elim (take_out i xs) [ none ↦ none | some (y, ys) ↦ some (y, x ∷ ys) ]

-- What the fibers do, one after another: one gets an item and begins to write it, or the write of one ends. A write to a
-- channel can yield, so that others begin or end before it ends.
pub data Turn (A : Type 0) : Type 0 where
  gets : A → Turn A
  ends : ℕ → Turn A

module _ {A : Type 0} (status : ℕ → A → Bool) where
  -- RoundRobinEgress::await_write up to the write, and from there on.
  unfoldable pub begin_write : A → M (Writers A) (Unit {0})
  begin_write item w = elim (get_elem? w.egress.pick_list w.egress.next) [
    | none ↦ (fatal, w)
    | some channel ↦
        let e = w.egress in
        let next = if suc e.next == length e.pick_list then 0 else suc e.next in
        (
          ok tt,
          record w {
            egress = record e { next = next };
            pending = w.pending ++ ((channel, item) ∷ []);
          },
        )
  ]

  -- Nothing happens if there is no such write.
  unfoldable pub end_write : ℕ → M (Writers A) (Unit {0})
  unfolding take_out
  end_write i w = elim (take_out i w.pending) [
    | none ↦ (ok tt, w)
    | some ((channel, item), others) ↦
        if status channel item
        then (ok tt, record w { pending = others; written = w.written ++ ((channel, item) ∷ []) })
        else (fatal, record w { pending = others })
  ]

  unfoldable pub take_turn : Turn A → M (Writers A) (Unit {0})
  unfolding begin_write end_write
  take_turn (gets item) = begin_write item
  take_turn (ends i) = end_write i

  -- What the balancer does with the data that its fibers get.
  unfoldable pub balance : List (Turn A) → M (Writers A) (Unit {0})
  unfolding take_turn
  balance [] w = (ok tt, w)
  balance (t ∷ ts) w = (take_turn t >> balance ts) w

abbrev pub do_add_input : Port → Manifold → Manifold
do_add_input source m = record m { input_updates = m.input_updates ++ (source ∷ []) }

abbrev pub do_add_output : Port → Manifold → Manifold
do_add_output sink m = record m { output_updates = m.output_updates ++ (sink ∷ []) }

-- CompositeManifold::update, of the delegate `S` that the updates change.
unfoldable pub update : {S : Type 0} → (Port → M S (Unit {0})) → List Port → M S (Unit {0})
update attach [] s = (ok tt, s)
update attach (p ∷ ps) s = (attach p >> update attach ps) s

-- The queue is cleared if no update fails.
unfoldable pub update_inputs : M Manifold (Unit {0})
unfolding update add_input
update_inputs m =
    let (outcome, ingress) = update (add_input m.data_type) m.input_updates m.ingress in
    and_then (outcome, record m { ingress = ingress })
      λ _ m. (ok tt, record m { input_updates = [] })

-- LoadBalancer::start: the first start moves the balancer to its runner.
unfoldable pub start : M Manifold (Unit {0})
start m =
    if m.runner
    then (ok tt, m)
    else (check m.balancer >> λ m. (ok tt, record m { balancer = false; runner = true })) m

module _ (shuffle : List ℕ → List ℕ) where
  unfoldable pub update_outputs : M Manifold (Unit {0})
  unfolding update add_output
  update_outputs m =
      let (outcome, egress) = update (add_output shuffle m.data_type) m.output_updates m.egress in
      and_then (outcome, record m { egress = egress })
        λ _ m. (ok tt, record m { output_updates = [] })

  -- What pipeline::Instance::update does with each manifold.
  unfoldable pub refresh : M Manifold (Unit {0})
  unfolding update_inputs update_outputs start
  refresh = do update_inputs; update_outputs; start
