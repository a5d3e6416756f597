-- ===== src/SegmentService.antt =====
-- src/internal/segment/instance.cpp: what the service of a segment does with the runners of its nodes and ports.
mod Runners
mod Preparing
mod Reactions
mod Sparing
pub mod Starting
pub mod Killing
pub mod Joining
pub mod Fresh
mod Tests
use srf.Base.{
  ℕ, ◌++◌, Bool, true, false, not, List, [], ◌∷◌, Option, none, some, Text, text_key, Outcome, ok,
  throws, Exception, M, ◌>>=◌, ◌>>◌, check, contains, if◌then◌else◌, bind,
}
use srf.Base.Map.{Map, insert, keys}
use srf.Service.{
  Service, ServiceState, new_service, awaiting, stopping, killing, advance_below, forward_state,
}
use srf.Runnable.{
  Runnable, new_runnable, run, update_runnable, own_runnable, stop_runnable, kill_runnable,
}
use srf.Builder.{Builder, BuilderCall, construct_builder}
use srf.Addresses.{segment_address_decode}
use srf.Segment.{Definition}
use srf.Pipeline.{Pipeline, find_segment}

-- The three maps of the builder, and of the runners.
pub data Part : Type 0 where
  egress node ingress : Part

abbrev pub same : Part → Part → Bool
same egress egress = true
same egress node = false
same egress ingress = false
same node egress = false
same node node = true
same node ingress = false
same ingress egress = false
same ingress node = false
same ingress ingress = true

-- `taken` are the nodes and ports whose runnable was moved to a launcher, `connected` the egress ports with a
-- manifold. A runner stands for the runnable that it owns. `joined` records the runners that were waited for.
pub record Running : Type 0 where
  pub builder : Builder
  pub taken : Part → List Text
  pub connected : List Text
  pub egress_runners : Map Text Runnable
  pub runners : Map Text Runnable
  pub ingress_runners : Map Text Runnable
  pub service : Service
  pub joined : List (Part × Text)

-- A segment whose builder was made, with some of its egress ports connected.
abbrev pub new_running : Builder → List Text → Running
new_running builder connected = record {
  builder = builder;
  taken = λ _. [];
  connected = connected;
  egress_runners = [];
  runners = [];
  ingress_runners = [];
  service = new_service;
  joined = [];
}

-- The construction of the builder of the segment at an address.
unfoldable pub build_segment :
    {I : Type 0} → Pipeline I → (I → ℕ) → (Definition I → List BuilderCall) → ℕ → Outcome (Unit {0})
unfolding segment_address_decode find_segment construct_builder
build_segment definition type_of initializer addr =
    let (id, rank) = segment_address_decode addr in
    bind (find_segment id definition) λ d. (construct_builder type_of (initializer d) d rank).0

abbrev pub with_service : {A : Type 0} → M Service A → M Running A
with_service act s =
    let (outcome, service) = act s.service in (outcome, record s { service = service })

abbrev pub names_of : Part → Running → List Text
names_of egress s = keys s.builder.egress_ports
names_of node s = keys s.builder.nodes
names_of ingress s = keys s.builder.ingress_ports

abbrev pub runners_of : Part → Running → Map Text Runnable
runners_of egress s = s.egress_runners
runners_of node s = s.runners
runners_of ingress s = s.ingress_runners

unfoldable pub take_runnable : Part → Text → Running → Running
take_runnable p name s = record s { taken = λ q. if same p q then name ∷ s.taken q else s.taken q }

-- An egress port needs its manifold.
abbrev pub is_ready : Part → Text → Running → Bool
is_ready egress name s = contains name s.connected
is_ready node name s = true
is_ready ingress name s = true

-- `launch_control` says how LaunchControl::prepare_launcher ends, which makes the engines and the contexts.
module _ (launch_control : Part → Text → Outcome (Unit {0})) where
  -- prepare_launcher of a port or of a node
  unfoldable pub prepare_launcher : Part → Text → M Running (Unit {0})
  unfolding take_runnable
  prepare_launcher p name =
      (λ s. check (not (contains name (s.taken p))) s)
      >> ((λ s. check (is_ready p name s) s) >> λ s.
          (launch_control p name, take_runnable p name s))

  unfoldable pub prepare_all : Part → List Text → M Running (Unit {0})
  unfolding prepare_launcher
  prepare_all p [] s = (ok tt, s)
  prepare_all p (name ∷ names) s = (prepare_launcher p name >> prepare_all p names) s

-- The runnable of a new runner, which is then enqueued. The checks of ignition, for a runner, engines and contexts, hold
-- of a launcher that was prepared and not ignited yet.
unfoldable pub ignited : Runnable
unfolding update_runnable own_runnable
ignited = update_runnable run (own_runnable new_runnable)

unfoldable pub ignite : Part → Text → Running → Running
unfolding insert ignited
ignite egress name s = record s { egress_runners = insert name ignited s.egress_runners }
ignite node name s = record s { runners = insert name ignited s.runners }
ignite ingress name s = record s { ingress_runners = insert name ignited s.ingress_runners }

unfoldable pub ignite_all : Part → List Text → Running → Running
unfolding ignite
ignite_all p [] s = s
ignite_all p (name ∷ names) s = ignite_all p names (ignite p name s)

module _ (launch_control : Part → Text → Outcome (Unit {0})) where
  unfoldable pub do_service_start : M Running (Unit {0})
  unfolding prepare_all ignite_all
  do_service_start s =
      let prepare : Part → M Running (Unit {0}) =
        λ p. prepare_all launch_control p (names_of p s) in
      let launch : Part → Running → Running = λ p t. ignite_all p (names_of p s) t in
      (prepare node >> prepare egress >> prepare ingress >> λ s.
      (ok tt, launch ingress (launch node (launch egress s))))
        s

unfoldable pub each_runner : (Runnable → Runnable) → Map Text Runnable → Map Text Runnable
each_runner f [] = []
each_runner f ((name, r) ∷ rs) = (name, f r) ∷ each_runner f rs

-- The ports are not told to stop.
unfoldable pub do_service_stop : Running → Running
unfolding each_runner stop_runnable
do_service_stop s = record s { runners = each_runner stop_runnable s.runners }

unfoldable pub do_service_kill : Running → Running
unfolding each_runner kill_runnable
do_service_kill s = record s {
  ingress_runners = each_runner kill_runnable s.ingress_runners;
  runners = each_runner kill_runnable s.runners;
  egress_runners = each_runner kill_runnable s.egress_runners;
}

abbrev act_if : Bool → (Running → Running) → M Running (Unit {0})
act_if true f s = (ok tt, f s)
act_if false f s = (ok tt, s)

-- Service::service_stop and service_kill of a segment
unfoldable pub stop_segment : M Running (Unit {0})
unfolding advance_below do_service_stop
stop_segment = do
  execute ← with_service (advance_below stopping stopping)
  act_if execute do_service_stop

unfoldable pub kill_segment : M Running (Unit {0})
unfolding advance_below do_service_kill
kill_segment = do
  execute ← with_service (advance_below killing killing)
  act_if execute do_service_kill

-- The completion callback that do_service_start gives to every runner.
unfoldable pub on_completion : Bool → M Running (Unit {0})
unfolding kill_segment
on_completion true s = (ok tt, s)
on_completion false s = kill_segment s

-- What happens to a segment, in any order: the last loops of do_service_start run beside the runners that are launched
-- already and beside other threads' calls. A runner is launched by `ignition` and only then stored in its map: the
-- launch changes none of the maps. A join begins with its locked part, and ends when every runner was waited for.
pub data Event : Type 0 where
  ignites stores : Part → Text → Event
  completed : Text → Bool → Event
  stops kills begins_join ends_join : Event

unfoldable pub react : Event → M Running (Unit {0})
unfolding ignite on_completion stop_segment kill_segment advance_below forward_state
react (ignites p name) s = (ok tt, s)
react (stores p name) s = (ok tt, ignite p name s)
react (completed name success) s = on_completion success s
react stops s = stop_segment s
react kills s = kill_segment s
react begins_join s =
    (with_service (advance_below ServiceState.completed awaiting) >>= λ _ s. (ok tt, s)) s
react ends_join s = (with_service (forward_state ServiceState.completed) >>= λ _ s. (ok tt, s)) s

unfoldable pub react_all : List Event → M Running (Unit {0})
unfolding react
react_all [] s = (ok tt, s)
react_all (e ∷ es) s = (react e >> react_all es) s

-- `ends` says how the wait for a runner ends.
module _ (ends : Part → Text → Option Exception) where
  -- `check`: the first exception is kept.
  unfoldable pub check_all :
      Part → List Text → Option Exception × Running → Option Exception × Running
  check_all p [] r = r
  check_all p (name ∷ names) (first, s) = check_all p names (
    elim first [ none ↦ ends p name | some e ↦ some e ],
    record s { joined = s.joined ++ ((p, name) ∷ []) },
  )

  unfoldable pub do_service_await_join : M Running (Unit {0})
  unfolding check_all
  do_service_await_join s =
      let wait : Part → Option Exception × Running → Option Exception × Running =
        λ p. check_all p (keys (runners_of p s)) in
      let (first, s) = wait egress (wait node (wait ingress (none, s))) in
      elim first [ none ↦ (ok tt, s) | some e ↦ (throws e, s) ]
