-- ===== src/Factories.antt =====
-- src/internal/runnable/engine_factory.cpp, on src/internal/system/fiber_pool.cpp and fiber_manager.cpp:
-- which task queues and which cpus the engines of a launch get. A task queue is named by the cpu that
-- its thread is bound to.
pub mod Cycle
pub mod Dedicated
mod Tests
use srf.Base.{
  ℕ, zero, suc, ◌+◌, Bool, true, false, List, [], ◌∷◌, ◌++◌, Option, none, some, Outcome, ok,
  throws, fatal, Exception, M, ◌>>=◌, pure, bind, ltb, ◌==◌, if◌then◌else◌, get_elem?, length,
}
use srf.Bitmap.{new_bitmap, on, next, empty, vec, contains_bits}
use srf.Bitmap.Interface.{Hwloc}
use srf.EngineGroups.{EngineType, fiber, thread, process}

-- FiberManager::make_pool: the queues of a pool. The manager has a queue for each cpu of its own set.
unfoldable pub make_pool : {B : Type 0} ⦃hwloc : Hwloc B⦄ → B → B → Outcome (List ℕ)
make_pool manager_cpu_set cpu_set =
    if contains_bits cpu_set manager_cpu_set
    then ok (vec cpu_set)
    else throws Exception.not_in_topology

-- FiberPool::task_queue_shared
pub task_queue_shared : List ℕ → ℕ → Outcome ℕ
task_queue_shared queues index = elim (get_elem? queues index) [ none ↦ fatal | some q ↦ ok q ]

-- ReusableFiberEngineFactory::next, on m_offset
pub next_offset : ℕ → M ℕ ℕ
next_offset thread_count offset = (ok offset, if suc offset == thread_count then 0 else suc offset)

-- ReusableFiberEngineFactory::get_next_n_queues
unfoldable pub reusable_queues : List ℕ → ℕ → M ℕ (List ℕ)
unfolding next_offset task_queue_shared
reusable_queues queues zero = pure []
reusable_queues queues (suc count) = do
  i ← next_offset (length queues)
  q ← λ offset. (task_queue_shared queues i, offset)
  others ← reusable_queues queues count
  pure (q ∷ others)

-- The queues from `i` on.
pub queues_from : List ℕ → ℕ → ℕ → Outcome (List ℕ)
unfolding task_queue_shared
queues_from queues i zero = ok []
queues_from queues i (suc count) =
    bind (task_queue_shared queues i)
      λ q. bind (queues_from queues (suc i) count) λ others. ok (q ∷ others)

-- SingleUseFiberEngineFactory::get_next_n_queues
unfoldable pub single_use_queues : List ℕ → ℕ → M ℕ (List ℕ)
unfolding queues_from
single_use_queues queues count offset =
    if ltb (length queues) (offset + count)
    then (throws Exception.no_more_threads, offset)
    else (queues_from queues offset count, offset)

module _ {B : Type 0} ⦃hwloc : Hwloc B⦄ where
  -- ReusableThreadEngineFactory::get_next_n_cpus, on m_prev_cpu_idx; `fatal` is an empty cpu set, which
  -- the constructor refuses.
  unfoldable pub reusable_cpus : B → ℕ → B → M (Option ℕ) B
  reusable_cpus cpus zero this_set prev = (ok this_set, prev)
  reusable_cpus cpus (suc count) this_set prev = elim (next prev cpus) [
    | some i ↦ reusable_cpus cpus count (on i this_set) (some i)
    | none ↦ elim (next none cpus) [
      | some i ↦ reusable_cpus cpus count (on i this_set) (some i)
      | none ↦ (fatal, none)
    ]
  ]

  -- SingleUseThreadEngineFactory::get_next_n_cpus
  unfoldable pub single_use_cpus : B → ℕ → B → M (Option ℕ) B
  single_use_cpus cpus zero this_set prev = (ok this_set, prev)
  single_use_cpus cpus (suc count) this_set prev = elim (next prev cpus) [
    | none ↦ (throws Exception.cpus_exhausted, none)
    | some i ↦ single_use_cpus cpus count (on i this_set) (some i)
  ]

-- The factories, each with its pool or its cpus and what its calls change.
pub data EngineFactory (B : Type 0) : Type 0 where
  reusable_fibers single_use_fibers : List ℕ → ℕ → EngineFactory B
  reusable_threads single_use_threads : B → Option ℕ → EngineFactory B

-- What the engines are built on: task queues, or cpus for threads.
pub data Seats (B : Type 0) : Type 0 where
  on_queues : List ℕ → Seats B
  on_cpus : B → Seats B

module _ {B : Type 0} ⦃hwloc : Hwloc B⦄ where
  -- The constructor of the thread factories.
  pub thread_factory : (Option ℕ → EngineFactory B) → B → Outcome (EngineFactory B)
  thread_factory make cpu_set = if empty cpu_set then fatal else ok (make none)

  unfoldable pub make_engine_factory : B → EngineType → B → Bool → Outcome (EngineFactory B)
  unfolding thread_factory make_pool
  make_engine_factory topology fiber cpu_set true =
      bind (make_pool topology cpu_set) (λ queues. ok (reusable_fibers queues 0))
  make_engine_factory topology fiber cpu_set false =
      bind (make_pool topology cpu_set) (λ queues. ok (single_use_fibers queues 0))
  make_engine_factory topology thread cpu_set true =
      thread_factory (reusable_threads cpu_set) cpu_set
  make_engine_factory topology thread cpu_set false =
      thread_factory (single_use_threads cpu_set) cpu_set
  make_engine_factory topology process cpu_set reusable = fatal

  abbrev pub seats_of :
      {S A : Type 0}
      → (A → Seats B)
      → (S → EngineFactory B)
      → Outcome A × S
      → Outcome (Seats B) × EngineFactory B
  seats_of seat factory (r, s) = (bind r (λ a. ok (seat a)), factory s)

  -- build_engines: the engines are built on `pe_count` queues or cpus.
  unfoldable pub build_engines : ℕ → M (EngineFactory B) (Seats B)
  unfolding reusable_queues single_use_queues reusable_cpus single_use_cpus
  build_engines pe_count (reusable_fibers queues offset) =
      seats_of on_queues (reusable_fibers queues) (reusable_queues queues pe_count offset)
  build_engines pe_count (single_use_fibers queues offset) =
      seats_of on_queues (single_use_fibers queues) (single_use_queues queues pe_count offset)
  build_engines pe_count (reusable_threads cpus prev) =
      seats_of on_cpus (reusable_threads cpus) (reusable_cpus cpus pe_count new_bitmap prev)
  build_engines pe_count (single_use_threads cpus prev) =
      seats_of on_cpus (single_use_threads cpus) (single_use_cpus cpus pe_count new_bitmap prev)
