-- ===== src/Engines/Counts.antt =====
-- How many cpus the groups need.
use srf.Base.{ℕ, ◌+◌, ◌<◌, ◌≡◌, refl, max, [], ◌∷◌, arith, if◌then◌else◌}
use srf.EngineGroups.{
  EngineType, fiber, thread, process, EngineFactoryOptions, Groups, size, Tally, add_count,
  tally_group, tally, no_tally, min_cpu_count,
}

-- What a group needs for itself.
abbrev pub own : EngineFactoryOptions → ℕ
own o = if o.allow_overlap then 0 else o.cpu_count

-- What it needs of the shared cpus.
abbrev pub wide : EngineFactoryOptions → ℕ
wide o = if o.allow_overlap then o.cpu_count else 0

abbrev pub dedicated : Groups → ℕ
dedicated [] = 0
dedicated ((name, o) ∷ groups) = own o + dedicated groups

abbrev pub widest : Groups → ℕ
widest [] = 0
widest ((name, o) ∷ groups) = max (wide o) (widest groups)

abbrev pub total : Tally → ℕ
total t = t.fibers + t.threads + t.processes

add_count-total :
    (e : EngineType) (n : ℕ) (t : Tally)
    → total t + n < size
    → (total (add_count e n t) ≡ total t + n) × ((add_count e n t).shared ≡ t.shared)
unfolding add_count
add_count-total fiber n t h = (omega arith, refl)
add_count-total thread n t h = (omega arith, refl)
add_count-total process n t h = (omega arith, refl)

tally_group-total :
    (o : EngineFactoryOptions) (t : Tally)
    → total t + own o < size
    → (total (tally_group o t) ≡ total t + own o)
      × ((tally_group o t).shared ≡ max t.shared (wide o))
unfolding tally_group
tally_group-total o t h = ground (arith, add_count-total o.engine_type o.cpu_count t)

tally-total :
    (groups : Groups) (t : Tally)
    → total t + dedicated groups < size
    → (total (tally groups t) ≡ total t + dedicated groups)
      × ((tally groups t).shared ≡ max t.shared (widest groups))
unfolding tally
tally-total [] t h = (omega arith, omega arith)
tally-total ((name, o) ∷ groups) t h =
    let one = tally_group-total o t (omega arith) in
    let rest = tally-total groups (tally_group o t) (omega (arith, one)) in
    (omega (arith, one, rest), omega (arith, one, rest))

-- Without an overflow, the sum is the one of the widest pool that overlaps and all the others.
pub min_cpu_count-tally :
    (groups : Groups)
    → widest groups + dedicated groups < size
    → (min_cpu_count (tally groups no_tally) ≡ widest groups + dedicated groups)
min_cpu_count-tally groups h = omega (arith, tally-total groups no_tally (omega arith))
