-- ===== src/Partitions/Forming/Assigning.antt =====
-- The gpus that remain, and those that are assigned.
use srf.Base.{
  ℕ, suc, zero, ◌+◌, ◌-◌, ◌<◌, ◌≡◌, refl, sym, ap, ◌∙◌, Bool, true, false, not, ◌&&◌, ◌||◌, List,
  [], ◌∷◌, ◌++◌, map, some, nat_key, ok, length, length-append, contains, get_elem?, All,
  All-append, Distinct, Distinct-snoc, ◌==◌, ==_iff, arith,
}
use srf.Base.Map.{Map, keys, erase}
use srf.Partitions.{device_best_match}
use srf.Partitions.Forming.{
  HostPartition, DevicePartition, Forming, add_device_partition_id, assign_gpu, assign_to, place,
}
use srf.Partitions.Forming.Erasing.{
  contains-erase, length-erase, Distinct-erase, device_best_match-takes,
}

abbrev pub assigned : {CpuSet : Type 0} → Forming CpuSet → List ℕ
assigned s = map (λ d. d.cuda_device_id) s.device_partitions

-- Every gpu remains or is assigned, once, and each is assigned to a host partition that there is.
pub record IsPartial {CpuSet : Type 0} (gpus : Map ℕ CpuSet) (s : Forming CpuSet) : Type 0 where
  pub once : Distinct (assigned s)
  pub apart : Distinct (keys s.remaining_gpus)
  pub covered :
      (a : ℕ)
      → (contains a (assigned s) || contains a (keys s.remaining_gpus)) ≡ contains a (keys gpus)
  pub disjoint : (a : ℕ) → (contains a (assigned s) && contains a (keys s.remaining_gpus)) ≡ false
  pub counted : length s.device_partitions + length s.remaining_gpus ≡ length gpus
  pub hosted : All (λ d. d.host_partition_id < length s.host_partitions) s.device_partitions

length-add_device_partition_id :
    {CpuSet : Type 0} (i id : ℕ) (hs : List (HostPartition CpuSet))
    → length (add_device_partition_id i id hs) ≡ length hs
unfolding add_device_partition_id
length-add_device_partition_id i id [] = refl
length-add_device_partition_id zero id (h ∷ hs) = refl
length-add_device_partition_id (suc i) id (h ∷ hs) = ap suc (length-add_device_partition_id i id hs)

last_found :
    {A : Type 0} (x : A) (xs : List A) → (y : A) × (get_elem? (x ∷ xs) (length xs) ≡ some y)
last_found x [] = (x, refl)
last_found x (y ∷ ys) = last_found y ys

contains-append : (a b : ℕ) (xs : List ℕ) → contains a (xs ++ (b ∷ [])) ≡ (contains a xs || b == a)
unfolding contains
contains-append a b [] = ground arith
contains-append a b (x ∷ xs) = ground (arith, contains-append a b xs)

map-snoc :
    (ds : List DevicePartition) (d : DevicePartition)
    → map (λ d. d.cuda_device_id) (ds ++ (d ∷ []))
      ≡ map (λ d. d.cuda_device_id) ds ++ (d.cuda_device_id ∷ [])
map-snoc [] d = refl
map-snoc (e ∷ ds) d = ap (λ l. e.cuda_device_id ∷ l) (map-snoc ds d)

last_host :
    {A : Type 0} (hs : List A) → 0 < length hs → (h : A) × (get_elem? hs (length hs - 1) ≡ some h)
last_host [] p = absurd omega arith
last_host (h ∷ hs) p =
    let e : suc (length hs) - 1 ≡ length hs = omega arith in rw e (last_found h hs)

-- One more is assigned, which remained.
moved-covers :
    (x y q c : Bool) → (x || y) ≡ c → (q ≡ true → y ≡ true) → ((x || q) || (y && not q)) ≡ c
moved-covers true y q c h k = h
moved-covers false true true c h k = h
moved-covers false true false c h k = h
moved-covers false false true c h k = absurd cc (k refl)
moved-covers false false false c h k = h

moved-disjoint : (x y q : Bool) → (x && y) ≡ false → ((x || q) && (y && not q)) ≡ false
moved-disjoint true true q h = absurd cc
moved-disjoint true false q h = refl
moved-disjoint false true true h = refl
moved-disjoint false true false h = refl
moved-disjoint false false true h = refl
moved-disjoint false false false h = refl

module _ {CpuSet : Type 0} (overlap : CpuSet → CpuSet → ℕ) (gpus : Map ℕ CpuSet) where
  assign_gpu-to :
      (s : Forming CpuSet) (m : Map ℕ CpuSet) (host : HostPartition CpuSet)
      → s.remaining_gpus ≡ m
      → get_elem? s.host_partitions (length s.host_partitions - 1) ≡ some host
      → assign_gpu overlap s ≡ assign_to overlap (some host) m s
  unfolding assign_gpu
  assign_gpu-to s m host e h =
      ap (λ h. assign_to overlap h s.remaining_gpus s) h
      ∙ ap (λ m. assign_to overlap (some host) m s) e

  assign_to-place :
      (s : Forming CpuSet) (host : HostPartition CpuSet) (gpu : ℕ × CpuSet) (gpus : Map ℕ CpuSet)
      (id : ℕ) (left : Map ℕ CpuSet)
      → device_best_match overlap host.cpu_set (gpu ∷ gpus) ≡ (some id, left)
      → assign_to overlap (some host) (gpu ∷ gpus) s ≡ place s (some id, left)
  unfolding assign_to
  assign_to-place s host gpu gpus id left h = ap (place s) h

  -- What the assignment of a gpu comes to.
  pub record Assigns (s : Forming CpuSet) : Type 0 where
    pub next : Forming CpuSet
    pub assigns : assign_gpu overlap s ≡ (ok tt, next)
    pub partial : IsPartial gpus next
    pub hosts : length next.host_partitions ≡ length s.host_partitions
    pub left : length next.remaining_gpus ≡ length s.remaining_gpus - 1

  pub assign_gpu-Assigns :
      (s : Forming CpuSet) → IsPartial gpus s → 0 < length s.host_partitions → Assigns s
  unfolding place assign_to contains
  assign_gpu-Assigns s i p = go s.remaining_gpus refl
    where
      go : (m : Map ℕ CpuSet) → s.remaining_gpus ≡ m → Assigns s
      go [] e =
          let h = last_host s.host_partitions p in
          record {
            next = s;
            assigns = assign_gpu-to s [] h.0 e h.1;
            partial = i;
            hosts = refl;
            left = rw e (omega arith);
          }
      go ((k, gpu) ∷ rest) e =
          let h = last_host s.host_partitions p in
          let m : Map ℕ CpuSet = (k, gpu) ∷ rest in
          let t = device_best_match-takes overlap h.0.cpu_set gpu k rest in
          let id = t.0 in
          let here : contains id (keys s.remaining_gpus) ≡ true =
            ap (λ m. contains id (keys m)) e ∙ t.2 in
          let erased = length-erase id m (rw e at i.apart) t.2 in
          let whole : length s.remaining_gpus ≡ length m = ap (λ m. length m) e in
          let host_partition_id = length s.host_partitions - 1 in
          let d : DevicePartition = record {
            cuda_device_id = id;
            host_partition_id = host_partition_id;
          } in
          let next : Forming CpuSet = record {
            host_partitions =
                add_device_partition_id host_partition_id (length s.device_partitions)
                  s.host_partitions;
            device_partitions = s.device_partitions ++ (d ∷ []);
            remaining_gpus = erase id m;
          } in
          record {
            next = next;
            assigns =
                assign_gpu-to s m h.0 e h.1
                ∙ assign_to-place s h.0 (k, gpu) rest id (erase id m) t.1;
            partial = record {
              once =
                  rw (map-snoc s.device_partitions d)
                    (Distinct-snoc id (assigned s) (ground (arith, i.disjoint id, here)) i.once);
              apart = Distinct-erase id m (rw e at i.apart);
              covered = λ a.
                  rw
                    (
                      map-snoc s.device_partitions d,
                      contains-append a id (assigned s),
                      contains-erase id a m,
                    )
                    (moved-covers (contains a (assigned s)) (contains a (keys m)) (id == a)
                      (contains a (keys gpus))
                      (ap (λ l. contains a (assigned s) || contains a (keys l)) (sym e)
                        ∙ i.covered a)
                      (λ q. ap (λ b. contains b (keys m)) (sym ((==_iff id a).0 q)) ∙ t.2));
              disjoint = λ a.
                  rw
                    (
                      map-snoc s.device_partitions d,
                      contains-append a id (assigned s),
                      contains-erase id a m,
                    )
                    (moved-disjoint (contains a (assigned s)) (contains a (keys m)) (id == a) (
                      ap (λ l. contains a (assigned s) && contains a (keys l)) (sym e)
                      ∙ i.disjoint a));
              counted =
                  omega
                    (arith, length-append s.device_partitions (d ∷ []), erased, i.counted, whole);
              hosted =
                  rw
                    (length-add_device_partition_id host_partition_id (length s.device_partitions)
                      s.host_partitions)
                    (All-append (λ d. d.host_partition_id < length s.host_partitions)
                      s.device_partitions d i.hosted (omega arith));
            };
            hosts = length-add_device_partition_id host_partition_id _ s.host_partitions;
            left = omega (arith, erased, whole);
          }
