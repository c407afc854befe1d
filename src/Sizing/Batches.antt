-- ===== src/Sizing/Batches.antt =====
-- The batches of a cluster: how many virtual machines each has.
use native.Mathlib.Nat.{div-add-mod}
use migration_planner.Prelude.{
  ℕ, zero, suc, ◌+◌, ◌*◌, ◌/◌, ◌%◌, ◌≤◌, ◌<◌, min, String, Bool, true, false, not, ◌||◌, ◌≡◌, refl,
  sym, ◌⊎◌, inl, inr, Option, none, some, List, [], ◌==◌, if◌then◌else◌, Bool-cases, arith, All,
  map, lt64, ltb, modulus, half_modulus, is_positive, length,
}
use migration_planner.Sizing.{
  Rounding, BatchedService, SizerError, max_vms_per_worker_node, max64, min_batches_from_vm_limit,
  at_least_one, capped, batches_by_capacity, enforce_minimum, batches_loop, services_of,
  make_services, aggregate_vms_into_services, build_service_avoid_lists, max_batches,
  node_size_not_positive, too_many_vms,
}
use migration_planner.Sizing.Groups.{sum, same_number}
use migration_planner.Sizing.Avoidance.{AtMost, LeavesRoom, build_service_avoid_lists-LeavesRoom}
use migration_planner.Sizing.Shares.{
  enough_batches, Respects, max64-≤, quotient64_small, remainder64_small, not_none, max64-lt,
  enough_batches-lt, batch_share,
}

module _ {F : Type 0} (floats : Rounding F) where
  -- int(math.Ceil(x)) is an int.
  abbrev pub CeilInt : Type 0
  CeilInt = (x : F) → floats.ceil x < modulus

  -- The quotient of the virtual machines and the limit is rounded up.
  abbrev pub CeilLimit : ℕ → Type 0
  CeilLimit total_vms =
      floats.ceil (floats.div (floats.of_int total_vms) (floats.of_int max_vms_per_worker_node))
      ≡ enough_batches total_vms

module _ {F : Type 0} where
  -- Batches that have all virtual machines, and none of which has more than a node may have.
  abbrev pub Batched : ℕ → List (BatchedService F) → Type 0
  Batched total_vms services =
      (sum (map (λ s. s.vm_count) services) ≡ total_vms)
      × All (AtMost max_vms_per_worker_node) services

module _ {F : Type 0} (floats : Rounding F) (itoa : ℕ → String) where
  limit_of_floats :
      (total_vms : ℕ)
      → CeilLimit floats total_vms
      → 0 < total_vms
      → total_vms < half_modulus
      → min_batches_from_vm_limit floats itoa total_vms ≡ enough_batches total_vms
  limit_of_floats total_vms l h k = ground (arith, l)

  at_least_one-Respects :
      (total_vms n : ℕ) → Respects total_vms n → Respects total_vms (at_least_one floats itoa n)
  at_least_one-Respects total_vms n (enough, least, most) =
      (ground arith, ground arith, ground arith)

  if_Respects :
      (total_vms : ℕ) (test : Bool) (a b : ℕ)
      → Respects total_vms a
      → Respects total_vms b
      → Respects total_vms (if test then a else b)
  if_Respects total_vms true a b h k = h
  if_Respects total_vms false a b h k = k

  capped-Respects :
      (total_vms n : ℕ)
      → 0 < total_vms
      → total_vms < half_modulus
      → Respects total_vms n
      → Respects total_vms (capped floats itoa total_vms (at_least_one floats itoa n))
  capped-Respects total_vms n h k (enough, least, most) =
      let (_, fits) = enough_batches-lt total_vms h k in (ground arith, ground arith, ground arith)

  -- The largest of three numbers, the last of which is from the limit.
  largest-Respects :
      (a b total_vms : ℕ)
      → CeilLimit floats total_vms
      → a < modulus
      → b < modulus
      → 0 < total_vms
      → total_vms < half_modulus
      → Respects total_vms (max64 (max64 a b) (min_batches_from_vm_limit floats itoa total_vms))
  largest-Respects a b total_vms l ha hb h k =
      let (least, most) = enough_batches-lt total_vms h k in
      let (more, small) =
        max64-≤ (max64 a b) (enough_batches total_vms) (max64-lt a b ha hb) (omega arith) in
      rw (limit_of_floats total_vms l h k) (more, omega arith, small)

  batches_by_capacity-Respects :
      (total_cpu total_memory : F) (total_vms : ℕ) (target_cpu target_memory : F)
      → CeilInt floats
      → CeilLimit floats total_vms
      → 0 < total_vms
      → total_vms < half_modulus
      → Respects total_vms (
          batches_by_capacity floats itoa total_cpu total_memory total_vms target_cpu target_memory)
  unfolding batches_by_capacity
  batches_by_capacity-Respects total_cpu total_memory total_vms target_cpu target_memory c l h k =
      capped-Respects total_vms _ h k (largest-Respects _ _ total_vms l (c _) (c _) h k)

  enforce_minimum-Respects :
      (total_cpu total_memory : F) (total_vms n : ℕ)
      → CeilInt floats
      → CeilLimit floats total_vms
      → 0 < total_vms
      → total_vms < half_modulus
      → Respects total_vms n
      → Respects total_vms (enforce_minimum floats itoa total_cpu total_memory total_vms n)
  unfolding enforce_minimum
  enforce_minimum-Respects total_cpu total_memory total_vms n c l h k r =
      if_Respects total_vms _ _ n
        (at_least_one-Respects total_vms _ (largest-Respects _ _ total_vms l (c _) (c _) h k)) r

  module _ (required_cpu required_memory limit_cpu limit_memory : F) where
    abbrev pub batch_counts : ℕ → ℕ → ℕ → ℕ → List ℕ
    batch_counts q r i left =
        map (λ s. s.vm_count)
          (batches_loop floats itoa required_cpu required_memory limit_cpu limit_memory q r i left)

    batches_loop-sum :
        (q r i left : ℕ)
        → q < half_modulus
        → i + left < half_modulus
        → r < half_modulus
        → sum (batch_counts q r i left) + min r i ≡ left * q + min r (i + left)
    batches_loop-sum q r i zero h k l = omega arith
    batches_loop-sum q r i (suc left) h k l =
        let rest = batches_loop-sum q r (i + 1) left h (omega arith) l in
        elim (Bool-cases (ltb i r)) [
          | inl one ↦ ground (arith, rest)
          | inr other ↦ ground (arith, rest)
        ]

    batches_loop-AtMost :
        (m q r i left : ℕ)
        → q + min 1 r ≤ m
        → m < half_modulus
        → i + left < half_modulus
        → r < half_modulus
        → All (AtMost m) (
            batches_loop floats itoa required_cpu required_memory limit_cpu limit_memory q r i left)
    batches_loop-AtMost m q r i zero h k l o = _
    batches_loop-AtMost m q r i (suc left) h k l o =
        (ground arith, batches_loop-AtMost m q r (i + 1) left h k (omega arith) o)

  abbrev pub IfBatched : ℕ → SizerError ⊎ List (BatchedService F) → Type 0
  IfBatched total_vms (inl error) = Unit
  IfBatched total_vms (inr services) = Batched total_vms services

  -- Behind three tests, the second of which says whether there are virtual machines.
  guarded-IfBatched :
      (total_vms : ℕ) (first none_at_all last : Bool) (a b : SizerError)
      (c d : SizerError ⊎ List (BatchedService F))
      → (none_at_all ≡ true → IfBatched total_vms c)
      → (none_at_all ≡ false → IfBatched total_vms d)
      → IfBatched total_vms
          (if first then inl a else if none_at_all then c else if last then inl b else d)
  guarded-IfBatched total_vms true none_at_all last a b c d h k = _
  guarded-IfBatched total_vms false true last a b c d h k = h refl
  guarded-IfBatched total_vms false false true a b c d h k = _
  guarded-IfBatched total_vms false false false a b c d h k = k refl

  none_Batched : (total_vms : ℕ) → total_vms ≡ 0 → Batched {F = F} total_vms []
  none_Batched total_vms h = (sym h, _)

  services_of-Batched :
      (limit_cpu limit_memory : F) (total_vms n : ℕ) (cpu memory : Option F)
      → total_vms < half_modulus
      → Respects total_vms n
      → IfBatched total_vms (services_of floats itoa limit_cpu limit_memory total_vms n cpu memory)
  services_of-Batched limit_cpu limit_memory total_vms n none memory h r = _
  services_of-Batched limit_cpu limit_memory total_vms n (some cpu) none h r = _
  services_of-Batched limit_cpu limit_memory total_vms n (some cpu) (some memory) h r =
      let (enough, least, most) = r in
      let share = batch_share total_vms n r in
      let sums =
        batches_loop-sum (floats.div limit_cpu cpu) (floats.div limit_memory memory) limit_cpu
          limit_memory (total_vms / n) (total_vms % n) 0 n (omega (arith, share)) (omega arith)
          (omega arith) in
      let limits =
        batches_loop-AtMost (floats.div limit_cpu cpu) (floats.div limit_memory memory) limit_cpu
          limit_memory max_vms_per_worker_node (total_vms / n) (total_vms % n) 0 n share
          (omega arith) (omega arith) (omega arith) in
      rw (quotient64_small total_vms n h, remainder64_small total_vms n h)
        (omega (arith, sums, div-add-mod total_vms n), limits)

  make_services-Batched :
      (total_cpu total_memory : F) (total_vms : ℕ) (cpu_ratio memory_ratio : String) (n : ℕ)
      → CeilInt floats
      → CeilLimit floats total_vms
      → 0 < total_vms
      → total_vms < half_modulus
      → Respects total_vms n
      → IfBatched total_vms
          (make_services floats itoa total_cpu total_memory total_vms cpu_ratio memory_ratio n)
  unfolding make_services
  make_services-Batched total_cpu total_memory total_vms cpu_ratio memory_ratio n c l h k r =
      services_of-Batched _ _ total_vms _ _ _ k
        (enforce_minimum-Respects total_cpu total_memory total_vms n c l h k r)

  aggregate-IfBatched :
      (total_cpu total_memory : F) (total_vms : ℕ) (node_cpu : F) (node_memory : ℕ)
      (cpu_ratio memory_ratio : String) (capacity : F)
      → CeilInt floats
      → CeilLimit floats total_vms
      → total_vms < half_modulus
      → IfBatched total_vms (
          aggregate_vms_into_services floats itoa total_cpu total_memory total_vms node_cpu
            node_memory cpu_ratio memory_ratio capacity)
  unfolding aggregate_vms_into_services
  aggregate-IfBatched total_cpu total_memory total_vms node_cpu node_memory cpu_ratio memory_ratio
        capacity c l h =
      let target_cpu = floats.mul node_cpu capacity in
      let target_memory = floats.mul (floats.of_int node_memory) capacity in
      let n =
        batches_by_capacity floats itoa total_cpu total_memory total_vms target_cpu target_memory in
      guarded-IfBatched total_vms
        (floats.le node_cpu (floats.of_int 0) || not (is_positive node_memory)) (total_vms == 0)
        (lt64 max_batches n) node_size_not_positive too_many_vms (inr [])
        (make_services floats itoa total_cpu total_memory total_vms cpu_ratio memory_ratio n)
        (λ e. none_Batched total_vms (same_number e))
        (λ e.
          make_services-Batched total_cpu total_memory total_vms cpu_ratio memory_ratio n c l
            (not_none e) h
            (batches_by_capacity-Respects total_cpu total_memory total_vms target_cpu target_memory
              c l (not_none e) h))

  -- Where a cluster is split into batches, the batches have together all its virtual machines, and
  -- none has more than a node may have. `ceil` gives an int, and rounds the quotient of the virtual
  -- machines and that limit up.
  pub aggregate_vms_into_services-Batched :
      (total_cpu total_memory : F) (total_vms : ℕ) (node_cpu : F) (node_memory : ℕ)
      (cpu_ratio memory_ratio : String) (capacity : F) (services : List (BatchedService F))
      → CeilInt floats
      → CeilLimit floats total_vms
      → total_vms < half_modulus
      → aggregate_vms_into_services floats itoa total_cpu total_memory total_vms node_cpu
          node_memory cpu_ratio memory_ratio capacity
        ≡ inr services
      → Batched total_vms services
  aggregate_vms_into_services-Batched total_cpu total_memory total_vms node_cpu node_memory
        cpu_ratio memory_ratio capacity services c l h k =
      rw k at (
        aggregate-IfBatched total_cpu total_memory total_vms node_cpu node_memory cpu_ratio
          memory_ratio capacity c l h)

  -- Where a cluster is split into batches, each batch has an avoid list, and the batches that a
  -- list does not name have together no more virtual machines than a node may have. `ceil` gives an
  -- int, and rounds the quotient of the virtual machines and that limit up.
  pub batches-LeavesRoom :
      (total_cpu total_memory : F) (total_vms : ℕ) (node_cpu : F) (node_memory : ℕ)
      (cpu_ratio memory_ratio : String) (capacity : F) (services : List (BatchedService F))
      → CeilInt floats
      → CeilLimit floats total_vms
      → total_vms < half_modulus
      → aggregate_vms_into_services floats itoa total_cpu total_memory total_vms node_cpu
          node_memory cpu_ratio memory_ratio capacity
        ≡ inr services
      → All (LeavesRoom services) (build_service_avoid_lists services)
        × (length (build_service_avoid_lists services) ≡ length services)
  batches-LeavesRoom total_cpu total_memory total_vms node_cpu node_memory cpu_ratio memory_ratio
        capacity services c l h k =
      build_service_avoid_lists-LeavesRoom services
        (aggregate_vms_into_services-Batched total_cpu total_memory total_vms node_cpu node_memory
          cpu_ratio memory_ratio capacity services c l h k).1
