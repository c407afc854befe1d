-- ===== src/Sizing.antt =====
-- internal/service/sizer.go: how the virtual machines of a cluster are split into batches, which
-- the sizing service places on nodes, and which batches must not share a node.
--
-- An `int` is a 64-bit pattern, a `float64` a type `F`; `itoa` prints a number in decimal.
pub mod Groups
pub mod Avoidance
pub mod Shares
pub mod Batches
mod Scenarios
use migration_planner.Prelude.{
  ℕ, zero, suc, ◌+◌, ◌-◌, ◌/◌, ◌%◌, String, str_append, Bool, not, ◌&&◌, ◌||◌, ◌⊎◌, inl, inr,
  Option, none, some, List, [], ◌∷◌, ◌==◌, if◌then◌else◌, add64, modulus, is_negative, is_positive,
  lt64, ltb, Dict, lookup, length, replicate,
}

abbrev pub max_vms_per_worker_node : ℕ
max_vms_per_worker_node = 200

abbrev pub max_batches : ℕ
max_batches = 1000

-- The operations on float64 that the batching uses. `ceil` is int(math.Ceil(x)).
pub record Rounding (F : Type 0) : Type 0 where
  pub of_int : ℕ → F
  pub mul : F → F → F
  pub div : F → F → F
  pub lt : F → F → Bool
  pub le : F → F → Bool
  pub ceil : F → ℕ

pub record BatchedService (F : Type 0) : Type 0 where
  pub name : String
  pub required_cpu : F
  pub required_memory : F
  pub limit_cpu : F
  pub limit_memory : F
  pub vm_count : ℕ

pub data SizerError : Type 0 where
  node_size_not_positive too_many_vms unknown_cpu_ratio unknown_memory_ratio : SizerError

-- Go's max of two `int`.
abbrev pub max64 : ℕ → ℕ → ℕ
max64 a b = if lt64 a b then b else a

-- a / n and a % n of an `int` by a positive one: the quotient goes towards zero, and the remainder
-- has the sign of a.
abbrev pub quotient64 : ℕ → ℕ → ℕ
quotient64 a n = if is_negative a then (modulus - (modulus - a) / n) % modulus else a / n

abbrev pub remainder64 : ℕ → ℕ → ℕ
remainder64 a n = if is_negative a then (modulus - (modulus - a) % n) % modulus else a % n

module _ {F : Type 0} (floats : Rounding F) (itoa : ℕ → String) where
  -- The two constants are 1.0 and 2.0.
  abbrev pub min_batch_cpu : F
  min_batch_cpu = floats.of_int 1

  abbrev pub min_batch_memory : F
  min_batch_memory = floats.of_int 2

  abbrev pub cpu_over_commit_multipliers : Dict F
  cpu_over_commit_multipliers =
      ("1:1", floats.of_int 1)
      ∷ ("1:2", floats.of_int 2)
      ∷ ("1:4", floats.of_int 4)
      ∷ ("1:6", floats.of_int 6)
      ∷ ("1:8", floats.of_int 8)
      ∷ []

  abbrev pub memory_over_commit_multipliers : Dict F
  memory_over_commit_multipliers =
      ("1:1", floats.of_int 1) ∷ ("1:2", floats.of_int 2) ∷ ("1:4", floats.of_int 4) ∷ []

  abbrev pub min_batches_from_vm_limit : ℕ → ℕ
  min_batches_from_vm_limit total_vms =
      if is_positive total_vms
      then floats.ceil
          (floats.div (floats.of_int total_vms) (floats.of_int max_vms_per_worker_node))
      else 1

  -- `if numBatches < 1 { numBatches = 1 }`
  abbrev pub at_least_one : ℕ → ℕ
  at_least_one n = if lt64 n 1 then 1 else n

  -- `if totalVMs > 0 && numBatches > totalVMs { numBatches = totalVMs }`
  abbrev pub capped : ℕ → ℕ → ℕ
  capped total_vms n = if is_positive total_vms && lt64 total_vms n then total_vms else n

  -- The number of batches from the capacity of a node and from the limit of virtual machines.
  unfoldable pub batches_by_capacity : F → F → ℕ → F → F → ℕ
  batches_by_capacity total_cpu total_memory total_vms target_cpu target_memory = capped total_vms (
      at_least_one (
        max64
          (max64 (floats.ceil (floats.div total_cpu target_cpu))
            (floats.ceil (floats.div total_memory target_memory)))
          (min_batches_from_vm_limit total_vms)))

  -- The number of batches that is used in its place when a batch is below the minimum.
  abbrev pub batches_by_minimum : F → F → ℕ → ℕ
  batches_by_minimum total_cpu total_memory total_vms = at_least_one (
      max64
        (max64 (floats.ceil (floats.div total_cpu min_batch_cpu))
          (floats.ceil (floats.div total_memory min_batch_memory)))
        (min_batches_from_vm_limit total_vms))

  unfoldable pub enforce_minimum : F → F → ℕ → ℕ → ℕ
  enforce_minimum total_cpu total_memory total_vms n =
      if floats.lt (floats.div total_cpu (floats.of_int n)) min_batch_cpu
        || floats.lt (floats.div total_memory (floats.of_int n)) min_batch_memory
      then batches_by_minimum total_cpu total_memory total_vms
      else n

  abbrev pub vm_count_of_batch : ℕ → ℕ → ℕ → ℕ
  vm_count_of_batch vms_per_batch remaining_vms i =
      if lt64 i remaining_vms then add64 vms_per_batch 1 else vms_per_batch

  -- The loop over the batches, of which `left` remain; i is the number of the next.
  module _ (required_cpu required_memory limit_cpu limit_memory : F) where
    abbrev pub batches_loop : ℕ → ℕ → ℕ → ℕ → List (BatchedService F)
    batches_loop vms_per_batch remaining_vms i zero = []
    batches_loop vms_per_batch remaining_vms i (suc left) =
        (record {
          name = str_append "vms-batch-" (str_append (itoa (i + 1)) "-services");
          required_cpu = required_cpu;
          required_memory = required_memory;
          limit_cpu = limit_cpu;
          limit_memory = limit_memory;
          vm_count = vm_count_of_batch vms_per_batch remaining_vms i;
        })
        ∷ batches_loop vms_per_batch remaining_vms (i + 1) left

  abbrev pub services_of :
      F → F → ℕ → ℕ → Option F → Option F → SizerError ⊎ List (BatchedService F)
  services_of limit_cpu limit_memory total_vms n none memory = inl unknown_cpu_ratio
  services_of limit_cpu limit_memory total_vms n (some cpu) none = inl unknown_memory_ratio
  services_of limit_cpu limit_memory total_vms n (some cpu) (some memory) = inr (
      batches_loop (floats.div limit_cpu cpu) (floats.div limit_memory memory) limit_cpu
        limit_memory (quotient64 total_vms n) (remainder64 total_vms n) 0 n)

  -- From the number of batches that the capacity asks for.
  unfoldable pub make_services :
      F → F → ℕ → String → String → ℕ → SizerError ⊎ List (BatchedService F)
  make_services total_cpu total_memory total_vms cpu_ratio memory_ratio first =
      let n = enforce_minimum total_cpu total_memory total_vms first in
      services_of (floats.div total_cpu (floats.of_int n))
        (floats.div total_memory (floats.of_int n)) total_vms n
        (lookup cpu_ratio cpu_over_commit_multipliers)
        (lookup memory_ratio memory_over_commit_multipliers)

  unfoldable pub aggregate_vms_into_services :
      F → F → ℕ → F → ℕ → String → String → F → SizerError ⊎ List (BatchedService F)
  aggregate_vms_into_services total_cpu total_memory total_vms node_cpu node_memory cpu_ratio
        memory_ratio capacity =
      let n =
        batches_by_capacity total_cpu total_memory total_vms (floats.mul node_cpu capacity)
          (floats.mul (floats.of_int node_memory) capacity) in
      if floats.le node_cpu (floats.of_int 0) || not (is_positive node_memory)
      then inl node_size_not_positive
      else if total_vms == 0
      then inr []
      else if lt64 max_batches n
      then inl too_many_vms
      else make_services total_cpu total_memory total_vms cpu_ratio memory_ratio n

-- Lengths and what is left of a division of 200 are small numbers.
abbrev pub max_services_per_node : ℕ → ℕ → ℕ
max_services_per_node max_vms num_services =
    let fit = max_vms_per_worker_node / max_vms in
    let least = if ltb fit 1 then 1 else fit in
    if ltb num_services least then num_services else least

module _ {F : Type 0} where
  -- `maxVMsPerBatch` after the loop over the services.
  abbrev pub max_vms_loop : ℕ → List (BatchedService F) → ℕ
  max_vms_loop found [] = found
  max_vms_loop found (s ∷ services) =
      max_vms_loop (if lt64 found s.vm_count then s.vm_count else found) services

  -- The inner loop: j is the number of the first of the services that are left.
  abbrev pub avoid_list : ℕ → ℕ → ℕ → List (BatchedService F) → List String
  avoid_list per_node i j [] = []
  avoid_list per_node i j (s ∷ services) =
      let others = avoid_list per_node i (j + 1) services in
      if i == j then others else if j / per_node == i / per_node then others else s.name ∷ others

  -- The outer loop, of which `left` services remain.
  abbrev pub avoids_loop : ℕ → List (BatchedService F) → ℕ → ℕ → List (List String)
  avoids_loop per_node services i zero = []
  avoids_loop per_node services i (suc left) =
      avoid_list per_node i 0 services ∷ avoids_loop per_node services (i + 1) left

  -- From the virtual machines of the largest batch.
  abbrev pub avoid_lists_for : ℕ → List (BatchedService F) → List (List String)
  avoid_lists_for max_vms services =
      if max_vms == 0
      then replicate (length services) []
      else avoids_loop (max_services_per_node max_vms (length services)) services 0
          (length services)

  unfoldable pub build_service_avoid_lists : List (BatchedService F) → List (List String)
  build_service_avoid_lists [] = []
  build_service_avoid_lists (s ∷ services) =
      avoid_lists_for (max_vms_loop 0 (s ∷ services)) (s ∷ services)
