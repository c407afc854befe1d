-- ===== src/Sizing/Scenarios.antt =====
-- Small clusters, with fractions for float64.
use native.Mathlib.Nat.{mod-lt, zero-lt-suc}
use migration_planner.Prelude.{
  ℕ, ◌+◌, ◌-◌, ◌*◌, ◌/◌, ◌%◌, String, ◌≡◌, refl, ◌⊎◌, inl, inr, List, [], ◌∷◌, ◌==◌, ltb, leb,
  arith, All, modulus, filter, length, lookup, if◌then◌else◌,
}
use migration_planner.Sizing.{
  Rounding, BatchedService, SizerError, aggregate_vms_into_services, batches_by_capacity,
  make_services, enforce_minimum, build_service_avoid_lists,
}
use migration_planner.Sizing.Avoidance.{LeavesRoom}
use migration_planner.Sizing.Batches.{
  CeilInt, CeilLimit, Batched, aggregate_vms_into_services-Batched, batches-LeavesRoom,
}

-- A numerator and a denominator.
abbrev Fraction : Type 0
Fraction = ℕ × ℕ

abbrev fractions : Rounding Fraction
fractions = record {
  of_int = λ n. (n, 1);
  mul = λ a b. (a.0 * b.0, a.1 * b.1);
  div = λ a b. (a.0 * b.1, a.1 * b.0);
  lt = λ a b. ltb (a.0 * b.1) (b.0 * a.1);
  le = λ a b. leb (a.0 * b.1) (b.0 * a.1);
  ceil = λ a. (a.0 + (a.1 - 1)) / a.1 % modulus;
}

abbrev digit : ℕ → String
digit n = if n == 1 then "1" else "2"

-- Nodes of 32 cores and 64 GB, of which 4/5 are used.
abbrev batched : ℕ → ℕ → ℕ → SizerError ⊎ List (BatchedService Fraction)
batched cpu memory vms =
    aggregate_vms_into_services fractions digit (cpu, 1) (memory, 1) vms (32, 1) 64 "1:4" "1:2"
      (4, 5)

abbrev batch : String → BatchedService Fraction
batch name = record {
  name = name;
  required_cpu = (40, 8);
  required_memory = (80, 4);
  limit_cpu = (40, 2);
  limit_memory = (80, 2);
  vm_count = 150;
}

abbrev two_batches : List (BatchedService Fraction)
two_batches = batch "vms-batch-1-services" ∷ batch "vms-batch-2-services" ∷ []

fractions-CeilInt : CeilInt fractions
fractions-CeilInt (a, b) = mod-lt ((a + (b - 1)) / b) (zero-lt-suc 18446744073709551615)

fractions-CeilLimit : CeilLimit fractions 300
fractions-CeilLimit = refl

batched_300 : batched 40 80 300 ≡ inr two_batches
unfolding aggregate_vms_into_services batches_by_capacity make_services lookup enforce_minimum
batched_300 = refl

aggregate_vms_into_services-Batched_example : Batched 300 two_batches
aggregate_vms_into_services-Batched_example =
    aggregate_vms_into_services-Batched fractions digit (40, 1) (80, 1) 300 (32, 1) 64 "1:4" "1:2"
      (4, 5) two_batches fractions-CeilInt fractions-CeilLimit (omega arith) batched_300

batches-LeavesRoom_example :
    All (LeavesRoom two_batches) (build_service_avoid_lists two_batches)
    × (length (build_service_avoid_lists two_batches) ≡ length two_batches)
batches-LeavesRoom_example =
    batches-LeavesRoom fractions digit (40, 1) (80, 1) 300 (32, 1) 64 "1:4" "1:2" (4, 5) two_batches
      fractions-CeilInt fractions-CeilLimit (omega arith) batched_300

build_service_avoid_lists_two :
    build_service_avoid_lists two_batches
    ≡ ("vms-batch-2-services" ∷ []) ∷ ("vms-batch-1-services" ∷ []) ∷ []
unfolding build_service_avoid_lists
build_service_avoid_lists_two = refl

-- On nodes of 2 cores and 16 GB, 100 virtual machines of 2 cores and 1 GB.
abbrev small_vms : SizerError ⊎ List (BatchedService Fraction)
small_vms =
    aggregate_vms_into_services fractions digit (200, 1) (100, 1) 100 (2, 1) 16 "1:1" "1:1" (4, 5)

abbrev empty_batches : SizerError ⊎ List (BatchedService Fraction) → ℕ
empty_batches (inl error) = 0
empty_batches (inr services) = length (filter (λ s. s.vm_count == 0) services)

half_are_empty : empty_batches small_vms ≡ 100
unfolding aggregate_vms_into_services batches_by_capacity make_services lookup enforce_minimum
half_are_empty = refl
