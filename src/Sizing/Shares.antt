-- ===== src/Sizing/Shares.antt =====
-- The number of batches that respects the limit of virtual machines, and the share of one batch.
use native.Mathlib.Nat.{div-add-mod, mul-le-mul_right, div-le_of_le-mul, mul-le-mul_left}
use migration_planner.Prelude.{
  ℕ, ◌+◌, ◌-◌, ◌*◌, ◌/◌, ◌%◌, ◌≤◌, ◌<◌, min, false, ◌≡◌, inl, inr, ◌==◌, Bool-cases, arith, ltb,
  modulus, half_modulus,
}
use migration_planner.Sizing.{quotient64, remainder64, max_vms_per_worker_node, max64}

-- The least number of batches with which none has more than the limit.
abbrev pub enough_batches : ℕ → ℕ
enough_batches total_vms = (total_vms + (max_vms_per_worker_node - 1)) / max_vms_per_worker_node

-- A number of batches that respects the limit.
abbrev pub Respects : ℕ → ℕ → Type 0
Respects total_vms n = (enough_batches total_vms ≤ n) × (0 < n) × (n < half_modulus)

pub at_least : (m n : ℕ) → ltb n m ≡ false → m ≤ n
at_least m n h = ground arith

pub max64-≤ :
    (a b : ℕ) → a < modulus → b < half_modulus → (b ≤ max64 a b) × (max64 a b < half_modulus)
max64-≤ a b h k = (ground arith, ground arith)

pub quotient64_small :
    (total_vms n : ℕ) → total_vms < half_modulus → quotient64 total_vms n ≡ total_vms / n
quotient64_small total_vms n h = ground arith

pub remainder64_small :
    (total_vms n : ℕ) → total_vms < half_modulus → remainder64 total_vms n ≡ total_vms % n
remainder64_small total_vms n h = ground arith

pub not_none : {n : ℕ} → (n == 0) ≡ false → 0 < n
not_none h = ground arith

pub max64-lt : (a b : ℕ) → a < modulus → b < modulus → max64 a b < modulus
max64-lt a b h k = ground arith

pub enough_batches-lt :
    (total_vms : ℕ)
    → 0 < total_vms
    → total_vms < half_modulus
    → (0 < enough_batches total_vms) × (enough_batches total_vms ≤ total_vms)
enough_batches-lt total_vms h k = (ground arith, ground arith)

-- Where virtual machines remain, the quotient is below the limit.
pub share_below :
    (total_vms n : ℕ)
    → total_vms ≤ max_vms_per_worker_node * n
    → 0 < total_vms % n
    → total_vms / n < max_vms_per_worker_node
share_below total_vms n h k = elim (Bool-cases (ltb (total_vms / n) max_vms_per_worker_node)) [
  | inl below ↦ ground arith
  | inr above ↦
      let many = mul-le-mul_left n (at_least max_vms_per_worker_node (total_vms / n) above) in
      omega (arith, many, div-add-mod total_vms n)
]

-- The larger part of the virtual machines of a batch is the quotient.
pub batch_share :
    (total_vms n : ℕ)
    → Respects total_vms n
    → total_vms / n + min 1 (total_vms % n) ≤ max_vms_per_worker_node
batch_share total_vms n (h, p, k) =
    let enough = mul-le-mul_right max_vms_per_worker_node h in
    elim (Bool-cases (total_vms % n == 0)) [
      | inl even ↦
          let fit =
            div-le_of_le-mul n {m = total_vms} {n = max_vms_per_worker_node} (omega arith) in
          ground (arith, fit)
      | inr uneven ↦
          let below = share_below total_vms n (omega arith) (ground arith) in ground (arith, below)
    ]
