-- ===== src/Sizing/Groups.antt =====
-- Groups of numbers with the same quotient, and the services that fit on a node.
use native.Mathlib.Nat.{mul-le-mul_right, le-div_iff_mul-le, div-mul-le_self}
use migration_planner.Prelude.{
  ℕ, suc, ◌+◌, ◌-◌, ◌*◌, ◌/◌, ◌≤◌, ◌<◌, String, str_eq, true, false, ◌≡◌, ap, ◌≢◌, inl, inr, List,
  [], ◌∷◌, ◌==◌, Bool-cases, arith, any, ltb, eq_iff,
}
use migration_planner.Sizing.{max_vms_per_worker_node, max_services_per_node}

-- A sum that does not wrap around.
abbrev pub sum : List ℕ → ℕ
sum [] = 0
sum (x ∷ xs) = x + sum xs

-- Every one of the names is on the list.
abbrev pub Covers : List String → List String → Type 0
Covers avoids names =
    (name : String) → any (str_eq name) names ≡ true → any (str_eq name) avoids ≡ true

pub str_eq_self : (name : String) → str_eq name name ≡ true
str_eq_self name = ground (arith, eq_iff name name)

-- A service of the group, and what is left of the group after it.
pub beside_one :
    (m left rest count all : ℕ)
    → count ≤ m
    → rest ≤ left * m
    → all ≤ count + rest
    → all ≤ (1 + left) * m
beside_one m left rest count all h k l = omega arith

-- The number j is one of its group.
pub group_left :
    (per_node g j : ℕ)
    → 0 < per_node
    → j / per_node ≡ g
    → (g + 1) * per_node - j ≡ 1 + ((g + 1) * per_node - (j + 1))
group_left per_node g j p h = omega (arith, ap (λ x. x * per_node) h)

-- From its first number on, a group has no more than its size.
pub group_whole :
    (per_node g j : ℕ) → 0 < per_node → g ≤ j / per_node → (g + 1) * per_node - j ≤ per_node
group_whole per_node g j p h =
    omega (arith, mul-le-mul_right per_node h, div-mul-le_self j per_node)

pub same_number : {a b : ℕ} → (a == b) ≡ true → a ≡ b
same_number h = ground arith

pub other_number : {a b : ℕ} → (a == b) ≡ false → a ≢ b
other_number h k = ground arith

pub fewer : (m all j : ℕ) → (all - (j + 1)) * m ≤ (all - j) * m
fewer m all j = mul-le-mul_right m (omega arith)

pub next_group : (per_node j : ℕ) → 0 < per_node → j / per_node ≤ (j + 1) / per_node
next_group per_node j p = (le-div_iff_mul-le p).1 (omega (arith, div-mul-le_self j per_node))

pub less_number : {a b : ℕ} → ltb a b ≡ true → a < b
less_number h = ground arith

pub fewer_fit :
    (max_vms num fit : ℕ)
    → num < fit
    → fit * max_vms ≤ max_vms_per_worker_node
    → num * max_vms ≤ max_vms_per_worker_node
fewer_fit max_vms num fit h k = omega (arith, mul-le-mul_right max_vms h)

-- The services that fit on a node have together no more than its limit.
pub max_services_fit :
    (max_vms num : ℕ)
    → 0 < max_vms
    → max_vms ≤ max_vms_per_worker_node
    → 0 < num
    → (max_services_per_node max_vms num * max_vms ≤ max_vms_per_worker_node)
      × (0 < max_services_per_node max_vms num)
max_services_fit max_vms num h k l =
    let fit = div-mul-le_self max_vms_per_worker_node max_vms in
    let one = (le-div_iff_mul-le {x = 1} {y = max_vms_per_worker_node} h).1 (omega (arith, k)) in
    elim (Bool-cases (ltb num (max_vms_per_worker_node / max_vms))) [
      | inl less ↦
          (ground (arith, fewer_fit max_vms num _ (less_number less) fit, one), ground (arith, one))
      | inr all_fit ↦ (ground (arith, fit, one), ground (arith, one))
    ]

pub not_zero : (m : ℕ) → (suc m == 0) ≡ false
not_zero m = ground arith
