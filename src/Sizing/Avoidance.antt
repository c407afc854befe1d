-- ===== src/Sizing/Avoidance.antt =====
-- The virtual machines of the batches that may share a node: those that are not on each other's
-- avoid lists.
use native.Mathlib.Nat.{mul-le-mul_right}
use migration_planner.Prelude.{
  ℕ, zero, suc, ◌+◌, ◌-◌, ◌*◌, ◌/◌, ◌≤◌, ◌<◌, String, str_eq, Bool, true, not, ◌≡◌, refl, ap, ◌≢◌,
  inl, inr, List, [], ◌∷◌, ◌==◌, if◌then◌else◌, Bool-cases, arith, All, any, filter, map, length,
  replicate, length-replicate, lt64, ltb,
}
use migration_planner.Sizing.{
  BatchedService, max_vms_per_worker_node, max_vms_loop, max_services_per_node, avoid_list,
  avoids_loop, avoid_lists_for, build_service_avoid_lists,
}
use migration_planner.Sizing.Groups.{
  sum, Covers, str_eq_self, beside_one, group_left, group_whole, same_number, other_number, fewer,
  next_group, max_services_fit, not_zero,
}

module _ {F : Type 0} where
  -- A service that the list does not name.
  abbrev pub not_avoided : List String → BatchedService F → Bool
  not_avoided avoids s = not (any (str_eq s.name) avoids)

  -- The virtual machines of the services that may be on a node with the one that has the list.
  abbrev pub vms_beside : List (BatchedService F) → List String → ℕ
  vms_beside services avoids = sum (map (λ s. s.vm_count) (filter (not_avoided avoids) services))

  -- A batch with no more than m virtual machines.
  abbrev pub AtMost : ℕ → BatchedService F → Type 0
  AtMost m s = s.vm_count ≤ m

  max_vms_loop-AtMost :
      (found : ℕ) (services : List (BatchedService F))
      → found ≤ max_vms_per_worker_node
      → All (AtMost max_vms_per_worker_node) services
      → (found ≤ max_vms_loop found services)
        × (max_vms_loop found services ≤ max_vms_per_worker_node)
        × All (AtMost (max_vms_loop found services)) services
  max_vms_loop-AtMost found [] h k = (omega arith, h, _)
  max_vms_loop-AtMost found (s ∷ services) h (k, ks) =
      let next = if lt64 found s.vm_count then s.vm_count else found in
      let (least, most, all) = max_vms_loop-AtMost next services (ground arith) ks in
      (ground arith, most, (ground arith, all))

  vms_beside-cons :
      (s : BatchedService F) (services : List (BatchedService F)) (avoids : List String)
      → vms_beside (s ∷ services) avoids ≤ s.vm_count + vms_beside services avoids
  vms_beside-cons s services avoids = ground arith

  vms_beside_avoided :
      (s : BatchedService F) (services : List (BatchedService F)) (avoids : List String)
      → any (str_eq s.name) avoids ≡ true
      → vms_beside (s ∷ services) avoids ≡ vms_beside services avoids
  vms_beside_avoided s services avoids h = rw h refl

  Covers-tail :
      (per_node i j : ℕ) (s : BatchedService F) (services : List (BatchedService F))
      (avoids : List String)
      → Covers avoids (avoid_list per_node i j (s ∷ services))
      → Covers avoids (avoid_list per_node i (j + 1) services)
  Covers-tail per_node i j s services avoids c name h = c name (ground (arith, h))

  -- A service of another group is on the list.
  Covers-head :
      (per_node i j : ℕ) (s : BatchedService F) (services : List (BatchedService F))
      (avoids : List String)
      → j / per_node ≢ i / per_node
      → Covers avoids (avoid_list per_node i j (s ∷ services))
      → any (str_eq s.name) avoids ≡ true
  Covers-head per_node i j s services avoids h c = c s.name (elim (Bool-cases (i == j)) [
    | inl same ↦ ground (arith, h, ap (λ x. x / per_node) (same_number same))
    | inr other ↦ ground (arith, str_eq_self s.name, h)
  ])

  beside_group :
      (m per_node i j : ℕ) (services : List (BatchedService F)) (avoids : List String)
      → 0 < per_node
      → i / per_node ≤ j / per_node
      → All (AtMost m) services
      → Covers avoids (avoid_list per_node i j services)
      → vms_beside services avoids ≤ ((i / per_node + 1) * per_node - j) * m
  beside_group m per_node i j [] avoids p h k c = omega arith
  beside_group m per_node i j (s ∷ services) avoids p h (k, ks) c =
      let tail = Covers-tail per_node i j s services avoids c in
      let later = next_group per_node j p in
      let rest = beside_group m per_node i (j + 1) services avoids p (omega arith) ks tail in
      elim (Bool-cases (j / per_node == i / per_node)) [
        | inl here ↦ rw (group_left per_node (i / per_node) j p (same_number here)) (
            beside_one m ((i / per_node + 1) * per_node - (j + 1)) (vms_beside services avoids)
              s.vm_count (vms_beside (s ∷ services) avoids) k rest
              (vms_beside-cons s services avoids))
        | inr there ↦
            rw
              (vms_beside_avoided s services avoids
                (Covers-head per_node i j s services avoids (other_number there) c))
              (omega (arith, rest, fewer m ((i / per_node + 1) * per_node) j))
      ]

  beside_node :
      (m per_node i j : ℕ) (services : List (BatchedService F)) (avoids : List String)
      → 0 < per_node
      → All (AtMost m) services
      → Covers avoids (avoid_list per_node i j services)
      → vms_beside services avoids ≤ per_node * m
  beside_node m per_node i j [] avoids p k c = omega arith
  beside_node m per_node i j (s ∷ services) avoids p (k, ks) c =
      let tail = Covers-tail per_node i j s services avoids c in
      let rest = beside_node m per_node i (j + 1) services avoids p ks tail in
      elim (Bool-cases (ltb (j / per_node) (i / per_node))) [
        | inl before ↦
            rw
              (vms_beside_avoided s services avoids
                (Covers-head per_node i j s services avoids (λ e. ground arith) c))
              rest
        | inr from ↦ omega (
          arith,
          beside_group m per_node i j (s ∷ services) avoids p (ground arith) (k, ks) c,
          mul-le-mul_right m (group_whole per_node (i / per_node) j p (ground arith)),
        )
      ]

  none_beside :
      (services : List (BatchedService F)) (avoids : List String)
      → All (AtMost 0) services
      → vms_beside services avoids ≡ 0
  none_beside [] avoids k = refl
  none_beside (s ∷ services) avoids (k, ks) = ground (arith, none_beside services avoids ks)

  -- A list for each service, and each list leaves room on the node.
  abbrev pub LeavesRoom : List (BatchedService F) → List String → Type 0
  LeavesRoom services avoids = vms_beside services avoids ≤ max_vms_per_worker_node

  avoids_loop-LeavesRoom :
      (m per_node i left : ℕ) (services : List (BatchedService F))
      → 0 < per_node
      → per_node * m ≤ max_vms_per_worker_node
      → All (AtMost m) services
      → All (LeavesRoom services) (avoids_loop per_node services i left)
        × (length (avoids_loop per_node services i left) ≡ left)
  avoids_loop-LeavesRoom m per_node i zero services p h k = (_, refl)
  avoids_loop-LeavesRoom m per_node i (suc left) services p h k =
      let (rest, len) = avoids_loop-LeavesRoom m per_node (i + 1) left services p h k in
      let here = beside_node m per_node i 0 services (avoid_list per_node i 0 services) p k in
      ((omega (arith, here (λ name q. q)), rest), omega (arith, len))

  replicate-LeavesRoom :
      (n : ℕ) (services : List (BatchedService F))
      → All (AtMost 0) services
      → All (LeavesRoom services) (replicate n [])
  replicate-LeavesRoom zero services k = _
  replicate-LeavesRoom (suc n) services k =
      (omega (arith, none_beside services [] k), replicate-LeavesRoom n services k)

  avoid_lists_for-LeavesRoom :
      (m : ℕ) (services : List (BatchedService F))
      → 0 < length services
      → m ≤ max_vms_per_worker_node
      → All (AtMost m) services
      → All (LeavesRoom services) (avoid_lists_for m services)
        × (length (avoid_lists_for m services) ≡ length services)
  avoid_lists_for-LeavesRoom zero services n h k =
      (replicate-LeavesRoom (length services) services k, length-replicate (length services) [])
  avoid_lists_for-LeavesRoom (suc m) services n h k =
      let (fit, least) = max_services_fit (suc m) (length services) (omega arith) h n in
      rw (not_zero m) (
        avoids_loop-LeavesRoom (suc m) (max_services_per_node (suc m) (length services)) 0
          (length services) services least fit k)

  -- Where no batch has more virtual machines than a node may have, there is an avoid list for each
  -- batch, and the batches that a list does not name have together no more than that number.
  pub build_service_avoid_lists-LeavesRoom :
      (services : List (BatchedService F))
      → All (AtMost max_vms_per_worker_node) services
      → All (LeavesRoom services) (build_service_avoid_lists services)
        × (length (build_service_avoid_lists services) ≡ length services)
  unfolding build_service_avoid_lists
  build_service_avoid_lists-LeavesRoom [] h = (_, refl)
  build_service_avoid_lists-LeavesRoom (s ∷ services) h =
      let (least, most, all) = max_vms_loop-AtMost 0 (s ∷ services) (omega arith) h in
      avoid_lists_for-LeavesRoom (max_vms_loop 0 (s ∷ services)) (s ∷ services) (omega arith) most
        all
