-- ===== src/Inventory/Totals.antt =====
-- The counts of an aggregation are the sums of the inventories' counts, in whichever order the
-- inventories come.
use mathlib.Core.List.{Permᴰ}
use migration_planner.Prelude.{
  ℕ, String, ◌≡◌, refl, sym, ap, ◌∙◌, List, [], ◌∷◌, map, arith, ◌<◌, add64, modulus, total,
  total-lt, map-Perm, lookup,
}
use migration_planner.Inventory.Model.{Vms, VmResourceBreakdown, InventoryData, Floats}
use migration_planner.Inventory.{add_vm_resource_breakdown, no_resources}
use migration_planner.Inventory.Aggregation.{add_vms, no_vms, vms_loop, aggregate_vms}
use migration_planner.Inventory.Merging.{value_at, counts_at, value_at-add_counts}

-- The four numbers of a breakdown.
pub data Part : Type 0 where
  all migratable with_warnings not_migratable : Part

-- The numbers that every inventory has.
pub data Count : Type 0 where
  vms_total vms_migratable : Count
  cpu_cores disks disk_gb ram_gb : Part → Count

abbrev pub part_of : Part → VmResourceBreakdown → ℕ
part_of all b = b.total
part_of migratable b = b.total_for_migratable
part_of with_warnings b = b.total_for_migratable_with_warnings
part_of not_migratable b = b.total_for_not_migratable

module _ {F : Type 0} where
  abbrev pub count_of : Count → Vms F → ℕ
  count_of vms_total v = v.total
  count_of vms_migratable v = v.total_migratable
  count_of (cpu_cores p) v = part_of p v.cpu_cores
  count_of (disks p) v = part_of p v.disk_count
  count_of (disk_gb p) v = part_of p v.disk_gb
  count_of (ram_gb p) v = part_of p v.ram_gb

  -- What each inventory says of it.
  abbrev pub counts : Count → List (InventoryData F) → List ℕ
  counts c inventories = map (λ i. count_of c i.vms) inventories

  -- The virtual machines in the power state.
  abbrev pub in_state : String → List (InventoryData F) → List ℕ
  in_state state inventories = map (λ i. total (counts_at state i.vms.power_states)) inventories

part_of-add :
    (p : Part) (a b : VmResourceBreakdown)
    → part_of p (add_vm_resource_breakdown a b) ≡ add64 (part_of p a) (part_of p b)
part_of-add all a b = refl
part_of-add migratable a b = refl
part_of-add with_warnings a b = refl
part_of-add not_migratable a b = refl

part_of-none : (p : Part) → part_of p no_resources ≡ 0
part_of-none all = refl
part_of-none migratable = refl
part_of-none with_warnings = refl
part_of-none not_migratable = refl

module _ {F : Type 0} (floats : Floats F) where
  add_vms-count_of :
      (c : Count) (r v : Vms F)
      → count_of c (add_vms floats r v) ≡ add64 (count_of c r) (count_of c v)
  add_vms-count_of vms_total r v = refl
  add_vms-count_of vms_migratable r v = refl
  add_vms-count_of (cpu_cores p) r v = part_of-add p r.cpu_cores v.cpu_cores
  add_vms-count_of (disks p) r v = part_of-add p r.disk_count v.disk_count
  add_vms-count_of (disk_gb p) r v = part_of-add p r.disk_gb v.disk_gb
  add_vms-count_of (ram_gb p) r v = part_of-add p r.ram_gb v.ram_gb

  vms_loop-count_of :
      (c : Count) (r : Vms F) (inventories : List (InventoryData F))
      → count_of c r < modulus
      → count_of c (vms_loop floats r inventories)
        ≡ add64 (count_of c r) (total (counts c inventories))
  unfolding vms_loop
  vms_loop-count_of c r [] h = omega arith
  vms_loop-count_of c r (i ∷ rest) h =
      let step = add_vms-count_of c r i.vms in
      let more = vms_loop-count_of c (add_vms floats r i.vms) rest (omega arith) in
      more ∙ ap (λ n. add64 n (total (counts c rest))) step ∙ omega arith

  vms_loop-in_state :
      (state : String) (r : Vms F) (inventories : List (InventoryData F))
      → value_at state r.power_states < modulus
      → value_at state (vms_loop floats r inventories).power_states
        ≡ add64 (value_at state r.power_states) (total (in_state state inventories))
  unfolding vms_loop
  vms_loop-in_state state r [] h = omega arith
  vms_loop-in_state state r (i ∷ rest) h =
      let (step, below) = value_at-add_counts state r.power_states i.vms.power_states h in
      vms_loop-in_state state (add_vms floats r i.vms) rest below
      ∙ ap (λ n. add64 n (total (in_state state rest))) step
      ∙ omega arith

  none_yet : (c : Count) → count_of c (no_vms {F = F}) ≡ 0
  none_yet vms_total = refl
  none_yet vms_migratable = refl
  none_yet (cpu_cores p) = part_of-none p
  none_yet (disks p) = part_of-none p
  none_yet (disk_gb p) = part_of-none p
  none_yet (ram_gb p) = part_of-none p

  -- The issues are set after the loop and are no counts.
  of_loop :
      (c : Count) (inventories : List (InventoryData F))
      → count_of c (aggregate_vms floats inventories)
        ≡ count_of c (vms_loop floats no_vms inventories)
  unfolding aggregate_vms
  of_loop vms_total inventories = refl
  of_loop vms_migratable inventories = refl
  of_loop (cpu_cores p) inventories = refl
  of_loop (disks p) inventories = refl
  of_loop (disk_gb p) inventories = refl
  of_loop (ram_gb p) inventories = refl

  -- Each of the eighteen counts of an aggregation is the sum of that count over the inventories,
  -- and so is the number of virtual machines in each power state, modulo 2^64.
  pub aggregate_vms-counts :
      (inventories : List (InventoryData F))
      → ((c : Count) → count_of c (aggregate_vms floats inventories) ≡ total (counts c inventories))
        × ((state : String)
            → value_at state (aggregate_vms floats inventories).power_states
              ≡ total (in_state state inventories))
  unfolding aggregate_vms lookup
  aggregate_vms-counts inventories = (
    λ c.
        of_loop c inventories
        ∙ vms_loop-count_of c no_vms inventories (omega (arith, none_yet c))
        ∙ ap (λ n. add64 n (total (counts c inventories))) (none_yet c)
        ∙ omega (arith, total-lt (counts c inventories)),
    λ state.
        vms_loop-in_state state no_vms inventories (omega arith)
        ∙ omega (arith, total-lt (in_state state inventories)),
  )

-- The order of the inventories does not matter for the counts, nor for the power states.
aggregate_vms-order :
    {F : Type 0} (floats : Floats F) (xs ys : List (InventoryData F))
    → Permᴰ xs ys
    → ((c : Count) → count_of c (aggregate_vms floats xs) ≡ count_of c (aggregate_vms floats ys))
      × ((state : String)
          → value_at state (aggregate_vms floats xs).power_states
            ≡ value_at state (aggregate_vms floats ys).power_states)
aggregate_vms-order floats xs ys same =
    let (counts_x, states_x) = aggregate_vms-counts floats xs in
    let (counts_y, states_y) = aggregate_vms-counts floats ys in
    (
      λ c. counts_x c ∙ map-Perm (λ i. count_of c i.vms) xs ys same ∙ sym (counts_y c),
      λ state.
          states_x state
          ∙ map-Perm (λ i. total (counts_at state i.vms.power_states)) xs ys same
          ∙ sym (states_y state),
    )
