-- ===== src/Inventory/Scenarios.antt =====
-- Two small inventories; the numbers stand for float64.
use migration_planner.Prelude.{
  ℕ, String, ◌≡◌, refl, none, some, List, [], ◌∷◌, ◌+◌, ◌*◌, ◌/◌, ltb, total,
}
use migration_planner.Inventory.Model.{InventoryData, Floats, MigrationIssue}
use migration_planner.Inventory.{vcenter_id, same_vcenter, warnings_of, reasons_of}
use migration_planner.Inventory.Aggregation.{
  no_vms, no_infra, aggregate_vms, vms_loop, aggregate_inventory_data,
}
use migration_planner.Inventory.Merging.{value_at}
use migration_planner.Inventory.Totals.{Count, count_of, counts, in_state, aggregate_vms-counts}
use migration_planner.Inventory.Issues.{issue_total, issue_totals, aggregate_vms-issues}

abbrev whole : Floats ℕ
whole = record {
  zero = 0;
  add = λ a b. a + b;
  mul = λ a b. a * b;
  div = λ a b. a / b;
  round = λ a. a;
  of_int = λ a. a;
  is_positive = λ a. ltb 0 a;
}

abbrev old_hardware : MigrationIssue
old_hardware = record { assessment = "hw"; count = 2; id = some "w1"; label = "old hardware" }

abbrev nameless : MigrationIssue
nameless = record { assessment = "?"; count = 5; id = none; label = "" }

abbrev east : InventoryData ℕ
east = record {
  infra = record no_infra { total_hosts = 2; hosts = none };
  vcenter = some "v1";
  vms = record no_vms {
    total = 3;
    power_states = ("on", 2) ∷ ("off", 1) ∷ [];
    migration_warnings = old_hardware ∷ nameless ∷ [];
  };
}

abbrev west : InventoryData ℕ
west = record {
  infra = no_infra;
  vcenter = some "v1";
  vms = record no_vms {
    total = 4;
    power_states = ("on", 4) ∷ [];
    migration_warnings = old_hardware ∷ [];
  };
}

abbrev both : List (InventoryData ℕ)
both = east ∷ west ∷ []

sum_of_vms : (aggregate_vms whole both).total ≡ 7
unfolding aggregate_vms vms_loop
sum_of_vms = refl

one_vcenter : (aggregate_inventory_data whole both).vcenter ≡ some "v1"
unfolding aggregate_inventory_data vcenter_id same_vcenter
one_vcenter = refl

aggregate_vms-counts_example :
    ((c : Count) → count_of c (aggregate_vms whole both) ≡ total (counts c both))
    × ((state : String)
        → value_at state (aggregate_vms whole both).power_states ≡ total (in_state state both))
aggregate_vms-counts_example = aggregate_vms-counts whole both

aggregate_vms-issues_example :
    (issue_total "w1" (aggregate_vms whole both).migration_warnings
      ≡ total (issue_totals warnings_of "w1" both))
    × (issue_total "w1" (aggregate_vms whole both).not_migratable_reasons
        ≡ total (issue_totals reasons_of "w1" both))
aggregate_vms-issues_example = aggregate_vms-issues whole both "w1"
