-- ===== src/Inventory.antt =====
-- internal/service/helpers/inventory_aggregate.go: many inventories made into one.
--
-- A loop over the inventories is a recursion on their list that carries what the loop has so far.
-- `range` visits a map in the order of its list, which Go leaves open.
pub mod Model
pub mod Aggregation
pub mod Merging
pub mod Totals
pub mod Flags
pub mod Issues
mod Scenarios
use migration_planner.Prelude.{
  ℕ, String, Bool, true, false, not, ◌&&◌, ◌||◌, Option, none, some, List, [], ◌∷◌, ◌++◌, str_eq,
  if◌then◌else◌, add64, Dict, lookup, insert,
}
use migration_planner.Inventory.Model.{
  VmResourceBreakdown, IssuesBreakdown, MigrationIssue, OsInfo, InventoryData,
}

-- addOptionalInt: the accumulator, then the value.
abbrev pub add_optional_int : Option ℕ → Option ℕ → Option ℕ
add_optional_int acc none = acc
add_optional_int none (some value) = some value
add_optional_int (some acc) (some value) = some (add64 value acc)

abbrev pub add_vm_resource_breakdown :
    VmResourceBreakdown → VmResourceBreakdown → VmResourceBreakdown
add_vm_resource_breakdown a b = record {
  total = add64 a.total b.total;
  total_for_migratable = add64 a.total_for_migratable b.total_for_migratable;
  total_for_migratable_with_warnings =
      add64 a.total_for_migratable_with_warnings b.total_for_migratable_with_warnings;
  total_for_not_migratable = add64 a.total_for_not_migratable b.total_for_not_migratable;
}

abbrev pub no_resources : VmResourceBreakdown
no_resources = record {
  total = 0;
  total_for_migratable = 0;
  total_for_migratable_with_warnings = 0;
  total_for_not_migratable = 0;
}

-- `nicCount` with `nicCountSeen`: none is not seen.
abbrev pub add_nic_count :
    Option VmResourceBreakdown → Option VmResourceBreakdown → Option VmResourceBreakdown
add_nic_count acc none = acc
add_nic_count none (some b) = some (add_vm_resource_breakdown no_resources b)
add_nic_count (some a) (some b) = some (add_vm_resource_breakdown a b)

abbrev pub add_int : ℕ → ℕ → ℕ
add_int a b = add64 a b

-- A missing key of a map of numbers gives 0.
abbrev pub or_zero : Option ℕ → ℕ
or_zero none = 0
or_zero (some n) = n

-- `for state, count := range states { m[state] += count }`
unfoldable pub add_counts : Dict ℕ → Dict ℕ → Dict ℕ
add_counts m [] = m
add_counts m ((state, count) ∷ rest) =
    add_counts (insert state (add64 (or_zero (lookup state m)) count) m) rest

module _ {T : Type 0} where
  abbrev pub combined : (T → T → T) → Option T → T → T
  combined combine none value = value
  combined combine (some existing) value = combine existing value

  unfoldable pub merge_into : (T → T → T) → Dict T → Dict T → Dict T
  merge_into combine dst [] = dst
  merge_into combine dst ((key, value) ∷ rest) =
      merge_into combine (insert key (combined combine (lookup key dst) value) dst) rest

  abbrev pub or_empty : Option (Dict T) → Dict T
  or_empty none = []
  or_empty (some m) = m

  abbrev pub merge_map : (T → T → T) → Option (Dict T) → Option (Dict T) → Option (Dict T)
  merge_map combine dst none = dst
  merge_map combine dst (some src) = some (merge_into combine (or_empty dst) src)

abbrev pub merge_os_info : OsInfo → OsInfo → OsInfo
merge_os_info existing incoming = record existing {
  count = add64 existing.count incoming.count;
  supported = existing.supported && incoming.supported;
}

-- `issue.Id == nil || *issue.Id == ""`
abbrev pub has_no_id : Option String → Bool
has_no_id none = true
has_no_id (some id) = str_eq id ""

abbrev pub id_of : Option String → String
id_of none = ""
id_of (some id) = id

abbrev pub with_count : Option MigrationIssue → MigrationIssue → MigrationIssue
with_count none issue = issue
with_count (some existing) issue = record existing { count = add64 existing.count issue.count }

unfoldable pub merge_migration_issues :
    Dict MigrationIssue → List MigrationIssue → Dict MigrationIssue
merge_migration_issues result [] = result
merge_migration_issues result (issue ∷ rest) =
    let id = id_of issue.id in
    merge_migration_issues
      (if has_no_id issue.id
        then result
        else insert id (with_count (lookup id result) issue) result)
      rest

abbrev pub migration_issues_slice : Dict MigrationIssue → List MigrationIssue
migration_issues_slice [] = []
migration_issues_slice ((id, issue) ∷ rest) = issue ∷ migration_issues_slice rest

abbrev pub no_issues : IssuesBreakdown
no_issues = record { advisory = 0; critical = 0; errors = 0; information = 0; warning = 0 }

abbrev pub add_breakdown : IssuesBreakdown → IssuesBreakdown → IssuesBreakdown
add_breakdown a b = record {
  advisory = add64 a.advisory b.advisory;
  critical = add64 a.critical b.critical;
  errors = add64 a.errors b.errors;
  information = add64 a.information b.information;
  warning = add64 a.warning b.warning;
}

-- `result` with `seen`: none is not seen.
abbrev pub add_issues : Option IssuesBreakdown → Option IssuesBreakdown → Option IssuesBreakdown
add_issues acc none = acc
add_issues none (some b) = some (add_breakdown no_issues b)
add_issues (some a) (some b) = some (add_breakdown a b)

-- aggregateStandaloneHostFlag, with `known` and `anyTrue`.
abbrev pub standalone_flag : Bool → Bool → Option Bool
standalone_flag known true = some true
standalone_flag true false = some false
standalone_flag false false = none

abbrev pub is_known : Option Bool → Bool
is_known none = false
is_known (some value) = true

abbrev pub is_set : Option Bool → Bool
is_set none = false
is_set (some value) = value

-- `inventory.Vcenter == nil || inventory.Vcenter.Id != id`
abbrev pub is_other : String → Option String → Bool
is_other id none = true
is_other id (some other) = not (str_eq other id)

abbrev pub append_optional {ℓ} : {A : Type ℓ} → Option (List A) → Option (List A) → Option (List A)
append_optional acc none = acc
append_optional none (some xs) = some xs
append_optional (some acc) (some xs) = some (acc ++ xs)

-- A nil slice behind a pointer that is not nil.
abbrev pub slice_of {ℓ} : {A : Type ℓ} → Option (List A) → List A
slice_of none = []
slice_of (some xs) = xs

module _ {F : Type 0} where
  unfoldable pub standalone_loop : Bool → Bool → List (InventoryData F) → Option Bool
  standalone_loop known any_true [] = standalone_flag known any_true
  standalone_loop known any_true (i ∷ rest) =
      let value = i.infra.standalone_hosts_detected in
      standalone_loop (known || is_known value) (any_true || is_set value) rest

  unfoldable pub aggregate_standalone_host_flag : List (InventoryData F) → Option Bool
  aggregate_standalone_host_flag inventories = standalone_loop false false inventories

  unfoldable pub same_vcenter : String → List (InventoryData F) → Option String
  same_vcenter id [] = some id
  same_vcenter id (i ∷ rest) =
      let answer = same_vcenter id rest in if is_other id i.vcenter then none else answer

  abbrev pub vcenter_of_all : Option String → List (InventoryData F) → Option String
  vcenter_of_all none rest = none
  vcenter_of_all (some id) rest = same_vcenter id rest

  unfoldable pub vcenter_id : List (InventoryData F) → Option String
  vcenter_id [] = none
  vcenter_id (i ∷ rest) = vcenter_of_all i.vcenter rest

  unfoldable pub clusters_loop : Option (List ℕ) → List (InventoryData F) → Option (List ℕ)
  clusters_loop acc [] = acc
  clusters_loop acc (i ∷ rest) =
      clusters_loop (append_optional acc i.infra.clusters_per_datacenter) rest

  unfoldable pub issues_loop :
      Option IssuesBreakdown → List (InventoryData F) → Option IssuesBreakdown
  issues_loop acc [] = acc
  issues_loop acc (i ∷ rest) = issues_loop (add_issues acc i.vms.issues_breakdown) rest

  unfoldable pub merged_issues :
      (InventoryData F → List MigrationIssue)
      → Dict MigrationIssue
      → List (InventoryData F)
      → Dict MigrationIssue
  merged_issues issues_of result [] = result
  merged_issues issues_of result (i ∷ rest) =
      merged_issues issues_of (merge_migration_issues result (issues_of i)) rest

  abbrev pub warnings_of : InventoryData F → List MigrationIssue
  warnings_of i = i.vms.migration_warnings

  abbrev pub reasons_of : InventoryData F → List MigrationIssue
  reasons_of i = i.vms.not_migratable_reasons
