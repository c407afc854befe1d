-- ===== src/Inventory/Model.antt =====
-- internal/model/inventory.go: what an inventory holds, as far as the aggregation reads or writes
-- it. An `int` is a 64-bit pattern, a `float64` a type `F`, a Go map an association list, a pointer
-- to a map or a slice an option. Left out are the fields that the code calls deprecated, those that
-- an aggregation leaves empty, and those of hosts, datastores and networks that it only copies.
use migration_planner.Prelude.{ℕ, String, Bool, Option, List, Dict}

pub record VmResourceBreakdown : Type 0 where
  pub total : ℕ
  pub total_for_migratable : ℕ
  pub total_for_migratable_with_warnings : ℕ
  pub total_for_not_migratable : ℕ

pub record DiskSizeTierSummary (F : Type 0) : Type 0 where
  pub total_size_tb : F
  pub vm_count : ℕ

pub record DiskTypeSummary (F : Type 0) : Type 0 where
  pub total_size_tb : F
  pub vm_count : ℕ

pub record IssuesBreakdown : Type 0 where
  pub advisory : ℕ
  pub critical : ℕ
  pub errors : ℕ
  pub information : ℕ
  pub warning : ℕ

pub record MigrationIssue : Type 0 where
  pub assessment : String
  pub count : ℕ
  pub id : Option String
  pub label : String

pub record OsInfo : Type 0 where
  pub count : ℕ
  pub support_tier : Option String
  pub supported : Bool
  pub upgrade_recommendation : Option String

pub record Host : Type 0 where
  pub id : Option String
  pub cpu_cores : Option ℕ
  pub memory_mb : Option ℕ

pub record Datastore : Type 0 where
  pub disk_id : String
  pub free_capacity_gb : ℕ
  pub total_capacity_gb : ℕ

pub record Network : Type 0 where
  pub name : String
  pub type : String

pub record Vms (F : Type 0) : Type 0 where
  pub complexity_distribution : Option (Dict (DiskSizeTierSummary F))
  pub cpu_cores : VmResourceBreakdown
  pub disk_complexity_tier : Option (Dict (DiskSizeTierSummary F))
  pub disk_count : VmResourceBreakdown
  pub disk_gb : VmResourceBreakdown
  pub disk_size_tier : Option (Dict (DiskSizeTierSummary F))
  pub disk_types : Option (Dict (DiskTypeSummary F))
  pub distribution_by_cpu_tier : Option (Dict ℕ)
  pub distribution_by_memory_tier : Option (Dict ℕ)
  pub distribution_by_nic_count : Option (Dict ℕ)
  pub issues_breakdown : Option IssuesBreakdown
  pub migration_warnings : List MigrationIssue
  pub nic_count : Option VmResourceBreakdown
  pub not_migratable_reasons : List MigrationIssue
  pub os_info : Option (Dict OsInfo)
  pub power_states : Dict ℕ
  pub ram_gb : VmResourceBreakdown
  pub total : ℕ
  pub total_migratable : ℕ
  pub total_migratable_with_warnings : Option ℕ
  pub total_with_fault_tolerance : Option ℕ
  pub total_with_rdm : Option ℕ
  pub total_with_shared_disks : Option ℕ

pub record Infra (F : Type 0) : Type 0 where
  pub clusters_per_datacenter : Option (List ℕ)
  pub cpu_over_commitment : Option F
  pub datastores : List Datastore
  pub host_power_states : Dict ℕ
  pub hosts : Option (List Host)
  pub memory_over_commitment : Option F
  pub networks : List Network
  pub standalone_hosts_detected : Option Bool
  pub total_datacenters : Option ℕ
  pub total_hosts : ℕ
  pub vms_per_host_average : Option F

-- The identity of a vCenter stands for the vCenter.
pub record InventoryData (F : Type 0) : Type 0 where
  pub infra : Infra F
  pub vcenter : Option String
  pub vms : Vms F

pub record Inventory (F : Type 0) : Type 0 where
  pub clusters : Dict (InventoryData F)
  pub created_at : Option ℕ
  pub vcenter : Option (InventoryData F)
  pub vcenter_id : String

-- The operations of float64 that the aggregation uses.
pub record Floats (F : Type 0) : Type 0 where
  pub zero : F
  pub add : F → F → F
  pub mul : F → F → F
  pub div : F → F → F
  pub round : F → F
  pub of_int : ℕ → F
  pub is_positive : F → Bool
