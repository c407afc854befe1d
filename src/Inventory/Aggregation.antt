-- ===== src/Inventory/Aggregation.antt =====
-- The loops of aggregateVMs and aggregateInfra, and what is made of them.
use migration_planner.Prelude.{
  ℕ, String, Bool, true, false, not, ◌&&◌, Option, none, some, List, [], ◌∷◌, ◌++◌, if◌then◌else◌,
  length, add64, lt64, is_positive,
}
use migration_planner.Inventory.Model.{
  DiskSizeTierSummary, DiskTypeSummary, Host, Vms, Infra, InventoryData, Inventory, Floats,
}
use migration_planner.Inventory.{
  add_optional_int, add_vm_resource_breakdown, no_resources, add_nic_count, add_int, add_counts,
  merge_map, merge_os_info, migration_issues_slice, aggregate_standalone_host_flag, vcenter_id,
  append_optional, slice_of, clusters_loop, issues_loop, merged_issues, warnings_of, reasons_of,
}

abbrev pub no_vms : {F : Type 0} → Vms F
no_vms = record {
  complexity_distribution = none;
  cpu_cores = no_resources;
  disk_complexity_tier = none;
  disk_count = no_resources;
  disk_gb = no_resources;
  disk_size_tier = none;
  disk_types = none;
  distribution_by_cpu_tier = none;
  distribution_by_memory_tier = none;
  distribution_by_nic_count = none;
  issues_breakdown = none;
  migration_warnings = [];
  nic_count = none;
  not_migratable_reasons = [];
  os_info = none;
  power_states = [];
  ram_gb = no_resources;
  total = 0;
  total_migratable = 0;
  total_migratable_with_warnings = none;
  total_with_fault_tolerance = none;
  total_with_rdm = none;
  total_with_shared_disks = none;
}

abbrev pub no_infra : {F : Type 0} → Infra F
no_infra = record {
  clusters_per_datacenter = none;
  cpu_over_commitment = none;
  datastores = [];
  host_power_states = [];
  hosts = none;
  memory_over_commitment = none;
  networks = [];
  standalone_hosts_detected = none;
  total_datacenters = none;
  total_hosts = 0;
  vms_per_host_average = none;
}

module _ {F : Type 0} (floats : Floats F) where
  abbrev pub add_disk_size_tier_summary :
      DiskSizeTierSummary F → DiskSizeTierSummary F → DiskSizeTierSummary F
  add_disk_size_tier_summary a b = record {
    total_size_tb = floats.add a.total_size_tb b.total_size_tb;
    vm_count = add64 a.vm_count b.vm_count;
  }

  abbrev pub add_disk_type_summary : DiskTypeSummary F → DiskTypeSummary F → DiskTypeSummary F
  add_disk_type_summary a b = record {
    total_size_tb = floats.add a.total_size_tb b.total_size_tb;
    vm_count = add64 a.vm_count b.vm_count;
  }

  -- One turn of the loop of aggregateVMs.
  abbrev pub add_vms : Vms F → Vms F → Vms F
  add_vms r vms = record r {
    total = add64 r.total vms.total;
    total_migratable = add64 r.total_migratable vms.total_migratable;
    total_migratable_with_warnings =
        add_optional_int r.total_migratable_with_warnings vms.total_migratable_with_warnings;
    total_with_fault_tolerance =
        add_optional_int r.total_with_fault_tolerance vms.total_with_fault_tolerance;
    total_with_rdm = add_optional_int r.total_with_rdm vms.total_with_rdm;
    total_with_shared_disks =
        add_optional_int r.total_with_shared_disks vms.total_with_shared_disks;
    cpu_cores = add_vm_resource_breakdown r.cpu_cores vms.cpu_cores;
    disk_count = add_vm_resource_breakdown r.disk_count vms.disk_count;
    disk_gb = add_vm_resource_breakdown r.disk_gb vms.disk_gb;
    ram_gb = add_vm_resource_breakdown r.ram_gb vms.ram_gb;
    nic_count = add_nic_count r.nic_count vms.nic_count;
    power_states = add_counts r.power_states vms.power_states;
    complexity_distribution =
        merge_map add_disk_size_tier_summary r.complexity_distribution vms.complexity_distribution;
    disk_complexity_tier =
        merge_map add_disk_size_tier_summary r.disk_complexity_tier vms.disk_complexity_tier;
    disk_size_tier = merge_map add_disk_size_tier_summary r.disk_size_tier vms.disk_size_tier;
    disk_types = merge_map add_disk_type_summary r.disk_types vms.disk_types;
    os_info = merge_map merge_os_info r.os_info vms.os_info;
    distribution_by_cpu_tier =
        merge_map add_int r.distribution_by_cpu_tier vms.distribution_by_cpu_tier;
    distribution_by_memory_tier =
        merge_map add_int r.distribution_by_memory_tier vms.distribution_by_memory_tier;
    distribution_by_nic_count =
        merge_map add_int r.distribution_by_nic_count vms.distribution_by_nic_count;
  }

  unfoldable pub vms_loop : Vms F → List (InventoryData F) → Vms F
  vms_loop r [] = r
  vms_loop r (i ∷ rest) = vms_loop (add_vms r i.vms) rest

  unfoldable pub aggregate_vms : List (InventoryData F) → Vms F
  aggregate_vms inventories = record (vms_loop no_vms inventories) {
    issues_breakdown = issues_loop none inventories;
    migration_warnings = migration_issues_slice (merged_issues warnings_of [] inventories);
    not_migratable_reasons = migration_issues_slice (merged_issues reasons_of [] inventories);
  }

  abbrev pub add_infra : Infra F → Infra F → Infra F
  add_infra r infra = record r {
    total_hosts = add64 r.total_hosts infra.total_hosts;
    datastores = r.datastores ++ infra.datastores;
    networks = r.networks ++ infra.networks;
    host_power_states = add_counts r.host_power_states infra.host_power_states;
    total_datacenters = add_optional_int r.total_datacenters infra.total_datacenters;
    hosts = append_optional r.hosts infra.hosts;
  }

  unfoldable pub infra_loop : Infra F → List (InventoryData F) → Infra F
  infra_loop r [] = r
  infra_loop r (i ∷ rest) = infra_loop (add_infra r i.infra) rest

  unfoldable pub average_vms_per_host : ℕ → ℕ → Option F
  average_vms_per_host total_vms total_hosts =
      if not (is_positive total_hosts)
      then none
      else some (
          floats.div
            (floats.round (
              floats.div (floats.mul (floats.of_int total_vms) (floats.of_int 100))
                (floats.of_int total_hosts)))
            (floats.of_int 100))

  abbrev pub add_share : F × Bool → Option ℕ → F × Bool
  add_share acc none = (acc.0, false)
  add_share acc (some n) = (floats.add acc.0 (floats.of_int n), acc.1)

  -- The sum over the hosts, and whether each of them tells its share.
  abbrev pub sum_hosts : (Host → Option ℕ) → F × Bool → List Host → F × Bool
  sum_hosts share acc [] = acc
  sum_hosts share acc (h ∷ hs) = sum_hosts share (add_share acc (share h)) hs

  abbrev pub sum_inventory : (Host → Option ℕ) → F × Bool → ℕ → Option (List Host) → F × Bool
  sum_inventory share acc total_hosts none = (acc.0, acc.1 && not (is_positive total_hosts))
  sum_inventory share acc total_hosts (some hosts) =
      sum_hosts share (acc.0, acc.1 && not (lt64 (length hosts) total_hosts)) hosts

  unfoldable pub sum_physical : (Host → Option ℕ) → F × Bool → List (InventoryData F) → F × Bool
  sum_physical share acc [] = acc
  sum_physical share acc (i ∷ rest) =
      sum_physical share (sum_inventory share acc i.infra.total_hosts i.infra.hosts) rest

  abbrev pub ratio_of : F → F × Bool → Option F
  ratio_of allocated (physical, complete) =
      if complete && floats.is_positive physical then some (floats.div allocated physical) else none

  unfoldable pub aggregate_cpu_over_commitment : List (InventoryData F) → ℕ → Option F
  aggregate_cpu_over_commitment inventories total_allocated =
      ratio_of (floats.of_int total_allocated)
        (sum_physical (λ h. h.cpu_cores) (floats.zero, true) inventories)

  unfoldable pub aggregate_memory_over_commitment : List (InventoryData F) → ℕ → Option F
  aggregate_memory_over_commitment inventories total_allocated_gb =
      ratio_of (floats.mul (floats.of_int total_allocated_gb) (floats.of_int 1024))
        (sum_physical (λ h. h.memory_mb) (floats.zero, true) inventories)

  unfoldable pub aggregate_infra : List (InventoryData F) → Vms F → Infra F
  aggregate_infra inventories vms =
      let result = infra_loop no_infra inventories in
      record result {
        clusters_per_datacenter = some (slice_of (clusters_loop none inventories));
        standalone_hosts_detected = aggregate_standalone_host_flag inventories;
        vms_per_host_average = average_vms_per_host vms.total result.total_hosts;
        cpu_over_commitment = aggregate_cpu_over_commitment inventories vms.cpu_cores.total;
        memory_over_commitment = aggregate_memory_over_commitment inventories vms.ram_gb.total;
      }

  unfoldable pub aggregate_inventory_data : List (InventoryData F) → InventoryData F
  aggregate_inventory_data inventories =
      let vms = aggregate_vms inventories in
      record {
        infra = aggregate_infra inventories vms;
        vcenter = vcenter_id inventories;
        vms = vms;
      }

  -- The data of an assessment's inventory: that of its vCenter, or the empty data.
  abbrev pub data_of : Option (InventoryData F) → InventoryData F
  data_of none = record { infra = no_infra; vcenter = none; vms = no_vms }
  data_of (some content) = content

  abbrev pub vcenters : List (Inventory F) → List (InventoryData F)
  vcenters [] = []
  vcenters (i ∷ rest) = data_of i.vcenter ∷ vcenters rest

  abbrev pub or_no_id : Option String → String
  or_no_id none = ""
  or_no_id (some id) = id

  -- `now` is time.Now().
  unfoldable pub aggregate : ℕ → List (Inventory F) → Inventory F
  aggregate now [] = record {
    clusters = [];
    created_at = some now;
    vcenter = none;
    vcenter_id = "";
  }
  aggregate now (i ∷ rest) =
      let aggregated = aggregate_inventory_data (vcenters (i ∷ rest)) in
      record {
        clusters = [];
        created_at = some now;
        vcenter = some aggregated;
        vcenter_id = or_no_id aggregated.vcenter;
      }
