-- ===== src/Inventory/Flags.antt =====
-- What the inventories agree on: the vCenter, the flag for standalone hosts; and what is told only
-- where every host tells its share.
use mathlib.Core.Path.{subst}
use migration_planner.Prelude.{
  ℕ, String, ◌≡◌, refl, sym, ap, ◌∙◌, ◌↔◌, ◌≢◌, Bool, true, false, not, ◌&&◌, ◌||◌, Option, none,
  some, List, [], ◌∷◌, arith, eq_iff, if◌then◌else◌, any, All, length, lt64, is_positive,
}
use migration_planner.Inventory.Model.{InventoryData, Host, Floats}
use migration_planner.Inventory.{
  standalone_loop, aggregate_standalone_host_flag, is_known, is_set, standalone_flag, same_vcenter,
  vcenter_of_all, vcenter_id, is_other,
}
use migration_planner.Inventory.Aggregation.{
  add_share, sum_hosts, sum_inventory, sum_physical, ratio_of, aggregate_cpu_over_commitment,
}

one_vcenter :
    (id found : String) (v answer : Option String)
    → (if is_other id v then none else answer) ≡ some found
    → (v ≡ some id) × (answer ≡ some found)
one_vcenter id found none answer h = ground arith
one_vcenter id found (some other) answer h = ground (arith, eq_iff other id)

one_more :
    (id : String) (v answer : Option String)
    → v ≡ some id
    → answer ≡ some id
    → (if is_other id v then none else answer) ≡ some id
one_more id none answer h k = ground arith
one_more id (some other) answer h k = ground (arith, eq_iff other id)

module _ {F : Type 0} where
  abbrev pub tells : InventoryData F → Bool
  tells i = is_known i.infra.standalone_hosts_detected

  abbrev pub detects : InventoryData F → Bool
  detects i = is_set i.infra.standalone_hosts_detected

  standalone_loop-any :
      (known any_true : Bool) (inventories : List (InventoryData F))
      → standalone_loop known any_true inventories
        ≡ standalone_flag (known || any tells inventories) (any_true || any detects inventories)
  unfolding standalone_loop
  standalone_loop-any known any_true [] = ground arith
  standalone_loop-any known any_true (i ∷ rest) =
      standalone_loop-any (known || tells i) (any_true || detects i) rest ∙ ground arith

  -- The flag is set where an inventory has it set, else clear where an inventory tells it, else
  -- unknown.
  pub aggregate_standalone_host_flag-any :
      (inventories : List (InventoryData F))
      → aggregate_standalone_host_flag inventories
        ≡ standalone_flag (any tells inventories) (any detects inventories)
  unfolding aggregate_standalone_host_flag
  aggregate_standalone_host_flag-any inventories = standalone_loop-any false false inventories

  -- The inventory comes from the vCenter.
  abbrev pub From : String → InventoryData F → Type 0
  From id i = i.vcenter ≡ some id

  same_vcenter-All :
      (id found : String) (rest : List (InventoryData F))
      → same_vcenter id rest ≡ some found
      → (found ≡ id) × All (From id) rest
  unfolding same_vcenter
  same_vcenter-All id found [] h = (ground arith, tt)
  same_vcenter-All id found (i ∷ rest) h =
      let (here, there) = one_vcenter id found i.vcenter (same_vcenter id rest) h in
      let (one, more) = same_vcenter-All id found rest there in (one, (here, more))

  All-same_vcenter :
      (id : String) (rest : List (InventoryData F))
      → All (From id) rest
      → same_vcenter id rest ≡ some id
  unfolding same_vcenter
  All-same_vcenter id [] h = refl
  All-same_vcenter id (i ∷ rest) (here, more) =
      one_more id i.vcenter (same_vcenter id rest) here (All-same_vcenter id rest more)

  first_vcenter :
      (v : Option String) (id : String) (rest : List (InventoryData F))
      → vcenter_of_all v rest ≡ some id
      → (v ≡ some id) × All (From id) rest
  first_vcenter none id rest h = ground arith
  first_vcenter (some first) id rest h =
      let (one, more) = same_vcenter-All first id rest h in
      subst (λ x. (some x ≡ some id) × All (From id) rest) one
        (refl, subst (λ x. All (From x) rest) (sym one) more)

  -- The aggregation has a vCenter exactly when there are inventories and all come from that one.
  vcenter_id-All :
      (inventories : List (InventoryData F)) (id : String)
      → (vcenter_id inventories ≡ some id) ↔ ((inventories ≢ []) × All (From id) inventories)
  unfolding vcenter_id
  vcenter_id-All [] id = (λ h. absurd (cc), λ h. absurd (h.0 refl))
  vcenter_id-All (i ∷ rest) id = (
    λ h. (λ e. absurd (cc), first_vcenter i.vcenter id rest h),
    λ h. ap (λ v. vcenter_of_all v rest) h.1.0 ∙ All-same_vcenter id rest h.1.1,
  )

-- The inventory does not tell all that the ratio needs: a host has no number, or is not listed.
abbrev is_untold : Option ℕ → Bool
is_untold none = true
is_untold (some n) = false

abbrev lacks : (Host → Option ℕ) → ℕ → Option (List Host) → Bool
lacks share total_hosts none = is_positive total_hosts
lacks share total_hosts (some hosts) =
    lt64 (length hosts) total_hosts || any (λ h. is_untold (share h)) hosts

unfoldable pub withholds : {F : Type 0} → (Host → Option ℕ) → InventoryData F → Bool
withholds share i = lacks share i.infra.total_hosts i.infra.hosts

module _ {F : Type 0} (floats : Floats F) (share : Host → Option ℕ) where
  host_step :
      (o : Option ℕ) (acc : F × Bool) (b : Bool)
      → (add_share floats acc o).1 && not b ≡ acc.1 && not (is_untold o || b)
  host_step none acc b = ground arith
  host_step (some n) acc b = refl

  sum_hosts_complete :
      (acc : F × Bool) (hosts : List Host)
      → (sum_hosts floats share acc hosts).1 ≡ acc.1 && not (any (λ h. is_untold (share h)) hosts)
  sum_hosts_complete acc [] = ground arith
  sum_hosts_complete acc (h ∷ hs) =
      sum_hosts_complete (add_share floats acc (share h)) hs
      ∙ host_step (share h) acc (any (λ h. is_untold (share h)) hs)

  sum_inventory_complete :
      (acc : F × Bool) (total_hosts : ℕ) (hosts : Option (List Host))
      → (sum_inventory floats share acc total_hosts hosts).1
        ≡ acc.1 && not (lacks share total_hosts hosts)
  sum_inventory_complete acc total_hosts none = refl
  sum_inventory_complete acc total_hosts (some hosts) =
      sum_hosts_complete (acc.0, acc.1 && not (lt64 (length hosts) total_hosts)) hosts
      ∙ ground arith

  -- A sum over the hosts counts as complete where no inventory withholds a number or a host.
  pub sum_physical_complete :
      (acc : F × Bool) (inventories : List (InventoryData F))
      → (sum_physical floats share acc inventories).1
        ≡ acc.1 && not (any (withholds share) inventories)
  unfolding sum_physical withholds
  sum_physical_complete acc [] = ground arith
  sum_physical_complete acc (i ∷ rest) =
      sum_physical_complete (sum_inventory floats share acc i.infra.total_hosts i.infra.hosts) rest
      ∙ ap (λ b. b && not (any (withholds share) rest))
          (sum_inventory_complete acc i.infra.total_hosts i.infra.hosts)
      ∙ ground arith

ratio_withheld :
    {F : Type 0} (floats : Floats F) (allocated : F) (acc : F × Bool)
    → acc.1 ≡ false
    → ratio_of floats allocated acc ≡ none
ratio_withheld floats allocated acc h = ground arith

-- Where an inventory lists fewer hosts than it has, or a host without its number of cores, no CPU
-- overcommitment is told.
aggregate_cpu_over_commitment_withheld :
    {F : Type 0} (floats : Floats F) (inventories : List (InventoryData F)) (total_allocated : ℕ)
    → any (withholds (λ h. h.cpu_cores)) inventories ≡ true
    → aggregate_cpu_over_commitment floats inventories total_allocated ≡ none
unfolding aggregate_cpu_over_commitment
aggregate_cpu_over_commitment_withheld floats inventories total_allocated h =
    ratio_withheld floats (floats.of_int total_allocated) _
      (sum_physical_complete floats (λ h. h.cpu_cores) (floats.zero, true) inventories ∙ ap not h)
