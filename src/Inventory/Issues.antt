-- ===== src/Inventory/Issues.antt =====
-- Warnings and reasons: the issues of all inventories, one for each id, with their counts added.
use mathlib.Core.Path.{subst}
use migration_planner.Prelude.{
  ℕ, String, ◌≡◌, refl, sym, ap, ◌∙◌, Bool, true, false, not, ◌&&◌, Option, none, some, List, [],
  ◌∷◌, map, arith, eq_iff, str_eq, if◌then◌else◌, inl, inr, Bool-cases, add64, ◌<◌, modulus, total,
  total-lt, Dict, lookup, insert, insert_here, insert_there, lookup_here, lookup_there,
}
use migration_planner.Inventory.Model.{MigrationIssue, InventoryData, Floats}
use migration_planner.Inventory.{
  has_no_id, id_of, with_count, merge_migration_issues, migration_issues_slice, merged_issues,
  warnings_of, reasons_of,
}
use migration_planner.Inventory.Aggregation.{aggregate_vms}

-- The issue has the id.
abbrev pub is_issue : String → MigrationIssue → Bool
is_issue id issue = not (has_no_id issue.id) && str_eq (id_of issue.id) id

-- The counts of the issues with the id.
abbrev pub issue_total : String → List MigrationIssue → ℕ
issue_total id [] = 0
issue_total id (issue ∷ rest) =
    let others = issue_total id rest in
    if is_issue id issue then add64 issue.count others else others

issue_total-lt : (id : String) (issues : List MigrationIssue) → issue_total id issues < modulus
issue_total-lt id [] = omega arith
issue_total-lt id (issue ∷ rest) = ground (arith, issue_total-lt id rest)

some_injective : (x y : String) → some x ≡ some y → x ≡ y
some_injective x y h = ground arith

-- Each entry of the map has its key as its id.
abbrev Keyed : Dict MigrationIssue → Type 0
Keyed [] = Unit {0}
Keyed ((key, issue) ∷ rest) = (issue.id ≡ some key) × Keyed rest

abbrev merged_into : String → MigrationIssue → Dict MigrationIssue → Dict MigrationIssue
merged_into key issue d = insert key (with_count (lookup key d) issue) d

merged_into_here :
    (key name : String) (issue old : MigrationIssue) (rest : Dict MigrationIssue)
    → str_eq key name ≡ true
    → merged_into key issue ((name, old) ∷ rest) ≡ (name, with_count (some old) issue) ∷ rest
merged_into_here key name issue old rest e =
    insert_here key name _ old rest e
    ∙ ap (λ o. (name, with_count o issue) ∷ rest) (lookup_here key name old rest e)

merged_into_there :
    (key name : String) (issue old : MigrationIssue) (rest : Dict MigrationIssue)
    → str_eq key name ≡ false
    → merged_into key issue ((name, old) ∷ rest) ≡ (name, old) ∷ merged_into key issue rest
merged_into_there key name issue old rest e =
    insert_there key name _ old rest e
    ∙ ap (λ o. (name, old) ∷ insert key (with_count o issue) rest)
        (lookup_there key name old rest e)

merged_into-Keyed :
    (key : String) (issue : MigrationIssue) (d : Dict MigrationIssue)
    → issue.id ≡ some key
    → Keyed d
    → Keyed (merged_into key issue d)
unfolding insert lookup
merged_into-Keyed key issue [] h k = (h, tt)
merged_into-Keyed key issue ((name, old) ∷ rest) h (here, more) =
    elim (Bool-cases (str_eq key name)) [
      | inl e ↦ subst Keyed (sym (merged_into_here key name issue old rest e)) (here, more)
      | inr e ↦
          subst Keyed (sym (merged_into_there key name issue old rest e))
            (here, merged_into-Keyed key issue rest h more)
    ]

-- Whether an issue with the key as its id has the id.
is_issue-key :
    (id key : String) (v : Option String)
    → v ≡ some key
    → str_eq key "" ≡ false
    → (not (has_no_id v) && str_eq (id_of v) id) ≡ str_eq key id
is_issue-key id key none h n = ground arith
is_issue-key id key (some k) h n =
    let same : k ≡ key = some_injective k key h in
    ap (λ x. not (str_eq x "") && str_eq x id) same ∙ ground arith

kept_first :
    (b : Bool) (x t t' c : ℕ)
    → t' ≡ add64 t c
    → (if b then add64 x t' else t') ≡ add64 (if b then add64 x t else t) c
kept_first true x t t' c h = ground arith
kept_first false x t t' c h = h

merged_into-total :
    (id key : String) (issue : MigrationIssue) (d : Dict MigrationIssue)
    → issue.id ≡ some key
    → str_eq key "" ≡ false
    → Keyed d
    → issue_total id (migration_issues_slice (merged_into key issue d))
      ≡ add64 (issue_total id (migration_issues_slice d)) (if str_eq key id then issue.count else 0)
unfolding insert lookup
merged_into-total id key issue [] h n k = ground (arith, is_issue-key id key issue.id h n)
merged_into-total id key issue ((name, old) ∷ rest) h n (here, more) =
    let below = issue_total-lt id (migration_issues_slice rest) in
    elim (Bool-cases (str_eq key name)) [
      | inl e ↦
          let one : name ≡ key = sym ((eq_iff key name).0 e) in
          ap (λ d. issue_total id (migration_issues_slice d))
            (merged_into_here key name issue old rest e)
          ∙ ground (arith, below, is_issue-key id key old.id (here ∙ ap some one) n)
      | inr e ↦
          let tail = merged_into-total id key issue rest h n more in
          ap (λ d. issue_total id (migration_issues_slice d))
            (merged_into_there key name issue old rest e)
          ∙ kept_first (is_issue id old) old.count (issue_total id (migration_issues_slice rest))
              (issue_total id (migration_issues_slice (merged_into key issue rest)))
              (if str_eq key id then issue.count else 0) tail
    ]

some_key :
    (v : Option String) → has_no_id v ≡ false → (v ≡ some (id_of v)) × (str_eq (id_of v) "" ≡ false)
some_key none h = ground arith
some_key (some key) h = (refl, h)

-- One issue more.
merge_one :
    (skipped : Bool) (id : String) (result : Dict MigrationIssue) (issue : MigrationIssue)
    → has_no_id issue.id ≡ skipped
    → Keyed result
    → let key = id_of issue.id in
      let result' = if skipped then result else merged_into key issue result in
      Keyed result'
      × (issue_total id (migration_issues_slice result')
          ≡ add64
              (issue_total id (migration_issues_slice result))
              (if not skipped && str_eq key id then issue.count else 0))
merge_one true id result issue h k =
    (k, omega (arith, issue_total-lt id (migration_issues_slice result)))
merge_one false id result issue h k =
    let (named, nonempty) = some_key issue.id h in
    (
      merged_into-Keyed (id_of issue.id) issue result named k,
      merged_into-total id (id_of issue.id) issue result named nonempty k,
    )

regroup :
    (b : Bool) (t c r : ℕ)
    → r < modulus
    → add64 (add64 t (if b then c else 0)) r ≡ add64 t (if b then add64 c r else r)
regroup true t c r h = omega arith
regroup false t c r h = omega arith

merge_migration_issues-total :
    (id : String) (result : Dict MigrationIssue) (issues : List MigrationIssue)
    → Keyed result
    → Keyed (merge_migration_issues result issues)
      × (issue_total id (migration_issues_slice (merge_migration_issues result issues))
          ≡ add64 (issue_total id (migration_issues_slice result)) (issue_total id issues))
unfolding merge_migration_issues
merge_migration_issues-total id result [] k =
    (k, omega (arith, issue_total-lt id (migration_issues_slice result)))
merge_migration_issues-total id result (issue ∷ rest) k =
    let key = id_of issue.id in
    let result' = if has_no_id issue.id then result else merged_into key issue result in
    let (k₁, one) = merge_one (has_no_id issue.id) id result issue refl k in
    let (k₂, more) = merge_migration_issues-total id result' rest k₁ in
    (
      k₂,
      more
          ∙ ap (λ n. add64 n (issue_total id rest)) one
          ∙ regroup (is_issue id issue) (issue_total id (migration_issues_slice result)) issue.count
              (issue_total id rest) (issue_total-lt id rest),
    )

module _ {F : Type 0} where
  -- What the inventories say of the id.
  abbrev pub issue_totals :
      (InventoryData F → List MigrationIssue) → String → List (InventoryData F) → List ℕ
  issue_totals issues_of id inventories = map (λ i. issue_total id (issues_of i)) inventories

  merged_issues-total :
      (issues_of : InventoryData F → List MigrationIssue) (id : String)
      (result : Dict MigrationIssue) (inventories : List (InventoryData F))
      → Keyed result
      → issue_total id (migration_issues_slice (merged_issues issues_of result inventories))
        ≡ add64
            (issue_total id (migration_issues_slice result))
            (total (issue_totals issues_of id inventories))
  unfolding merged_issues
  merged_issues-total issues_of id result [] k =
      omega (arith, issue_total-lt id (migration_issues_slice result))
  merged_issues-total issues_of id result (i ∷ rest) k =
      let (k₁, one) = merge_migration_issues-total id result (issues_of i) k in
      merged_issues-total issues_of id (merge_migration_issues result (issues_of i)) rest k₁
      ∙ ap (λ n. add64 n (total (issue_totals issues_of id rest))) one
      ∙ omega arith

  -- For every id the counts of the warnings of an aggregation add up to those of the inventories'
  -- warnings with that id, and so do the reasons, modulo 2^64.
  pub aggregate_vms-issues :
      (floats : Floats F) (inventories : List (InventoryData F)) (id : String)
      → (issue_total id (aggregate_vms floats inventories).migration_warnings
          ≡ total (issue_totals warnings_of id inventories))
        × (issue_total id (aggregate_vms floats inventories).not_migratable_reasons
            ≡ total (issue_totals reasons_of id inventories))
  unfolding aggregate_vms
  aggregate_vms-issues floats inventories id = (
    merged_issues-total warnings_of id [] inventories tt
        ∙ omega (arith, total-lt (issue_totals warnings_of id inventories)),
    merged_issues-total reasons_of id [] inventories tt
        ∙ omega (arith, total-lt (issue_totals reasons_of id inventories)),
  )
