-- ===== src/Complexity/Names.antt =====
-- OSNameBreakdown against OSBreakdown.
use mathlib.Core.List.{Permᴰ}
use migration_planner.Prelude.{
  ℕ, suc, All, String, Bool, ◌≡◌, refl, sym, ◌∙◌, List, [], ◌∷◌, map, ◌==◌, if◌then◌else◌, total,
  total-lt, map-Perm, arith, filter,
}
use migration_planner.Complexity.Tables.{Score, os_scores}
use migration_planner.Complexity.{
  classify_os, VmOsEntry, OsDifficultyEntry, OsNameEntry, name_before, name_entries,
  os_name_breakdown, os_breakdown,
}
use migration_planner.Complexity.Counts.{count_of, vms_scored, scored_entry, os_breakdown-scored}

-- The VMs of a row, where it has the score.
abbrev pub scored_vms : Score → OsNameEntry → ℕ
scored_vms s r = if s == r.score then r.vm_count else 0

-- The row of a score that the rows of the names add up to.
abbrev pub grouped : List OsNameEntry → Score → OsDifficultyEntry
grouped rows s = record { score = s; vm_count = total (map (scored_vms s) rows) }

-- Every call of ClassifyOS with the name of the entry gives the same score.
abbrev pub HasOneScore :
    (String → String) → (ℕ → List (String × Score)) → List (String × Score) → VmOsEntry → Type 0
HasOneScore lower orders order e =
    (call : ℕ) → classify_os lower (orders call) e.name ≡ classify_os lower order e.name

module _ (lower : String → String) (orders : ℕ → List (String × Score))
    (order : List (String × Score))
    (sort : (OsNameEntry → OsNameEntry → Bool) → List OsNameEntry → List OsNameEntry) where
  named-scored :
      (call : ℕ) (entries : List VmOsEntry)
      → All (HasOneScore lower orders order) entries
      → (s : Score)
      → total (map (scored_vms s) (name_entries lower orders sort call entries))
        ≡ vms_scored lower order entries s
  unfolding vms_scored
  named-scored call [] _ s = refl
  named-scored call (e ∷ es) (one, rest) s =
      let small = total-lt (map count_of (filter (λ e. s == classify_os lower order e.name) es)) in
      rw (one call) (ground (arith, named-scored (suc call) es rest s, small))

  sorted-scored :
      (entries : List VmOsEntry)
      → All (HasOneScore lower orders order) entries
      → ((rows : List OsNameEntry) → Permᴰ rows (sort name_before rows))
      → (s : Score)
      → vms_scored lower order entries s
        ≡ total (map (scored_vms s) (os_name_breakdown lower orders sort entries))
  unfolding os_name_breakdown
  sorted-scored entries one same s =
      let rows = name_entries lower orders sort 0 entries in
      sym (named-scored 0 entries one s)
      ∙ map-Perm (scored_vms s) rows (sort name_before rows) (same rows)

  -- Where sort.Slice gives the same rows in some order, and ClassifyOS gives each name of the
  -- entries one score in whichever order it visits its map: the rows of OSNameBreakdown, added up
  -- by score, are the rows of OSBreakdown.
  pub os_breakdown-os_name_breakdown :
      (entries : List VmOsEntry)
      → All (HasOneScore lower orders order) entries
      → ((rows : List OsNameEntry) → Permᴰ rows (sort name_before rows))
      → os_breakdown lower order entries
        ≡ map (grouped (os_name_breakdown lower orders sort entries)) os_scores
  unfolding scored_entry
  os_breakdown-os_name_breakdown entries one same =
      os_breakdown-scored lower order entries
      ∙ rw
          (
            sorted-scored entries one same 0,
            sorted-scored entries one same 1,
            sorted-scored entries one same 2,
            sorted-scored entries one same 3,
            sorted-scored entries one same 4,
          )
          refl
