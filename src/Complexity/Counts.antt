-- ===== src/Complexity/Counts.antt =====
-- The breakdowns, against a direct description of each row.
use migration_planner.Prelude.{
  ℕ, String, ◌≡◌, ap, ◌∙◌, inl, inr, false, List, [], ◌∷◌, map, ◌==◌, ◌≤◌, ◌<◌, arith, any, filter,
  if◌then◌else◌, add64, modulus, total, total-lt, ltb, Bool-cases,
}
use migration_planner.Complexity.Tables.{Score, os_scores}
use migration_planner.Complexity.{
  classify_os, VmOsEntry, OsDifficultyEntry, add_count, count_os, os_breakdown,
}

abbrev pub count_of : VmOsEntry → ℕ
count_of e = e.count

abbrev pub vm_count_of : OsDifficultyEntry → ℕ
vm_count_of e = e.vm_count

classify_os-≤ :
    (lower : String → String) (order : List (String × Score)) (os_name : String)
    → any (λ (e : String × Score). ltb 4 e.1) order ≡ false
    → classify_os lower order os_name ≤ 4
unfolding classify_os
classify_os-≤ lower [] os_name h = ground arith
classify_os-≤ lower ((k, s) ∷ rest) os_name h = ground (arith, classify_os-≤ lower rest os_name)

-- One of five sums grows.
one_more :
    (c n a₀ a₁ a₂ a₃ a₄ sum : ℕ)
    → c ≤ 4
    → add64 a₀ (add64 a₁ (add64 a₂ (add64 a₃ (add64 a₄ 0)))) ≡ sum
    → add64 (if 0 == c then add64 n a₀ else a₀) (
        add64 (if 1 == c then add64 n a₁ else a₁) (
          add64 (if 2 == c then add64 n a₂ else a₂) (
            add64
              (if 3 == c then add64 n a₃ else a₃)
              (add64 (if 4 == c then add64 n a₄ else a₄) 0))))
      ≡ add64 n sum
one_more c n a₀ a₁ a₂ a₃ a₄ sum h k = ground arith

module _ (lower : String → String) (order : List (String × Score)) where
  -- The VMs of the entries that the classification gives the score.
  unfoldable pub vms_scored : List VmOsEntry → Score → ℕ
  vms_scored entries s =
      total (map count_of (filter (λ e. s == classify_os lower order e.name) entries))

  count_os-scored :
      (counts : Score → ℕ) (entries : List VmOsEntry) (s : Score)
      → counts s < modulus
      → count_os lower order counts entries s ≡ add64 (counts s) (vms_scored entries s)
  unfolding vms_scored
  count_os-scored counts [] s h = ground arith
  count_os-scored counts (e ∷ es) s h =
      let c = classify_os lower order e.name in
      let rest = count_os-scored (add_count c e.count counts) es s in
      elim (Bool-cases (s == c)) [
        | inl here ↦ ground (arith, rest (ground arith))
        | inr there ↦ ground (arith, rest (ground arith))
      ]

  unfoldable pub scored_entry : List VmOsEntry → Score → OsDifficultyEntry
  scored_entry entries s = record { score = s; vm_count = vms_scored entries s }

  fresh_count :
      (entries : List VmOsEntry) (s : Score)
      → count_os lower order (λ _. 0) entries s ≡ vms_scored entries s
  unfolding vms_scored
  fresh_count entries s =
      let all =
        total-lt (map count_of (filter (λ e. s == classify_os lower order e.name) entries)) in
      ground (arith, count_os-scored (λ _. 0) entries s)

  -- The one pass of OSBreakdown gives, for each of the five scores in their order, the VMs of the
  -- entries that the classification gives that score.
  pub os_breakdown-scored :
      (entries : List VmOsEntry)
      → os_breakdown lower order entries ≡ map (scored_entry entries) os_scores
  unfolding os_breakdown scored_entry
  os_breakdown-scored entries = rw (
    fresh_count entries 0,
    fresh_count entries 1,
    fresh_count entries 2,
    fresh_count entries 3,
    fresh_count entries 4,
  )

  vms_scored-cons :
      (e : VmOsEntry) (es : List VmOsEntry) (s : Score)
      → vms_scored (e ∷ es) s ≡ (
          if s == classify_os lower order e.name
          then add64 e.count (vms_scored es s)
          else vms_scored es s)
  unfolding vms_scored
  vms_scored-cons e es s = ground arith

  scores_add :
      (entries : List VmOsEntry)
      → any (λ (e : String × Score). ltb 4 e.1) order ≡ false
      → total (map (vms_scored entries) os_scores) ≡ total (map count_of entries)
  unfolding vms_scored
  scores_add [] h = ground arith
  scores_add (e ∷ es) h =
      let bound = classify_os-≤ lower order e.name h in
      rw
        (
          vms_scored-cons e es 0,
          vms_scored-cons e es 1,
          vms_scored-cons e es 2,
          vms_scored-cons e es 3,
          vms_scored-cons e es 4,
        )
        (one_more (classify_os lower order e.name) e.count (vms_scored es 0) (vms_scored es 1)
          (vms_scored es 2) (vms_scored es 3) (vms_scored es 4) (total (map count_of es)) bound
          (scores_add es h))

  -- The breakdown loses no VM: its rows add up to what the entries add up to, wrap-around
  -- included, where the table holds no score above 4.
  pub os_breakdown-total :
      (entries : List VmOsEntry)
      → any (λ (e : String × Score). ltb 4 e.1) order ≡ false
      → total (map vm_count_of (os_breakdown lower order entries)) ≡ total (map count_of entries)
  unfolding scored_entry
  os_breakdown-total entries h =
      ap (λ rows. total (map vm_count_of rows)) (os_breakdown-scored entries) ∙ scores_add entries h
