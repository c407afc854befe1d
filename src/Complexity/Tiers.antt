-- ===== src/Complexity/Tiers.antt =====
-- The disk breakdown, against a direct description of each row.
use migration_planner.Prelude.{
  ◌≡◌, refl, Option, none, some, List, [], ◌∷◌, map, ◌==◌, ◌≤◌, arith, if◌then◌else◌,
}
use migration_planner.Complexity.Tables.{Score, disk_scores}
use migration_planner.Complexity.{
  score_disk_tier_label, DiskTierInput, DiskComplexityEntry, put_tier, by_score, no_tier,
  disk_entry, disk_breakdown,
}

or_else : {A : Type 0} → A → Option A → A
or_else a none = a
or_else a (some b) = b

module _ {Float : Type 0} where
  -- The last tier whose label has the score.
  pub last_tier : Score → List (DiskTierInput Float) → Option (DiskTierInput Float)
  last_tier s [] = none
  last_tier s (t ∷ ts) =
      let later = last_tier s ts in
      elim later [
        | none ↦ if s == score_disk_tier_label t.label then some t else none
        | some u ↦ some u
      ]

  by_score-last :
      (found : Score → DiskTierInput Float) (tiers : List (DiskTierInput Float)) (s : Score)
      → 1 ≤ s
      → by_score found tiers s ≡ or_else (found s) (last_tier s tiers)
  unfolding last_tier or_else
  by_score-last found [] s h = refl
  by_score-last found (t ∷ ts) s h = ground (
    arith,
    by_score-last found ts s,
    by_score-last (put_tier (score_disk_tier_label t.label) t found) ts s,
  )

  -- The row of a score: what the last tier with that score has, or nothing.
  pub tier_row : Float → List (DiskTierInput Float) → Score → DiskComplexityEntry Float
  unfolding last_tier or_else
  tier_row zero_size tiers s = disk_entry (or_else (no_tier zero_size) (last_tier s tiers)) s

  -- DiskBreakdown has a row for each of the four scores in their order: the count and the size of
  -- the last tier whose label has the score, or zero where no tier has it. Of two tiers with one
  -- score the earlier is dropped, and tiers with an unknown label are.
  disk_breakdown-last :
      (zero_size : Float) (tiers : List (DiskTierInput Float))
      → disk_breakdown zero_size tiers ≡ map (tier_row zero_size tiers) disk_scores
  unfolding disk_breakdown tier_row
  disk_breakdown-last zero_size tiers =
      let row = by_score-last (λ _. no_tier zero_size) tiers in
      rw (row 1 (omega arith), row 2 (omega arith), row 3 (omega arith), row 4 (omega arith))
