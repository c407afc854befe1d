-- ===== src/Complexity.antt =====
-- pkg/estimations/complexity/complexity.go: how hard the migration of an inventory is.
--
-- `order` is the order in which `range` visits OSDifficultyScores, which Go leaves open; `lower` is
-- strings.ToLower. VM counts are 64-bit patterns.
pub mod Tables
pub mod Scores
pub mod Counts
pub mod Tiers
pub mod Names
mod Scenarios
use Prim.Native.String.{find, len, compare}
use text.Mathlib.Text.{is_lt}
use migration_planner.Prelude.{
  ℕ, suc, String, Bool, Option, none, some, List, [], ◌∷◌, map, leb, ltb, ◌==◌, if◌then◌else◌,
  add64, Dict, lookup, insert,
}
use migration_planner.Complexity.Tables.{
  Score, os_scores, disk_scores, disk_size_scores, complexity_matrix,
}

-- strings.Contains
unfoldable pub contains : String → String → Bool
contains s sub = leb (find s sub) (len s)

-- inner, ok := m[k], for a map keyed by scores.
abbrev pub at_score {ℓ} : {A : Type ℓ} → Score → List (Score × A) → Option A
at_score s [] = none
at_score s ((t, a) ∷ rest) = if t == s then some a else at_score s rest

abbrev pub or_zero : Option Score → Score
or_zero none = 0
or_zero (some s) = s

unfoldable pub combine_complexity : Score → Score → Score
combine_complexity os_score disk_score = elim (at_score os_score complexity_matrix) [
  | none ↦ 0
  | some inner ↦ or_zero (at_score disk_score inner)
]

-- `strings.Contains(normalized, strings.ToLower(keyword))`
abbrev pub is_match : (String → String) → String → String × Score → Bool
is_match lower os_name (keyword, score) = contains (lower os_name) (lower keyword)

unfoldable pub classify_os : (String → String) → List (String × Score) → String → Score
classify_os lower [] os_name = 0
classify_os lower ((keyword, score) ∷ rest) os_name =
    if is_match lower os_name (keyword, score) then score else classify_os lower rest os_name

unfoldable pub score_disk_tier_label : String → Score
score_disk_tier_label label = or_zero (lookup label disk_size_scores)

pub record VmOsEntry : Type 0 where
  pub name : String
  pub count : ℕ

pub record OsDifficultyEntry : Type 0 where
  pub score : Score
  pub vm_count : ℕ

-- `counts[ClassifyOS(entry.Name)] += entry.Count`, where an absent score counts 0.
abbrev pub add_count : Score → ℕ → (Score → ℕ) → Score → ℕ
add_count s n counts t = if t == s then add64 (counts t) n else counts t

module _ (lower : String → String) (order : List (String × Score)) where
  abbrev pub count_os : (Score → ℕ) → List VmOsEntry → Score → ℕ
  count_os counts [] = counts
  count_os counts (e ∷ es) = count_os (add_count (classify_os lower order e.name) e.count counts) es

  unfoldable pub os_breakdown : List VmOsEntry → List OsDifficultyEntry
  os_breakdown entries =
      let counts = count_os (λ _. 0) entries in
      map (λ s. record { score = s; vm_count = counts s }) os_scores

  unfoldable pub os_ratings : List VmOsEntry → Dict Score
  os_ratings entries = rate [] entries
    where
      rate : Dict Score → List VmOsEntry → Dict Score
      rate m [] = m
      rate m (e ∷ es) = rate (insert e.name (classify_os lower order e.name) m) es

pub record OsNameEntry : Type 0 where
  pub name : String
  pub score : Score
  pub vm_count : ℕ

-- The order of the rows; Go compares strings by their bytes.
abbrev pub name_before : OsNameEntry → OsNameEntry → Bool
name_before a b = if a.score == b.score then is_lt (compare a.name b.name) else ltb a.score b.score

-- `sort` is sort.Slice, and `orders` gives the order in which each call of ClassifyOS visits the
-- map, which Go draws anew for every call.
module _ (lower : String → String) (orders : ℕ → List (String × Score))
    (sort : (OsNameEntry → OsNameEntry → Bool) → List OsNameEntry → List OsNameEntry) where
  abbrev pub name_entry : ℕ → VmOsEntry → OsNameEntry
  name_entry call e = record {
    name = e.name;
    score = classify_os lower (orders call) e.name;
    vm_count = e.count;
  }

  abbrev pub name_entries : ℕ → List VmOsEntry → List OsNameEntry
  name_entries call [] = []
  name_entries call (e ∷ es) = name_entry call e ∷ name_entries (suc call) es

  unfoldable pub os_name_breakdown : List VmOsEntry → List OsNameEntry
  os_name_breakdown entries = sort name_before (name_entries 0 entries)

-- The sizes are `float64`, of which only the zero is used.
pub record DiskTierInput (Float : Type 0) : Type 0 where
  pub label : String
  pub vm_count : ℕ
  pub total_size_tb : Float

pub record DiskComplexityEntry (Float : Type 0) : Type 0 where
  pub score : Score
  pub vm_count : ℕ
  pub total_size_tb : Float

module _ {Float : Type 0} where
  -- `byScore[s] = t`
  abbrev pub put_tier :
      Score → DiskTierInput Float → (Score → DiskTierInput Float) → Score → DiskTierInput Float
  put_tier s t tiers u = if u == s then t else tiers u

  abbrev pub by_score :
      (Score → DiskTierInput Float) → List (DiskTierInput Float) → Score → DiskTierInput Float
  by_score found [] = found
  by_score found (t ∷ ts) =
      by_score
        (if score_disk_tier_label t.label == 0
          then found
          else put_tier (score_disk_tier_label t.label) t found)
        ts

  abbrev pub disk_entry : DiskTierInput Float → Score → DiskComplexityEntry Float
  disk_entry t s = record { score = s; vm_count = t.vm_count; total_size_tb = t.total_size_tb }

  abbrev pub no_tier : Float → DiskTierInput Float
  no_tier zero_size = record { label = ""; vm_count = 0; total_size_tb = zero_size }

  unfoldable pub disk_breakdown :
      Float → List (DiskTierInput Float) → List (DiskComplexityEntry Float)
  disk_breakdown zero_size tiers =
      map (λ s. disk_entry (by_score (λ _. no_tier zero_size) tiers s) s) disk_scores
