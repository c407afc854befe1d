-- ===== src/Access/Assessments/Snapshots.antt =====
-- The inventories that CreateAssessment of the service makes from a source.
use mathlib.Core.Path.{subst}
use mathlib.Core.List.{Permᴰ}
use migration_planner.Prelude.{
  ℕ, suc, ◌≡◌, refl, sym, ap, ◌∙◌, String, Bool, true, false, Option, none, some, List, [], ◌∷◌,
  arith, if◌then◌else◌,
}
use Prim.Native.String.{compare}
use text.Mathlib.Text.{is_lt}
use migration_planner.Access.Model.{AssessmentInventory, SourceSubsetInventory}
use migration_planner.Access.Store.{ok, ok_injective, World, ◌>>=◌, pure, >>=_ok}
use migration_planner.Access.AssessmentStore.{put_by_id, sort_by_id}
use migration_planner.Access.Assessments.{Parser, snapshot_of, subset_snapshots}

abbrev pub snapshot : String → String → Bool → ℕ → AssessmentInventory
snapshot id name is_subset count = record {
  id = id;
  name = name;
  is_subset = is_subset;
  vms_count = count;
}

pub snapshot_of_ok :
    (id name : String) (is_subset : Bool) (parsed : Option ℕ) (w : World) (i : AssessmentInventory)
    → (snapshot_of id name is_subset parsed w).0 ≡ ok i
    → (count : ℕ) × (parsed ≡ some count) × (i ≡ snapshot id name is_subset count)
snapshot_of_ok id name is_subset none w i h = ground arith
snapshot_of_ok id name is_subset (some count) w i h = (count, refl, sym (ok_injective _ i h))

-- The inventories of the subsets: one of each, with the ids from the given number on, its name, and
-- the number of virtual machines of its inventory.
pub data Snapshots (new_ids : ℕ → String) (parse : Parser)
    : ℕ → List SourceSubsetInventory → List AssessmentInventory → Type 0 where
  no_subsets : {n : ℕ} → Snapshots new_ids parse n [] []
  of_subset :
      {n count : ℕ} {s : SourceSubsetInventory} {rows : List SourceSubsetInventory}
      {inventories : List AssessmentInventory}
      → parse s.inventory ≡ some count
      → Snapshots new_ids parse (suc n) rows inventories
      → Snapshots new_ids parse n (s ∷ rows) (
          record { id = new_ids n; name = s.name; is_subset = true; vms_count = count }
          ∷ inventories)

module _ (new_ids : ℕ → String) (parse : Parser) where
  pub subset_snapshots-Snapshots :
      (n : ℕ) (rows : List SourceSubsetInventory) (w : World)
      (inventories : List AssessmentInventory)
      → (subset_snapshots new_ids parse n rows w).0 ≡ ok inventories
      → Snapshots new_ids parse n rows inventories
  subset_snapshots-Snapshots n [] w inventories h =
      subst (Snapshots new_ids parse n []) (ok_injective [] inventories h) Snapshots.no_subsets
  subset_snapshots-Snapshots n (s ∷ rest) w inventories h =
      let this = snapshot_of (new_ids n) s.name true (parse s.inventory) in
      let others = subset_snapshots new_ids parse (suc n) rest in
      let (i, made, next) = >>=_ok this (λ i. others >>= λ is. pure (i ∷ is)) w inventories h in
      let w₁ = (this w).1 in
      let h₁ = ap (λ o. o.0) (sym next) ∙ h in
      let (is, ran, last) = >>=_ok others (λ is. pure (i ∷ is)) w₁ inventories h₁ in
      let (count, parsed, one) =
        snapshot_of_ok (new_ids n) s.name true (parse s.inventory) w i made in
      let all : snapshot (new_ids n) s.name true count ∷ is ≡ inventories =
        ap (λ x. x ∷ is) (sym one)
        ∙ ok_injective (i ∷ is) inventories (ap (λ o. o.0) (sym last) ∙ h₁) in
      subst (Snapshots new_ids parse n (s ∷ rest)) all
        (Snapshots.of_subset parsed (subset_snapshots-Snapshots (suc n) rest w₁ is ran))

same_rows : (rows : List SourceSubsetInventory) → Permᴰ rows rows
same_rows [] = Permᴰ.nil
same_rows (s ∷ ss) = Permᴰ.cons refl (same_rows ss)

placed_rows :
    (before : Bool) (s t : SourceSubsetInventory) (ts rest : List SourceSubsetInventory)
    → Permᴰ (s ∷ ts) rest
    → Permᴰ (s ∷ t ∷ ts) (if before then t ∷ rest else s ∷ t ∷ ts)
placed_rows true s t ts rest h = Permᴰ.trans (Permᴰ.swap refl refl) (Permᴰ.cons refl h)
placed_rows false s t ts rest h = same_rows (s ∷ t ∷ ts)

put_by_id-Perm :
    (s : SourceSubsetInventory) (rows : List SourceSubsetInventory)
    → Permᴰ (s ∷ rows) (put_by_id s rows)
put_by_id-Perm s [] = same_rows (s ∷ [])
put_by_id-Perm s (t ∷ ts) =
    placed_rows (is_lt (compare t.id s.id)) s t ts (put_by_id s ts) (put_by_id-Perm s ts)

-- The rows sorted are the rows in some order.
pub sort_by_id-Perm : (rows : List SourceSubsetInventory) → Permᴰ rows (sort_by_id rows)
sort_by_id-Perm [] = same_rows []
sort_by_id-Perm (s ∷ ss) =
    Permᴰ.trans (Permᴰ.cons refl (sort_by_id-Perm ss)) (put_by_id-Perm s (sort_by_id ss))
