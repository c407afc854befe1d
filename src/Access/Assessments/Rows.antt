-- ===== src/Access/Assessments/Rows.antt =====
-- The row that the store creates for an assessment.
use migration_planner.Prelude.{
  ◌≡◌, sym, ap, ◌∙◌, false, some, List, [], ◌∷◌, ◌++◌, arith, eq_iff, any, find,
}
use text.Mathlib.TextPositions.{eq_refl}
use migration_planner.Access.Model.{AssessmentRow}
use migration_planner.Access.Store.{ok, Db, World, statement, >>=_ok}
use migration_planner.Access.Store.Effects.{Reads-query}
use migration_planner.Access.Requests.{or_not_found}
use migration_planner.Access.Assessments.Shares.{or_not_found-some}
use migration_planner.Access.AssessmentStore.{
  has_id, same_assessment, insert_assessment, create_assessment_row, get_assessment_row,
}

some_injective : {A : Type 0} (x y : A) → some x ≡ some y → x ≡ y
some_injective x y h = ground arith

insert_ok :
    (a : AssessmentRow) (w : World) (r : Unit {0})
    → (statement (insert_assessment a) w).0 ≡ ok r
    → (any (same_assessment a) w.db.assessments ≡ false)
      × ((statement (insert_assessment a) w).1.db
          ≡ record w.db { assessments = w.db.assessments ++ a ∷ [] })
unfolding statement
insert_ok a w r h = ground arith

find-append_fresh :
    (a : AssessmentRow) (rows : List AssessmentRow)
    → any (same_assessment a) rows ≡ false
    → find (has_id a.id) (rows ++ a ∷ []) ≡ some a
find-append_fresh a [] h = ground (arith, eq_refl a.id)
find-append_fresh a (r ∷ rows) h =
    ground (arith, find-append_fresh a rows, eq_iff a.id r.id, eq_iff r.id a.id)

-- The row is new, and is the one that is read back.
pub create_assessment_row_ok :
    (a : AssessmentRow) (w : World) (b : AssessmentRow)
    → (create_assessment_row a w).0 ≡ ok b
    → (b ≡ a)
      × (any (same_assessment a) w.db.assessments ≡ false)
      × ((create_assessment_row a w).1.db
          ≡ record w.db { assessments = w.db.assessments ++ a ∷ [] })
unfolding create_assessment_row get_assessment_row
create_assessment_row_ok a w b h =
    let (r, inserted, next) =
      >>=_ok (statement (insert_assessment a)) (λ _. get_assessment_row a.id) w b h in
    let w₁ = (statement (insert_assessment a) w).1 in
    let (fresh, after) = insert_ok a w r inserted in
    let (same, read) = Reads-query (λ db. or_not_found (find (has_id a.id) db.assessments)) w₁ in
    let found = or_not_found-some _ b (read b (ap (λ o. o.0) (sym next) ∙ h)) in
    (
      some_injective b a (
          sym found
          ∙ ap (λ (db : Db). find (has_id a.id) db.assessments) after
          ∙ find-append_fresh a w.db.assessments fresh),
      fresh,
      ap (λ o. o.1.db) next ∙ same ∙ after,
    )
