-- ===== src/Access/AssessmentStore.antt =====
-- internal/store/assessment.go, with the reads of sources that an assessment is made from. `ilike`
-- is the pattern match of the database. The answer is the row itself, with its inventories, newest
-- first; the conversion of their content to and from JSON is left out. A list of assessments has
-- the newest first, so that it is the table, which is in the order of creation, reversed.
use migration_planner.Prelude.{
  String, Bool, true, not, ◌&&◌, ◌||◌, Option, none, some, List, [], ◌∷◌, ◌++◌, map, str_eq,
  if◌then◌else◌, any, filter, find, reverse,
}
use Prim.Native.String.{compare}
use text.Mathlib.Text.{is_lt}
use migration_planner.Access.Model.{
  AssessmentRow, AssessmentInventory, Source, SourceSubsetInventory, duplicate_key, db_error,
}
use migration_planner.Access.Store.{Result, ok, err, Db, M, ◌>>=◌, ◌>>◌, pure, statement, query}
use migration_planner.Access.Authz.{is_text_in}
use migration_planner.Access.Requests.{or_not_found}
use migration_planner.Access.Accounts.{or_old}

abbrev pub has_id : String → AssessmentRow → Bool
has_id id a = str_eq a.id id

unfoldable pub get_assessment_row : String → M AssessmentRow
get_assessment_row id = query (λ db. or_not_found (find (has_id id) db.assessments))

-- The primary key and the unique index on organization, user and name.
abbrev pub same_assessment : AssessmentRow → AssessmentRow → Bool
same_assessment a b =
    str_eq a.id b.id
    || str_eq a.org_id b.org_id && str_eq a.username b.username && str_eq a.name b.name

abbrev pub insert_assessment : AssessmentRow → Db → Result (Unit {0} × Db)
insert_assessment a db =
    if any (same_assessment a) db.assessments
    then err duplicate_key
    else ok (tt, record db { assessments = db.assessments ++ a ∷ [] })

unfoldable pub create_assessment_row : AssessmentRow → M AssessmentRow
create_assessment_row a = statement (insert_assessment a) >> get_assessment_row a.id

abbrev pub add_inventories : String → List AssessmentInventory → AssessmentRow → AssessmentRow
add_inventories id inventories a =
    if has_id id a then record a { inventories = inventories ++ a.inventories } else a

-- `if len(stored) > 0`
abbrev pub insert_inventories : String → List AssessmentInventory → M (Unit {0})
insert_inventories id [] = pure tt
insert_inventories id (i ∷ is) =
    statement
      λ db. ok (tt, record db { assessments = map (add_inventories id (i ∷ is)) db.assessments })

abbrev pub new_name : AssessmentRow → Option String → String
new_name a none = a.name
new_name a (some name) = name

-- Another assessment of the same user has the name.
abbrev pub name_clashes : AssessmentRow → String → List AssessmentRow → Bool
name_clashes a name rows =
    any (λ b. not (has_id a.id b) && same_assessment (record a { name = name }) b) rows

-- `Updates` writes the fields that are not empty.
abbrev pub rename : AssessmentRow → String → Db → Result (Unit {0} × Db)
rename a name db =
    if name_clashes a (or_old a.name name) db.assessments
    then err db_error
    else ok (
      tt,
      record db {
        assessments =
            map (λ b. if has_id a.id b then record b { name = or_old b.name name } else b)
              db.assessments;
      },
    )

unfoldable pub update_assessment_row :
    String → Option String → List AssessmentInventory → M AssessmentRow
update_assessment_row id name inventories = do
  a ← get_assessment_row id
  insert_inventories id inventories
  statement (rename a (new_name a name))
  pure (record a { name = new_name a name })

unfoldable pub delete_assessment_row : String → M (Unit {0})
delete_assessment_row id =
    statement
      λ db. ok (tt, record db { assessments = filter (λ a. not (has_id id a)) db.assessments })

abbrev pub get_source : String → M Source
get_source id = query (λ db. or_not_found (find (λ (s : Source). str_eq s.id id) db.sources))

abbrev pub put_by_id :
    SourceSubsetInventory → List SourceSubsetInventory → List SourceSubsetInventory
put_by_id s [] = s ∷ []
put_by_id s (t ∷ ts) =
    let rest = put_by_id s ts in if is_lt (compare t.id s.id) then t ∷ rest else s ∷ t ∷ ts

-- ORDER BY id; the ids of two rows differ.
abbrev pub sort_by_id : List SourceSubsetInventory → List SourceSubsetInventory
sort_by_id [] = []
sort_by_id (s ∷ ss) = put_by_id s (sort_by_id ss)

abbrev pub list_source_subsets : String → M (List SourceSubsetInventory)
list_source_subsets source_id = query λ db. ok (
    sort_by_id
      (filter (λ (s : SourceSubsetInventory). str_eq s.source_id source_id) db.source_subsets))

pub record AssessmentFilter : Type 0 where
  pub source : String
  pub source_id : String
  pub name_like : String
  pub ids : List String

abbrev pub has_source : String → Option String → Bool
has_source id none = str_eq id ""
has_source id (some source_id) = str_eq id "" || str_eq source_id id

abbrev pub is_listed : List String → String → Bool
is_listed [] id = true
is_listed (i ∷ is) id = is_text_in id (i ∷ is)

-- Each condition is asked only where the filter has it.
abbrev pub passes : (String → String → Bool) → AssessmentFilter → AssessmentRow → Bool
passes ilike f a =
    is_listed f.ids a.id
    && (str_eq f.source "" || str_eq a.source_type f.source)
    && has_source f.source_id a.source_id
    && (str_eq f.name_like "" || ilike f.name_like a.name)

-- The inventories that are loaded with the rows of a list.
abbrev pub preloaded : AssessmentRow → AssessmentRow
preloaded a = record a {
  inventories = filter (λ (i : AssessmentInventory). not i.is_subset) a.inventories;
}

unfoldable pub list_assessment_rows :
    (String → String → Bool) → AssessmentFilter → M (List AssessmentRow)
list_assessment_rows ilike f =
    query λ db. ok (map preloaded (reverse (filter (passes ilike f) db.assessments)))
