-- ===== src/Access/Sharing/Shown.antt =====
-- Which assessments ListAssessments asks for, by the resources of the user.
use mathlib.Core.Path.{ap₂}
use migration_planner.Prelude.{
  ◌≡◌, refl, ap, ◌∙◌, String, Bool, true, false, not, ◌||◌, ◌&&◌, Option, none, some, List, [], ◌∷◌,
  map, reverse, filter, any, arith, str_eq,
}
use migration_planner.Access.Model.{AssessmentRow, AssessmentInventory, Resource}
use migration_planner.Access.Authz.{is_text_in}
use migration_planner.Access.Partner.{Uuids}
use migration_planner.Access.AssessmentStore.{is_listed}
use migration_planner.Access.Sharing.{parsed_ids}

abbrev pub without_subsets : AssessmentRow → AssessmentRow
without_subsets a = record {
  id = a.id;
  name = a.name;
  org_id = a.org_id;
  username = a.username;
  owner_first_name = a.owner_first_name;
  owner_last_name = a.owner_last_name;
  source_type = a.source_type;
  source_id = a.source_id;
  inventories = filter (λ (i : AssessmentInventory). not i.is_subset) a.inventories;
}

abbrev is_id : String → Option String → Bool
is_id id none = false
is_id id (some parsed) = str_eq id parsed

abbrev parses : Option String → Bool
parses none = false
parses (some id) = true

-- A resource has the id, or none has an id that parses.
abbrev pub is_shown : Uuids → List Resource → String → Bool
is_shown parse_uuid resources id =
    any (λ (r : Resource). is_id id (parse_uuid r.id)) resources
    || not (any (λ (r : Resource). parses (parse_uuid r.id)) resources)

-- The assessments that are asked for: none without a resource, else those whose id is one of the
-- parsed ids of the resources, or all of them where no id parses; the last of the table first.
abbrev pub shown : Uuids → List Resource → List AssessmentRow → List AssessmentRow
shown parse_uuid [] rows = []
shown parse_uuid (r ∷ rs) rows =
    map without_subsets (reverse (filter (λ a. is_shown parse_uuid (r ∷ rs) a.id) rows))

abbrev is_empty : List String → Bool
is_empty [] = true
is_empty (id ∷ ids) = false

is_listed_lem :
    (ids : List String) (id : String) → is_listed ids id ≡ is_text_in id ids || is_empty ids
is_listed_lem [] id = refl
is_listed_lem (i ∷ is) id = ground arith

abbrev add_parsed : Option String → List String → List String
add_parsed none ids = ids
add_parsed (some id) ids = id ∷ ids

is_text_in-add_parsed :
    (id : String) (parsed : Option String) (ids : List String)
    → is_text_in id (add_parsed parsed ids) ≡ is_id id parsed || is_text_in id ids
is_text_in-add_parsed id none ids = refl
is_text_in-add_parsed id (some i) ids = ground arith

is_empty-add_parsed :
    (parsed : Option String) (ids : List String)
    → is_empty (add_parsed parsed ids) ≡ not (parses parsed) && is_empty ids
is_empty-add_parsed none ids = refl
is_empty-add_parsed (some i) ids = refl

add_parsed_lem :
    (parsed : Option String) (ids : List String)
    → (elim parsed [ none ↦ ids | some id ↦ id ∷ ids ]) ≡ add_parsed parsed ids
add_parsed_lem none ids = refl
add_parsed_lem (some i) ids = refl

module _ (parse_uuid : Uuids) where
  is_text_in-parsed_ids :
      (resources : List Resource) (id : String)
      → is_text_in id (parsed_ids parse_uuid resources)
        ≡ any (λ (r : Resource). is_id id (parse_uuid r.id)) resources
  is_text_in-parsed_ids [] id = refl
  is_text_in-parsed_ids (r ∷ rs) id =
      ap (is_text_in id) (add_parsed_lem (parse_uuid r.id) (parsed_ids parse_uuid rs))
      ∙ is_text_in-add_parsed id (parse_uuid r.id) (parsed_ids parse_uuid rs)
      ∙ ap (λ b. is_id id (parse_uuid r.id) || b) (is_text_in-parsed_ids rs id)

  is_empty-parsed_ids :
      (resources : List Resource)
      → is_empty (parsed_ids parse_uuid resources)
        ≡ not (any (λ (r : Resource). parses (parse_uuid r.id)) resources)
  is_empty-parsed_ids [] = refl
  is_empty-parsed_ids (r ∷ rs) =
      ap is_empty (add_parsed_lem (parse_uuid r.id) (parsed_ids parse_uuid rs))
      ∙ is_empty-add_parsed (parse_uuid r.id) (parsed_ids parse_uuid rs)
      ∙ ground (arith, is_empty-parsed_ids rs)

  pub is_listed-parsed_ids :
      (resources : List Resource) (id : String)
      → is_listed (parsed_ids parse_uuid resources) id ≡ is_shown parse_uuid resources id
  is_listed-parsed_ids resources id =
      is_listed_lem (parsed_ids parse_uuid resources) id
      ∙ ap₂ (λ x y. x || y) (is_text_in-parsed_ids resources id) (is_empty-parsed_ids resources)
