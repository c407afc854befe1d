-- ===== src/Sources/Store/SourceRows.antt =====
-- internal/store/source.go and label.go. GORM's `Updates` writes the fields that are not empty. The
-- reads that `Preload` makes for a source are one query.
use migration_planner.Prelude.{
  String, Bool, not, ◌&&◌, ◌||◌, Option, none, some, List, [], ◌∷◌, ◌++◌, map, str_eq,
  if◌then◌else◌, any, filter, find,
}
use migration_planner.Access.Model.{
  Source, Agent, ImageInfra, Label, AssessmentRow, record_not_found, duplicate_key, db_error,
}
use migration_planner.Access.Store.{Result, ok, err, Db, M, ◌>>◌, pure, statement, query}
use migration_planner.Access.Accounts.{or_old}
use migration_planner.Sources.Store.Tests.{has_source_id, agent_of, subset_of, image_of, label_of}

-- A source with what is preloaded.
pub record LoadedSource : Type 0 where
  pub source : Source
  pub agents : List Agent
  pub image_infra : Option ImageInfra

abbrev pub load : Db → Source → LoadedSource
load db s = record {
  source = s;
  agents = filter (agent_of s.id) db.agents;
  image_infra = find (image_of s.id) db.image_infras;
}

abbrev pub loaded : Db → Option Source → Result LoadedSource
loaded db none = err record_not_found
loaded db (some s) = ok (load db s)

unfoldable pub get_source : String → M LoadedSource
get_source id = query (λ db. loaded db (find (has_source_id id) db.sources))

unfoldable pub list_sources : String → String → M (List Source)
list_sources username org_id =
    query λ db. ok (filter (λ s. str_eq s.username username && str_eq s.org_id org_id) db.sources)

-- The primary key and the unique index on organization, user and name.
abbrev pub same_owned_name : Source → Source → Bool
same_owned_name a b =
    str_eq a.org_id b.org_id && str_eq a.username b.username && str_eq a.name b.name

abbrev pub same_source : Source → Source → Bool
same_source a b = str_eq a.id b.id || same_owned_name a b

abbrev pub insert_source : Source → Db → Result (Unit {0} × Db)
insert_source s db =
    if any (same_source s) db.sources
    then err duplicate_key
    else ok (tt, record db { sources = db.sources ++ s ∷ [] })

-- A label under another key of the source, or under the same.
abbrev pub same_label : Label → Label → Bool
same_label a b = str_eq a.key b.key && str_eq a.source_id b.source_id

abbrev pub insert_label : Label → Db → Result (Unit {0} × Db)
insert_label l db =
    if any (same_label l) db.labels
    then err db_error
    else ok (tt, record db { labels = db.labels ++ l ∷ [] })

unfoldable pub create_labels : List Label → M (Unit {0})
create_labels [] = pure tt
create_labels (l ∷ ls) = statement (insert_label l) >> create_labels ls

unfoldable pub create_source_row : Source → List Label → M (Unit {0})
unfolding create_labels
create_source_row s labels = statement (insert_source s) >> create_labels labels

-- DELETE, with the cascades, and the assessments that lose their source.
abbrev pub without_source : String → AssessmentRow → AssessmentRow
without_source id a = elim (a.source_id) [
  | none ↦ a
  | some source_id ↦ if str_eq source_id id then record a { source_id = none } else a
]

unfoldable pub delete_source_row : String → M (Unit {0})
delete_source_row id = statement λ db. ok (
  tt,
  record db {
    sources = filter (λ s. not (has_source_id id s)) db.sources;
    source_subsets = filter (λ s. not (subset_of id s)) db.source_subsets;
    agents = filter (λ a. not (agent_of id a)) db.agents;
    image_infras = filter (λ i. not (image_of id i)) db.image_infras;
    labels = filter (λ l. not (label_of id l)) db.labels;
    assessments = map (without_source id) db.assessments;
  },
)

abbrev pub or_else {ℓ} : {A : Type ℓ} → Option A → Option A → Option A
or_else none b = b
or_else (some a) b = some a

abbrev pub written_source : Source → Source → Source
written_source s old =
    if has_source_id s.id old
    then record {
      id = old.id;
      name = or_old old.name s.name;
      vcenter_id = or_old old.vcenter_id s.vcenter_id;
      username = or_old old.username s.username;
      org_id = or_old old.org_id s.org_id;
      inventory = or_else s.inventory old.inventory;
      on_premises = s.on_premises || old.on_premises;
      update_type = or_old old.update_type s.update_type;
      email_domain = or_else s.email_domain old.email_domain;
    }
    else old

-- Another source of the same user has the name.
abbrev pub source_clashes : Source → List Source → Bool
source_clashes s rows = any (λ r. not (has_source_id s.id r) && same_owned_name s r) rows

-- The row as it is written is returned, or the one given where there is none.
abbrev pub write_source : Source → Db → Result (Source × Db)
write_source s db =
    let rows = map (written_source s) db.sources in
    if source_clashes s db.sources then err db_error else elim (find (has_source_id s.id) rows) [
      | none ↦ ok (s, db)
      | some row ↦ ok (row, record db { sources = rows })
    ]

unfoldable pub update_source_row : Source → M Source
update_source_row s = statement (write_source s)

abbrev pub delete_labels_of : String → M (Unit {0})
delete_labels_of source_id =
    statement
      λ db. ok (tt, record db { labels = filter (λ l. not (label_of source_id l)) db.labels })

unfoldable pub update_labels : String → List Label → M (Unit {0})
unfolding create_labels
update_labels source_id labels =
    delete_labels_of source_id
    >> create_labels (map (λ (l : Label). record l { source_id = source_id }) labels)
