-- ===== src/Access/Sharing.antt =====
-- internal/service/authz_assessment.go: who may call what of the assessment service, and what an
-- answer says of the sharing. `parse_uuid` is uuid.Parse followed by String.
mod Scenarios
pub mod Permitted
pub mod Shown
pub mod Listing
pub mod Reading
pub mod Failures
pub mod Creation
pub mod Removal
pub mod Shares
use migration_planner.Prelude.{
  ℕ, String, Bool, true, false, not, ◌||◌, Option, none, some, List, [], ◌∷◌, str_eq, str_append,
  if◌then◌else◌, filter, Dict, lookup, insert,
}
use migration_planner.Access.Model.{
  User, AssessmentRow, Relationship, Resource, Permission, read_permission, edit_permission,
  share_permission, delete_permission, assessment_resource, org_subject, user_subject, SubjectType,
  owner_relation, same_relation, same_permission, is_in, new_assessment_resource, new_user_subject,
  forbidden, unparsed_uuid,
}
use migration_planner.Access.Store.{M, ◌>>=◌, ◌>>◌, pure, throw, transaction}
use migration_planner.Access.Authz.{
  with, write_relationships, delete_relationships, list_relationships, list_bulk_relationship,
  get_permissions, list_resources,
}
use migration_planner.Access.Requests.{get_group}
use migration_planner.Access.Identity.{IdentityKind, regular, partner, same_kind, get_identity}
use migration_planner.Access.Partner.{Uuids}
use migration_planner.Access.AssessmentStore.{AssessmentFilter}
use migration_planner.Access.Assessments
use migration_planner.Access.Assessments.{Parser}

pub record SharingSubject : Type 0 where
  pub type : String
  pub id : String
  pub name : String

pub record Sharing : Type 0 where
  pub is_shared : Bool
  pub shared_with : List SharingSubject
  pub shared_by : Option SharingSubject

-- An assessment as it is answered.
pub record Assessment : Type 0 where
  pub row : AssessmentRow
  pub permissions : List Permission
  pub sharing : Sharing

-- string(r.Subject.Kind)
abbrev pub kind_name : SubjectType → String
kind_name user_subject = "user"
kind_name org_subject = "org"

abbrev pub group_subject : String → Option String → M SharingSubject
group_subject id none = throw unparsed_uuid
group_subject id (some group_id) = do
  group ← get_group group_id
  pure (record { type = "group"; id = id; name = group.name })

abbrev pub sharing_subject : Uuids → SubjectType → String → M SharingSubject
sharing_subject parse_uuid org_subject id = group_subject id (parse_uuid id)
sharing_subject parse_uuid user_subject id =
    pure (record { type = kind_name user_subject; id = id; name = id })

-- The loop over the relations of the assessment.
abbrev pub shared_subjects : Uuids → List Relationship → M (List SharingSubject)
shared_subjects parse_uuid [] = pure []
shared_subjects parse_uuid (r ∷ rs) =
    let rest = shared_subjects parse_uuid rs in
    if same_relation r.relation owner_relation
    then rest
    else sharing_subject parse_uuid r.subject.kind r.subject.id >>= λ subject.
        rest >>= λ subjects. pure (subject ∷ subjects)

-- `len(shared) > 0`
abbrev pub is_nonempty : List SharingSubject → Bool
is_nonempty [] = false
is_nonempty (s ∷ ss) = true

unfoldable pub build_owner_sharing : Uuids → List Relationship → M Sharing
build_owner_sharing parse_uuid rels = do
  shared ← shared_subjects parse_uuid rels
  pure (record { is_shared = is_nonempty shared; shared_with = shared; shared_by = none })

abbrev pub build_viewer_sharing : String → String → Sharing
build_viewer_sharing owner_name owner_username = record {
  is_shared = true;
  shared_with = [];
  shared_by = some (record { type = "username"; id = owner_username; name = owner_name });
}

abbrev pub full_name : Option String → Option String → String
full_name (some first) (some last) = str_append first (str_append " " last)
full_name _ _ = ""

-- slices.DeleteFunc: an owner sees no edit permission, and none to share without a partner.
abbrev pub owner_permissions : IdentityKind → List Permission → List Permission
owner_permissions kind perms =
    filter
      (λ p. not (
        if same_kind kind regular || same_kind kind partner
        then same_permission p share_permission || same_permission p edit_permission
        else same_permission p edit_permission))
      perms

abbrev pub viewed : AssessmentRow → List Permission → Assessment
viewed a perms = record {
  row = a;
  permissions = perms;
  sharing = build_viewer_sharing (full_name a.owner_first_name a.owner_last_name) a.username;
}

abbrev pub owner_answer : IdentityKind → AssessmentRow → List Permission → Sharing → M Assessment
owner_answer kind a perms sharing =
    pure (record { row = a; permissions = owner_permissions kind perms; sharing = sharing })

abbrev pub owned : Uuids → User → AssessmentRow → List Permission → M Assessment
owned parse_uuid user a perms = do
  rels ← list_relationships (new_assessment_resource a.id)
  sharing ← build_owner_sharing parse_uuid rels
  identity ← get_identity user
  owner_answer identity.kind a perms sharing

-- The look for the assessment, which tells of a missing one first, and the check of a permission.
abbrev pub require_permission :
    {A : Type 0} → Permission → User → String → (AssessmentRow → List Permission → M A) → M A
require_permission p user id inner = do
  a ← Assessments.get_assessment id
  resource ← get_permissions user.username (new_assessment_resource id)
  if is_in p resource.permissions then inner a resource.permissions else throw forbidden

unfoldable pub get_assessment : Uuids → User → String → M Assessment
get_assessment parse_uuid user id = require_permission read_permission user id λ a perms.
    if str_eq a.username user.username then owned parse_uuid user a perms else pure (viewed a perms)

abbrev pub create_body : (ℕ → String) → Parser → User → AssessmentRow → M AssessmentRow
create_body new_ids parse user form = do
  a ← Assessments.create_assessment true new_ids parse form
  write_relationships
      (with [] (new_assessment_resource a.id) owner_relation (new_user_subject user.username))
  pure a

-- The inner method finds the transaction in the context.
unfoldable pub create_assessment : (ℕ → String) → Parser → User → AssessmentRow → M AssessmentRow
create_assessment new_ids parse user form = transaction (create_body new_ids parse user form)

unfoldable pub update_assessment :
    (ℕ → String) → Parser → User → String → Option String → M AssessmentRow
update_assessment new_ids parse user id name =
    require_permission edit_permission user id
      (λ _ _. Assessments.update_assessment new_ids parse id name)

unfoldable pub delete_assessment : User → String → M (Unit {0})
delete_assessment user id = require_permission delete_permission user id λ _ _.
    transaction
      (Assessments.delete_assessment id >> delete_relationships (new_assessment_resource id))

unfoldable pub share_assessment : User → String → M (Unit {0})
share_assessment user id =
    require_permission share_permission user id (λ _ _. Assessments.share_assessment user id)

unfoldable pub unshare_assessment : User → String → M (Unit {0})
unshare_assessment user id =
    require_permission share_permission user id (λ _ _. Assessments.unshare_assessment user id)

-- The ids of the resources that parse, and the permissions by id.
abbrev pub parsed_ids : Uuids → List Resource → List String
parsed_ids parse_uuid [] = []
parsed_ids parse_uuid (r ∷ rs) = elim (parse_uuid r.id) [
  | none ↦ parsed_ids parse_uuid rs
  | some id ↦ id ∷ parsed_ids parse_uuid rs
]

abbrev pub perms_by_id : Uuids → Dict (List Permission) → List Resource → Dict (List Permission)
perms_by_id parse_uuid m [] = m
perms_by_id parse_uuid m (r ∷ rs) = elim (parse_uuid r.id) [
  | none ↦ perms_by_id parse_uuid m rs
  | some id ↦ perms_by_id parse_uuid (insert r.id r.permissions m) rs
]

-- A missing key of a Go map gives nil.
abbrev pub or_nil {ℓ} : {A : Type ℓ} → Option (List A) → List A
or_nil none = []
or_nil (some xs) = xs

abbrev pub owned_ids : String → List AssessmentRow → List String
owned_ids username [] = []
owned_ids username (a ∷ rest) =
    let ids = owned_ids username rest in if str_eq a.username username then a.id ∷ ids else ids

abbrev pub relations_of : List String → M (Dict (List Relationship))
relations_of [] = pure []
relations_of (id ∷ ids) = list_bulk_relationship (id ∷ ids)

abbrev pub answer_of :
    Uuids
    → String
    → IdentityKind
    → AssessmentRow
    → List Permission
    → List Relationship
    → M Assessment
answer_of parse_uuid username kind a perms rels =
    if str_eq a.username username
    then build_owner_sharing parse_uuid rels >>= owner_answer kind a perms
    else pure (viewed a perms)

-- The loop that answers each assessment.
abbrev pub answers :
    Uuids
    → String
    → IdentityKind
    → Dict (List Permission)
    → Dict (List Relationship)
    → List AssessmentRow
    → M (List Assessment)
answers parse_uuid username kind perms rels [] = pure []
answers parse_uuid username kind perms rels (a ∷ rest) =
    answer_of parse_uuid username kind a (or_nil (lookup a.id perms)) (or_nil (lookup a.id rels))
    >>= λ answer.
        answers parse_uuid username kind perms rels rest >>= λ others. pure (answer ∷ others)

abbrev pub with_ids : List String → AssessmentFilter
with_ids ids = record { source = ""; source_id = ""; name_like = ""; ids = ids }

abbrev pub list_permitted :
    (String → String → Bool) → Uuids → User → IdentityKind → List Resource → M (List Assessment)
list_permitted ilike parse_uuid user kind [] = pure []
list_permitted ilike parse_uuid user kind (r ∷ rs) = do
  rows ← Assessments.list_assessments ilike (with_ids (parsed_ids parse_uuid (r ∷ rs)))
  rels ← relations_of (owned_ids user.username rows)
  answers parse_uuid user.username kind (perms_by_id parse_uuid [] (r ∷ rs)) rels rows

unfoldable pub list_assessments : (String → String → Bool) → Uuids → User → M (List Assessment)
list_assessments ilike parse_uuid user = do
  identity ← get_identity user
  resources ← list_resources user.username assessment_resource
  list_permitted ilike parse_uuid user identity.kind resources
