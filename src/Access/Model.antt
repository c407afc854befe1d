-- ===== src/Access/Model.antt =====
-- internal/store/model: authz.go (relations and permissions) and partner.go (partner requests),
-- and the rows of groups, members, assessments and sources as far as access depends on them.
use text.Mathlib.TextPositions.{eq_refl}
use migration_planner.Prelude.{
  ℕ, String, Bool, true, false, ◌&&◌, ◌||◌, Option, List, [], ◌∷◌, str_eq, ◌≡◌, refl, ap, arith,
  eq_iff,
}

pub data ResourceType : Type 0 where
  assessment_resource org_resource : ResourceType

pub data SubjectType : Type 0 where
  user_subject org_subject : SubjectType

-- Go's type is a string: the relations that the program does not name are `other`.
pub data Relation : Type 0 where
  owner_relation viewer_relation member_relation : Relation
  other : String → Relation

pub data Permission : Type 0 where
  read_permission edit_permission share_permission delete_permission : Permission

abbrev pub same_resource_type : ResourceType → ResourceType → Bool
same_resource_type assessment_resource assessment_resource = true
same_resource_type org_resource org_resource = true
same_resource_type _ _ = false

abbrev pub same_subject_type : SubjectType → SubjectType → Bool
same_subject_type user_subject user_subject = true
same_subject_type org_subject org_subject = true
same_subject_type _ _ = false

abbrev pub same_relation : Relation → Relation → Bool
same_relation owner_relation owner_relation = true
same_relation viewer_relation viewer_relation = true
same_relation member_relation member_relation = true
same_relation (other a) (other b) = str_eq a b
same_relation _ _ = false

abbrev pub same_permission : Permission → Permission → Bool
same_permission read_permission read_permission = true
same_permission edit_permission edit_permission = true
same_permission share_permission share_permission = true
same_permission delete_permission delete_permission = true
same_permission _ _ = false

-- Permission.In
abbrev pub is_in : Permission → List Permission → Bool
is_in p [] = false
is_in p (q ∷ qs) = same_permission q p || is_in p qs

-- Relation.Permissions
abbrev pub permissions : Relation → List Permission
permissions owner_relation =
    read_permission ∷ edit_permission ∷ share_permission ∷ delete_permission ∷ []
permissions viewer_relation = read_permission ∷ []
permissions _ = []

-- Permission.Relations
abbrev pub relations : Permission → List Relation
relations read_permission = owner_relation ∷ viewer_relation ∷ []
relations edit_permission = owner_relation ∷ []
relations share_permission = owner_relation ∷ []
relations delete_permission = owner_relation ∷ []

pub record Subject : Type 0 where
  pub id : String
  pub kind : SubjectType

pub record Relationship : Type 0 where
  pub resource_type : ResourceType
  pub resource_id : String
  pub relation : Relation
  pub subject : Subject

pub record Resource : Type 0 where
  pub type : ResourceType
  pub id : String
  pub permissions : List Permission

abbrev pub new_assessment_resource : String → Resource
new_assessment_resource id = record { type = assessment_resource; id = id; permissions = [] }

abbrev pub new_org_resource : String → Resource
new_org_resource id = record { type = org_resource; id = id; permissions = [] }

abbrev pub new_user_subject : String → Subject
new_user_subject id = record { id = id; kind = user_subject }

abbrev pub new_org_subject : String → Subject
new_org_subject id = record { id = id; kind = org_subject }

-- The comparison of the five columns of a relation.
unfoldable pub same_relationship : Relationship → Relationship → Bool
same_relationship a b =
    same_resource_type a.resource_type b.resource_type
    && str_eq a.resource_id b.resource_id
    && same_relation a.relation b.relation
    && same_subject_type a.subject.kind b.subject.kind
    && str_eq a.subject.id b.subject.id

pub data RelationshipUpdate : Type 0 where
  touch delete : Relationship → RelationshipUpdate

pub data RequestStatus : Type 0 where
  pending accepted rejected cancelled : RequestStatus

abbrev pub same_status : RequestStatus → RequestStatus → Bool
same_status pending pending = true
same_status accepted accepted = true
same_status rejected rejected = true
same_status cancelled cancelled = true
same_status _ _ = false

-- The condition of the unique index uq_partner_customer_active_username.
abbrev pub is_active : RequestStatus → Bool
is_active pending = true
is_active accepted = true
is_active _ = false

pub record Contact : Type 0 where
  pub name : String
  pub contact_name : String
  pub contact_phone : String
  pub email : String
  pub location : String

-- Times are numbers.
pub record PartnerCustomer : Type 0 where
  pub id : String
  pub username : String
  pub username_org_id : String
  pub partner_id : String
  pub request_status : RequestStatus
  pub contact : Contact
  pub reason : Option String
  pub accepted_at : Option ℕ
  pub terminated_at : Option ℕ

-- model.Request
pub record Request : Type 0 where
  pub status : RequestStatus
  pub reason : String

pub record Group : Type 0 where
  pub id : String
  pub name : String
  pub company : String
  pub kind : String

pub record Member : Type 0 where
  pub id : String
  pub username : String
  pub email : String
  pub group_id : String
  pub org_id : String

-- A stored inventory. Of its content only the number of virtual machines is kept.
pub record AssessmentInventory : Type 0 where
  pub id : String
  pub name : String
  pub is_subset : Bool
  pub vms_count : ℕ

-- An assessment with its inventories, which a table of their own holds.
pub record AssessmentRow : Type 0 where
  pub id : String
  pub name : String
  pub org_id : String
  pub username : String
  pub owner_first_name : Option String
  pub owner_last_name : Option String
  pub source_type : String
  pub source_id : Option String
  pub inventories : List AssessmentInventory

-- A source with the JSON text of its inventory.
pub record Source : Type 0 where
  pub id : String
  pub name : String
  pub vcenter_id : String
  pub username : String
  pub org_id : String
  pub inventory : Option String
  pub on_premises : Bool
  pub update_type : String
  pub email_domain : Option String

pub record SourceSubsetInventory : Type 0 where
  pub id : String
  pub name : String
  pub source_id : String
  pub vcenter_id : String
  pub vms_count : ℕ
  pub inventory : String
  pub update_type : String

-- The agent of a source; one without a status stands for a manual upload.
pub record Agent : Type 0 where
  pub id : String
  pub status : String
  pub status_info : String
  pub cred_url : String
  pub version : String
  pub source_id : String

-- What the image of a source is built from.
pub record ImageInfra : Type 0 where
  pub source_id : String
  pub http_proxy_url : String
  pub https_proxy_url : String
  pub no_proxy_domains : String
  pub certificate_chain : String
  pub ssh_public_key : String
  pub image_token_key : String
  pub ip_address : String
  pub subnet_mask : String
  pub default_gateway : String
  pub dns : String
  pub agent_version : Option String
  pub agent_token : Option String

pub record Label : Type 0 where
  pub key : String
  pub value : String
  pub source_id : String

-- The key that signs the tokens of an organization's agents.
pub record Key : Type 0 where
  pub id : String
  pub org_id : String
  pub private_key : String

-- auth.User, as far as these services read it.
pub record User : Type 0 where
  pub username : String
  pub organization : String

-- The errors of the store and of internal/service/errors.go, without their texts.
pub data Error : Type 0 where
  record_not_found duplicate_key db_error : Error
  resource_not_found forbidden invalid_request active_request_exists member_in_other_group : Error
  member_not_found membership_mismatch member_duplicate iam_error : Error
  not_a_customer duplicate_name creation_forbidden source_has_no_inventory : Error
  inventory_has_no_vms unreadable_inventory unknown_source_type unparsed_uuid : Error
  agent_not_found agent_update_forbidden invalid_vcenter_id source_inventory_required : Error
  token_error : Error
  -- A nil pointer that is followed.
  panic : Error

-- The comparisons decide equality.
pub same_relation_eq : (r s : Relation) → same_relation r s ≡ true → r ≡ s
same_relation_eq owner_relation s h = ground arith
same_relation_eq viewer_relation s h = ground arith
same_relation_eq member_relation s h = ground arith
same_relation_eq (other a) (other b) h = ap other ((eq_iff a b).0 h)
same_relation_eq (other a) owner_relation h = ground arith
same_relation_eq (other a) viewer_relation h = ground arith
same_relation_eq (other a) member_relation h = ground arith

pub same_relation_refl : (r : Relation) → same_relation r r ≡ true
same_relation_refl owner_relation = refl
same_relation_refl viewer_relation = refl
same_relation_refl member_relation = refl
same_relation_refl (other t) = eq_refl t

pub same_relationship_eq : (a b : Relationship) → same_relationship a b ≡ true → a ≡ b
unfolding same_relationship
same_relationship_eq a b h = ground (
  arith,
  eq_iff a.resource_id b.resource_id,
  eq_iff a.subject.id b.subject.id,
  same_relation_eq a.relation b.relation,
)

pub same_relationship_refl : (a : Relationship) → same_relationship a a ≡ true
unfolding same_relationship
same_relationship_refl a = ground (
  arith,
  eq_iff a.resource_id a.resource_id,
  eq_iff a.subject.id a.subject.id,
  same_relation_refl a.relation,
)
