-- ===== src/Access/Samples.antt =====
-- Small tables for the scenarios: ann has an assessment and a request to the group of pat.
use migration_planner.Prelude.{none, some, List, [], ◌∷◌}
use migration_planner.Access.Model.{
  viewer_relation, owner_relation, member_relation, assessment_resource, org_resource, Relationship,
  new_user_subject, new_org_subject, RequestStatus, accepted, Contact, PartnerCustomer, User,
  AssessmentRow,
}
use migration_planner.Access.Store.{World}

abbrev pub ann : User
ann = record { username = "ann"; organization = "o1" }

abbrev pub pat : User
pat = record { username = "pat"; organization = "o2" }

abbrev pub no_contact : Contact
no_contact = record { name = ""; contact_name = ""; contact_phone = ""; email = ""; location = "" }

abbrev pub request_of_ann : RequestStatus → PartnerCustomer
request_of_ann status = record {
  id = "r1";
  username = "ann";
  username_org_id = "o1";
  partner_id = "g1";
  request_status = status;
  contact = no_contact;
  reason = none;
  accepted_at = none;
  terminated_at = none;
}

-- Assessment a1 is shared with the partner's group, of which pat is a member.
abbrev pub share_of_a1 : Relationship
share_of_a1 = record {
  resource_type = assessment_resource;
  resource_id = "a1";
  relation = viewer_relation;
  subject = new_org_subject "g1";
}

abbrev pub membership_of_pat : Relationship
membership_of_pat = record {
  resource_type = org_resource;
  resource_id = "g1";
  relation = member_relation;
  subject = new_user_subject "pat";
}

abbrev pub rows : List Relationship
rows = share_of_a1 ∷ membership_of_pat ∷ []

abbrev pub assessment_of_ann : AssessmentRow
assessment_of_ann = record {
  id = "a1";
  name = "first";
  org_id = "o1";
  username = "ann";
  owner_first_name = some "Ann";
  owner_last_name = none;
  source_type = "inventory";
  source_id = none;
  inventories = [];
}

abbrev pub tables : RequestStatus → World
tables status = record {
  db = record {
    requests = request_of_ann status ∷ [];
    groups = record { id = "g1"; name = "partners"; company = "p"; kind = "partner" } ∷ [];
    members =
        record { id = "m1"; username = "pat"; email = ""; group_id = "g1"; org_id = "o2" } ∷ [];
    assessments = assessment_of_ann ∷ [];
    sources = [];
    source_subsets = [];
    agents = [];
    image_infras = [];
    labels = [];
    keys = [];
    relationships = rows;
  };
  faults = [];
}

abbrev pub ownership_of_a1 : Relationship
ownership_of_a1 = record {
  resource_type = assessment_resource;
  resource_id = "a1";
  relation = owner_relation;
  subject = new_user_subject "ann";
}

-- Ann is a customer of the group, and owns her assessment.
abbrev pub owned_tables : List Relationship → World
owned_tables relations = record {
  db = record (tables accepted).db { relationships = ownership_of_a1 ∷ relations };
  faults = [];
}
