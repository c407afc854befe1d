-- ===== src/Access/Sharing/Scenarios.antt =====
-- Calls of the wrapper on small tables.
use migration_planner.Prelude.{
  ◌≡◌, refl, true, false, ◌==◌, if◌then◌else◌, not, ◌&&◌, ◌||◌, none, some, [], ◌∷◌, str_eq, String,
  ℕ, Bool,
}
use migration_planner.Access.Model.{
  User, AssessmentRow, Source, SourceSubsetInventory, Permission, Relationship, forbidden,
  same_relationship, accepted, read_permission, share_permission, delete_permission,
}
use migration_planner.Access.Store.{World, ok, statement, query, transaction}
use migration_planner.Access.Authz.{
  holds, write_relationships, get_permissions, delete_relationships, permissions_of, insert_rows,
  remove_rows,
}
use migration_planner.Access.Requests.{list_requests}
use migration_planner.Access.Identity.{Identity, customer, get_identity}
use migration_planner.Access.Identity.Known.{identity_of, get_identity-identity_of}
use migration_planner.Access.Partner.{Uuids}
use migration_planner.Access.AssessmentStore.{
  get_assessment_row, create_assessment_row, delete_assessment_row,
}
use migration_planner.Access.Assessments
use migration_planner.Access.Assessments.{Parser}
use migration_planner.Access.Sharing.{
  Assessment, get_assessment, create_assessment, delete_assessment, share_assessment,
  unshare_assessment, viewed,
}
use migration_planner.Access.Sharing.Permitted.{may}
use migration_planner.Access.Sharing.Shares.{
  share_of, with_relations, holds-share_assessment, unshare_assessment-share_assessment,
}
use migration_planner.Access.Sharing.Removal.{without_assessment, may-delete_assessment}
use migration_planner.Access.Sharing.Creation.{Created, create_assessment-Created}
use migration_planner.Access.Sharing.Failures.{apply, failed_change-Same}
use migration_planner.Access.Sharing.Failures
use migration_planner.Access.Samples.{ann, pat, tables, rows, owned_tables, assessment_of_ann}

abbrev any_uuid : Uuids
any_uuid s = some s

holds-share_assessment_example :
    let w = owned_tables [] in
    (partner_id : String) × (may share_permission ann "a1" w.db ≡ true)
    × ((identity_of w.db ann).kind ≡ customer)
    × ((identity_of w.db ann).partner_id ≡ some partner_id)
    × ((x : Relationship)
        → holds x (share_assessment ann "a1" w).1.db.relationships
          ≡ holds x w.db.relationships || same_relationship x (share_of "a1" partner_id))
    × (with_relations (share_assessment ann "a1" w).1.db w.db.relationships ≡ w.db)
unfolding share_assessment Assessments.get_assessment get_assessment_row get_permissions
    permissions_of Assessments.share_assessment get_identity list_requests write_relationships
    transaction query statement
holds-share_assessment_example = holds-share_assessment ann "a1" (owned_tables []) refl

unshare_assessment-share_assessment_example :
    let w = owned_tables [] in
    (unshare_assessment ann "a1" (share_assessment ann "a1" w).1).1.db ≡ w.db
unfolding share_assessment Assessments.get_assessment get_assessment_row get_permissions
    permissions_of Assessments.share_assessment get_identity list_requests write_relationships
    transaction query statement unshare_assessment Assessments.unshare_assessment insert_rows
    remove_rows identity_of same_relationship
unshare_assessment-share_assessment_example =
    unshare_assessment-share_assessment ann "a1" "g1" (owned_tables []) refl refl refl refl

may-delete_assessment_example :
    let w = owned_tables rows in
    (may delete_permission ann "a1" w.db ≡ true)
    × ((delete_assessment ann "a1" w).1.db ≡ without_assessment "a1" w.db)
    × ((p : Permission) (u : User) (other : String)
        → may p u other (delete_assessment ann "a1" w).1.db
          ≡ may p u other w.db && not (str_eq other "a1"))
unfolding delete_assessment Assessments.get_assessment get_assessment_row get_permissions
    permissions_of Assessments.delete_assessment delete_assessment_row delete_relationships
    transaction query statement
may-delete_assessment_example = may-delete_assessment ann "a1" (owned_tables rows) refl refl

abbrev second_of_ann : AssessmentRow
second_of_ann = record assessment_of_ann {
  id = "a2";
  name = "second";
  source_type = "agent";
  source_id = some "s1";
}

abbrev some_ids : ℕ → String
some_ids n = if n == 0 then "i0" else if n == 1 then "i1" else "i2"

abbrev three_or_one : Parser
three_or_one raw = if str_eq raw "all" then some 3 else some 1

abbrev source_of_ann : Source
source_of_ann = record {
  id = "s1";
  name = "source";
  vcenter_id = "v";
  username = "ann";
  org_id = assessment_of_ann.org_id;
  inventory = some "all";
  on_premises = false;
  update_type = "auto";
  email_domain = none;
}

abbrev subset_of_s1 : String → String → SourceSubsetInventory
subset_of_s1 id name = record {
  id = id;
  name = name;
  source_id = "s1";
  vcenter_id = "v";
  vms_count = 1;
  inventory = "part";
  update_type = "auto";
}

-- The subsets of the source stand in the table in another order than that of their ids.
abbrev with_source_of_ann : World
with_source_of_ann = record (owned_tables rows) {
  db = record (owned_tables rows).db {
    sources = source_of_ann ∷ [];
    source_subsets = subset_of_s1 "u2" "late" ∷ subset_of_s1 "u1" "early" ∷ [];
  };
}

abbrev made_for_ann : AssessmentRow
made_for_ann = record second_of_ann {
  inventories =
      record { id = "i0"; name = "second"; is_subset = false; vms_count = 3 }
      ∷ record { id = "i1"; name = "early"; is_subset = true; vms_count = 1 }
      ∷ record { id = "i2"; name = "late"; is_subset = true; vms_count = 1 }
      ∷ [];
}

create_assessment-Created_example :
    Created some_ids three_or_one ann second_of_ann with_source_of_ann.db made_for_ann
      (create_assessment some_ids three_or_one ann second_of_ann with_source_of_ann).1.db
unfolding create_assessment Assessments.create_assessment create_assessment_row get_assessment_row
    write_relationships transaction query statement
create_assessment-Created_example =
    create_assessment-Created some_ids three_or_one ann second_of_ann with_source_of_ann
      made_for_ann refl

-- Pat sees the assessment, but has no permission to share it.
failed_change-Same_example :
    (apply (Failures.share pat "a1") (owned_tables rows)).1.db ≡ (owned_tables rows).db
unfolding apply share_assessment Assessments.get_assessment get_assessment_row get_permissions
    permissions_of query statement
failed_change-Same_example =
    failed_change-Same (Failures.share pat "a1") (owned_tables rows) forbidden refl

abbrev shown_to_pat : Assessment
shown_to_pat = viewed assessment_of_ann (read_permission ∷ [])

abbrev any_match : String → String → Bool
any_match pattern text = true

get_identity-identity_of_example :
    ((get_identity pat (tables accepted)).1.db ≡ (tables accepted).db)
    × ((identity : Identity)
        → (get_identity pat (tables accepted)).0 ≡ ok identity
        → identity ≡ identity_of (tables accepted).db pat)
get_identity-identity_of_example = get_identity-identity_of pat (tables accepted)
