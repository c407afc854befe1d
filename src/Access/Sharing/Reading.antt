-- ===== src/Access/Sharing/Reading.antt =====
-- GetAssessment, and what building an answer does: nothing to the tables.
use migration_planner.Prelude.{
  ◌≡◌, refl, String, Bool, true, false, Option, none, some, List, [], ◌∷◌, if◌then◌else◌,
}
use migration_planner.Access.Model.{
  AssessmentRow, Permission, Relationship, SubjectType, user_subject, org_subject, owner_relation,
  same_relation,
}
use migration_planner.Access.Store.{M, ◌>>=◌, pure}
use migration_planner.Access.Store.Effects.{
  Effects, Reads, Same, Same-query, Same-bind, Same-if, Reads-Same, Reads-value, Reads-bind,
}
use migration_planner.Access.Requests.{get_group}
use migration_planner.Access.Identity.{IdentityKind}
use migration_planner.Access.Partner.{Uuids}
use migration_planner.Access.Sharing.{
  Assessment, Sharing, group_subject, sharing_subject, shared_subjects, build_owner_sharing,
  owner_answer, viewed,
}

abbrev pub row_of : Assessment → AssessmentRow
row_of answer = answer.row

group_subject-Same :
    (id : String) (group_id : Option String) → Effects Same (group_subject id group_id)
unfolding get_group
group_subject-Same id none = λ w. refl
group_subject-Same id (some group_id) =
    Same-bind (get_group group_id)
      (λ group. pure (record { type = "group"; id = id; name = group.name })) (Same-query _)
      (λ group w. refl)

sharing_subject-Same :
    (parse_uuid : Uuids) (kind : SubjectType) (id : String)
    → Effects Same (sharing_subject parse_uuid kind id)
sharing_subject-Same parse_uuid org_subject id = group_subject-Same id (parse_uuid id)
sharing_subject-Same parse_uuid user_subject id = λ w. refl

shared_subjects-Same :
    (parse_uuid : Uuids) (rels : List Relationship) → Effects Same (shared_subjects parse_uuid rels)
shared_subjects-Same parse_uuid [] = λ w. refl
shared_subjects-Same parse_uuid (r ∷ rs) =
    let rest = shared_subjects parse_uuid rs in
    let this = sharing_subject parse_uuid r.subject.kind r.subject.id in
    Same-if (same_relation r.relation owner_relation) rest
      (this >>= λ subject. rest >>= λ subjects. pure (subject ∷ subjects))
      (shared_subjects-Same parse_uuid rs)
      (Same-bind this (λ subject. rest >>= λ subjects. pure (subject ∷ subjects))
        (sharing_subject-Same parse_uuid r.subject.kind r.subject.id)
        λ subject.
          Same-bind rest (λ subjects. pure (subject ∷ subjects))
            (shared_subjects-Same parse_uuid rs) (λ subjects w. refl))

pub build_owner_sharing-Same :
    (parse_uuid : Uuids) (rels : List Relationship)
    → Effects Same (build_owner_sharing parse_uuid rels)
unfolding build_owner_sharing
build_owner_sharing-Same parse_uuid rels =
    Same-bind (shared_subjects parse_uuid rels) _ (shared_subjects-Same parse_uuid rels)
      (λ shared w. refl)

pub answer_if :
    (b : Bool) (shown : M Sharing) (kind : IdentityKind) (a : AssessmentRow)
    (perms : List Permission)
    → Effects Same shown
    → Reads
        (λ db x. row_of x ≡ a)
        (if b then shown >>= owner_answer kind a perms else pure (viewed a perms))
answer_if true shown kind a perms same =
    Reads-bind (λ db s. Unit {0}) (λ db x. row_of x ≡ a) shown (owner_answer kind a perms)
      (Reads-Same shown same)
      (λ sharing. Reads-value (λ db x. Unit {0} → row_of x ≡ a) _ (λ db _. refl))
answer_if false shown kind a perms same =
    Reads-value (λ db x. row_of x ≡ a) (viewed a perms) (λ db. refl)
