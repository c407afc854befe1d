-- ===== src/Access/Sharing/Listing.antt =====
-- Which assessments a user is shown.
use migration_planner.Prelude.{String, Bool, List, [], map, filter, reverse}
use migration_planner.Access.Model.{User, AssessmentRow, Resource, assessment_resource}
use migration_planner.Access.Store.{Db}
use migration_planner.Access.Store.Effects.{Effects}
use migration_planner.Access.Authz.{permissions_by_id, selected, to_resource}
use migration_planner.Access.AssessmentStore.{passes, preloaded}
use migration_planner.Access.Assessments
use migration_planner.Access.Sharing.{with_ids}

-- The resources of a user, read off the table.
unfoldable pub resources_of : Db → User → List Resource
resources_of db user =
    map (to_resource assessment_resource)
      (permissions_by_id [] (selected db.relationships user.username assessment_resource))

-- The answer of the store.
abbrev asked : (String → String → Bool) → List String → List AssessmentRow → List AssessmentRow
asked ilike ids rows = map preloaded (reverse (filter (passes ilike (with_ids ids)) rows))
