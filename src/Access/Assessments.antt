-- ===== src/Access/Assessments.antt =====
-- internal/service/assessment.go: assessments, and with whom they are shared. `new_ids` gives
-- uuid.New for the inventories of one call, `parse` the number of virtual machines in the JSON text
-- of an inventory.
pub mod Shares
pub mod Creation
pub mod Snapshots
pub mod Rows
use migration_planner.Prelude.{
  ℕ, suc, ◌==◌, String, Bool, true, false, not, ◌||◌, Option, none, some, List, [], ◌∷◌, str_eq,
  if◌then◌else◌,
}
use migration_planner.Access.Model.{
  User, AssessmentRow, AssessmentInventory, Source, SourceSubsetInventory, Resource, Relation,
  Subject, RelationshipUpdate, viewer_relation, new_assessment_resource, new_org_subject,
  resource_not_found, not_a_customer, duplicate_name, creation_forbidden, source_has_no_inventory,
  inventory_has_no_vms, unreadable_inventory, unknown_source_type, panic,
}
use migration_planner.Access.Store.{M, ◌>>=◌, ◌>>◌, pure, throw, catch, transaction, in_context}
use migration_planner.Access.Authz.{with, without, write_relationships}
use migration_planner.Access.Identity.{IdentityKind, customer, same_kind, get_identity}
use migration_planner.Access.Partner.{not_found_as}
use migration_planner.Access.Accounts.{duplicate_as}
use migration_planner.Access.AssessmentStore.{
  AssessmentFilter, list_assessment_rows, get_assessment_row, create_assessment_row,
  update_assessment_row, delete_assessment_row, get_source, list_source_subsets,
}

unfoldable pub list_assessments :
    (String → String → Bool) → AssessmentFilter → M (List AssessmentRow)
list_assessments ilike f = list_assessment_rows ilike f

unfoldable pub get_assessment : String → M AssessmentRow
get_assessment id = catch (get_assessment_row id) (λ e. throw (not_found_as resource_not_found e))

abbrev pub Parser : Type 0
Parser = String → Option ℕ

abbrev pub snapshot_of : String → String → Bool → Option ℕ → M AssessmentInventory
snapshot_of id name is_subset none = throw unreadable_inventory
snapshot_of id name is_subset (some count) =
    pure (record { id = id; name = name; is_subset = is_subset; vms_count = count })

abbrev pub subset_snapshots :
    (ℕ → String) → Parser → ℕ → List SourceSubsetInventory → M (List AssessmentInventory)
subset_snapshots new_ids parse n [] = pure []
subset_snapshots new_ids parse n (s ∷ rest) =
    snapshot_of (new_ids n) s.name true (parse s.inventory) >>= λ inventory.
    subset_snapshots new_ids parse (suc n) rest >>= λ inventories. pure (inventory ∷ inventories)

abbrev pub with_snapshots :
    (ℕ → String) → Parser → AssessmentRow → String → AssessmentInventory → M AssessmentRow
with_snapshots new_ids parse a source_id main =
    if main.vms_count == 0 then throw inventory_has_no_vms else do
      sources ← list_source_subsets source_id
      subsets ← subset_snapshots new_ids parse 1 sources
      pure (record a { inventories = main ∷ subsets })

-- The snapshot of the source's inventory, and those of its subsets.
abbrev pub from_inventory :
    (ℕ → String) → Parser → AssessmentRow → String → Option String → M AssessmentRow
from_inventory new_ids parse a source_id none = throw source_has_no_inventory
from_inventory new_ids parse a source_id (some raw) =
    snapshot_of (new_ids 0) a.name false (parse raw) >>= with_snapshots new_ids parse a source_id

abbrev pub from_source : (ℕ → String) → Parser → AssessmentRow → Source → M AssessmentRow
from_source new_ids parse a source =
    if not (str_eq source.org_id a.org_id) || not (str_eq source.username a.username)
    then throw creation_forbidden
    else from_inventory new_ids parse a source.id source.inventory

abbrev pub from_agent : (ℕ → String) → Parser → AssessmentRow → Option String → M AssessmentRow
from_agent new_ids parse a none = throw panic
from_agent new_ids parse a (some source_id) = get_source source_id >>= from_source new_ids parse a

-- The switch on the type of the source.
abbrev pub with_inventories : (ℕ → String) → Parser → AssessmentRow → M AssessmentRow
with_inventories new_ids parse a =
    if str_eq a.source_type "rvtools" || str_eq a.source_type "inventory"
    then pure a
    else if str_eq a.source_type "agent"
    then from_agent new_ids parse a a.source_id
    else throw unknown_source_type

-- The form is the assessment with the inventories given.
unfoldable pub create_assessment : Bool → (ℕ → String) → Parser → AssessmentRow → M AssessmentRow
create_assessment in_transaction new_ids parse form = do
  a ← with_inventories new_ids parse form
  in_context in_transaction
      (catch (create_assessment_row a) (λ e. throw (duplicate_as duplicate_name e)))

abbrev pub refreshed_with :
    (ℕ → String) → Parser → AssessmentRow → Option String → M (List AssessmentInventory)
refreshed_with new_ids parse a none = pure []
refreshed_with new_ids parse a (some raw) = do
  inventory ← snapshot_of (new_ids 0) a.name true (parse raw)
  pure (inventory ∷ [])

-- The inventories that an update adds.
abbrev pub refreshed :
    (ℕ → String) → Parser → AssessmentRow → Option String → M (List AssessmentInventory)
refreshed new_ids parse a none = pure []
refreshed new_ids parse a (some source_id) =
    get_source source_id >>= λ source. refreshed_with new_ids parse a source.inventory

abbrev pub update_body : (ℕ → String) → Parser → String → Option String → M AssessmentRow
update_body new_ids parse id name = do
  a ← catch (get_assessment_row id) (λ e. throw (not_found_as resource_not_found e))
  inventories ← refreshed new_ids parse a a.source_id
  update_assessment_row id name inventories

unfoldable pub update_assessment : (ℕ → String) → Parser → String → Option String → M AssessmentRow
update_assessment new_ids parse id name =
    transaction (update_body new_ids parse id name) >> get_assessment id

unfoldable pub delete_assessment : String → M (Unit {0})
delete_assessment id =
    catch (get_assessment_row id) (λ e. throw (not_found_as resource_not_found e))
    >> delete_assessment_row id

-- `if identity.Kind != KindCustomer || identity.PartnerID == nil`
abbrev pub partner_of : IdentityKind → Option String → M String
partner_of kind none = throw not_a_customer
partner_of kind (some partner_id) =
    if same_kind kind customer then pure partner_id else throw not_a_customer

-- The body of ShareAssessment and UnshareAssessment, which differ in the update they write.
abbrev pub change_share :
    (Resource → Relation → Subject → List RelationshipUpdate) → User → String → M (Unit {0})
change_share update user id = do
  catch (get_assessment_row id) (λ e. throw (not_found_as resource_not_found e))
  identity ← get_identity user
  partner_id ← partner_of identity.kind identity.partner_id
  write_relationships
      (update (new_assessment_resource id) viewer_relation (new_org_subject partner_id))

unfoldable pub share_assessment : User → String → M (Unit {0})
share_assessment user id = transaction (change_share (with []) user id)

unfoldable pub unshare_assessment : User → String → M (Unit {0})
unshare_assessment user id = transaction (change_share (without []) user id)
