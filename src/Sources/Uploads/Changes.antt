-- ===== src/Sources/Uploads/Changes.antt =====
-- internal/service/source.go: the calls that write sources. `image_token_key` is the key that
-- image.HMACKey makes.
use migration_planner.Prelude.{
  String, true, Option, none, some, List, map, if◌then◌else◌, Dict, any,
}
use migration_planner.Access.Model.{
  Source, SourceSubsetInventory, Agent, duplicate_name, invalid_vcenter_id,
}
use migration_planner.Access.Store.{M, ◌>>=◌, ◌>>◌, pure, throw, catch, transaction}
use migration_planner.Access.Accounts.{duplicate_as}
use migration_planner.Sources.Store.{
  LoadedSource, has_agent_id, get_source, create_source_row, update_source_row, delete_source_row,
  create_agent, delete_subsets_of, create_subsets, update_labels, create_image_infra,
  update_image_infra,
}
use migration_planner.Sources.Agents.{find_source, other_vcenter, SubsetForm, subset_row}
use migration_planner.Sources.Uploads.Forms.{
  SourceCreateForm, to_image_infra, to_source, new_labels, SourceUpdateForm, given, updated_image,
  UploadForm,
}

unfoldable pub create_source : String → String → SourceCreateForm → M Source
unfolding create_source_row create_image_infra
create_source new_id image_token_key form = transaction (
    catch (create_source_row (to_source new_id form) (new_labels new_id form.labels))
      (λ e. throw (duplicate_as duplicate_name e))
    >> create_image_infra (to_image_infra form new_id image_token_key)
    >> pure (to_source new_id form))

unfoldable pub delete_source : String → M (Unit {0})
delete_source id = delete_source_row id

abbrev pub write_labels : String → Option (Dict String) → M (Unit {0})
write_labels source_id none = pure tt
write_labels source_id (some labels) = update_labels source_id (new_labels source_id labels)

abbrev pub update_source_body : String → SourceUpdateForm → M (Unit {0})
update_source_body id form = do
  loaded ← find_source id
  update_source_row (record loaded.source { name = given form.name loaded.source.name })
  update_image_infra (updated_image form loaded.image_infra)
  write_labels loaded.source.id form.labels

-- The source is read again for the answer.
unfoldable pub update_source : String → SourceUpdateForm → M LoadedSource
unfolding get_source
update_source id form = transaction (update_source_body id form) >> get_source id

-- model.NewAgentForSource
abbrev pub new_agent_for_source : String → Source → Agent
new_agent_for_source id s = record {
  id = id;
  status = "";
  status_info = "";
  cred_url = "";
  version = "";
  source_id = s.id;
}

abbrev pub ensure_agent : UploadForm → LoadedSource → M (Unit {0})
ensure_agent form loaded =
    if any (has_agent_id form.agent_id) loaded.agents
    then pure tt
    else create_agent (new_agent_for_source form.agent_id loaded.source) >> pure tt

abbrev pub uploaded : UploadForm → Source → Source
uploaded form s = record s {
  on_premises = true;
  vcenter_id = form.vcenter_id;
  inventory = some form.inventory;
  update_type = "manual";
}

abbrev pub uploaded_subsets : UploadForm → List SourceSubsetInventory
uploaded_subsets form =
    map (λ (s : SubsetForm). subset_row "manual" (record s { source_id = form.source_id }))
      form.subsets

unfoldable pub replace_source_subsets : UploadForm → M (Unit {0})
unfolding delete_subsets_of create_subsets
replace_source_subsets form =
    delete_subsets_of form.source_id >> create_subsets (uploaded_subsets form)

abbrev pub write_upload : UploadForm → Source → M Source
write_upload form s =
    if other_vcenter s form.vcenter_id
    then throw invalid_vcenter_id
    else update_source_row (uploaded form s)
      >> replace_source_subsets form
      >> pure (uploaded form s)

abbrev pub update_inventory_body : UploadForm → M Source
update_inventory_body form = do
  loaded ← find_source form.source_id
  ensure_agent form loaded
  write_upload form loaded.source

-- On some ways out the transaction is neither committed nor rolled back; it ends with the
-- connection, and nothing of it is kept.
unfoldable pub update_inventory : UploadForm → M Source
update_inventory form = transaction (update_inventory_body form)
