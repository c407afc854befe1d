-- ===== src/Sources/Handlers.antt =====
-- internal/handlers/v1alpha1/source.go: the endpoints of sources. A response is its kind of status
-- and, where it succeeds, what the service returned, before it is turned into the types of the API.
-- The body of a request may be missing; `is_valid` is the validator's answer.
use migration_planner.Prelude.{
  String, Bool, not, ◌||◌, Option, none, some, List, [], ◌∷◌, map, str_eq, if◌then◌else◌,
}
use migration_planner.Access.Model.{
  User, Source, Agent, Key, Error, resource_not_found, duplicate_name, invalid_vcenter_id,
}
use migration_planner.Access.Store.{Result, ok, err, World}
use migration_planner.Access.Handlers.{
  Response, success, bad_request, not_found, not_allowed, internal_error, answer_with,
}
use migration_planner.Sources.Store.{LoadedSource, list_sources}
use migration_planner.Sources.Agents.{find_source, SubsetForm}
use migration_planner.Sources.Uploads.{
  SourceCreateForm, SourceUpdateForm, UploadForm, create_source, delete_source, update_source,
  update_inventory, get_source_download,
}

-- `user.Username != source.Username || user.Organization != source.OrgID`
abbrev pub is_foreign : User → Source → Bool
is_foreign user s = not (str_eq user.username s.username) || not (str_eq user.organization s.org_id)

module _ {A : Type 0} where
  abbrev pub read_failure : Error → Response A
  read_failure resource_not_found = not_found
  read_failure e = internal_error

  -- The source is read, and must be the user's.
  abbrev pub with_source :
      User
      → (LoadedSource → World → Response A × World)
      → Result LoadedSource
      → World
      → Response A × World
  with_source user next (ok l) w =
      let rest = next l w in if is_foreign user l.source then (not_allowed, w) else rest
  with_source user next (err e) w = (read_failure e, w)

  abbrev pub guarded :
      User → String → (LoadedSource → World → Response A × World) → World → Response A × World
  guarded user id next w = let (result, w') = find_source id w in with_source user next result w'

  -- Of ListSources, DeleteSource and GetSourceDownloadURL.
  abbrev pub plain_response : Result A → Response A
  plain_response (ok a) = success a
  plain_response (err e) = internal_error

  abbrev pub create_source_response : Result A → Response A
  create_source_response (ok a) = success a
  create_source_response (err duplicate_name) = bad_request
  create_source_response (err e) = internal_error

  abbrev pub update_source_response : Result A → Response A
  update_source_response (ok a) = success a
  update_source_response (err resource_not_found) = not_found
  update_source_response (err e) = internal_error

  -- inventoryUpdateResponse
  abbrev pub inventory_response : Result A → Response A
  inventory_response (ok a) = success a
  inventory_response (err invalid_vcenter_id) = bad_request
  inventory_response (err e) = internal_error

unfoldable handle_list_sources : User → World → Response (List Source) × World
handle_list_sources user = answer_with plain_response (list_sources user.username user.organization)

abbrev pub owned_form : User → String → SourceCreateForm → SourceCreateForm
owned_form user email_domain form = record form {
  username = user.username;
  org_id = user.organization;
  email_domain = email_domain;
}

module _ (is_valid : SourceCreateForm → Bool) where
  unfoldable pub handle_create_source :
      String → String → User → String → Option SourceCreateForm → World → Response Source × World
  handle_create_source new_id image_token_key user email_domain none w = (bad_request, w)
  handle_create_source new_id image_token_key user email_domain (some form) w =
      let rest =
        answer_with create_source_response
          (create_source new_id image_token_key (owned_form user email_domain form)) w in
      if not (is_valid form) then (bad_request, w) else rest

unfoldable pub handle_delete_source : User → String → World → Response (Unit {0}) × World
handle_delete_source user id = guarded user id (λ l. answer_with plain_response (delete_source id))

unfoldable handle_get_source : User → String → World → Response LoadedSource × World
handle_get_source user id = guarded user id (λ l w. (success l, w))

module _ (is_valid : SourceUpdateForm → Bool) where
  unfoldable pub handle_update_source :
      User → String → Option SourceUpdateForm → World → Response LoadedSource × World
  handle_update_source user id none w = (bad_request, w)
  handle_update_source user id (some form) w =
      let rest =
        guarded user id (λ l. answer_with update_source_response (update_source id form)) w in
      if not (is_valid form) then (bad_request, w) else rest

-- The JSON body of an upload: the agent, and the inventory with its vCenter.
pub record InventoryBody : Type 0 where
  pub agent_id : String
  pub vcenter_id : String
  pub inventory : String

abbrev pub json_form : String → InventoryBody → UploadForm
json_form id body = record {
  source_id = id;
  agent_id = body.agent_id;
  vcenter_id = body.vcenter_id;
  inventory = body.inventory;
  subsets = [];
}

unfoldable pub handle_update_inventory :
    User → String → Option InventoryBody → World → Response Source × World
handle_update_inventory user id none w = (bad_request, w)
handle_update_inventory user id (some body) w =
    guarded user id (λ l. answer_with inventory_response (update_inventory (json_form id body))) w

-- What is read of an uploaded file.
pub record ParsedBundle : Type 0 where
  pub main_inventory : String
  pub vcenter_id : String
  pub agent_id : Option String
  pub subsets : List SubsetForm

-- The agent that the file names, else the source's first, else a new one.
abbrev pub agent_of_bundle : String → Option String → List Agent → String
agent_of_bundle new_id (some id) agents = id
agent_of_bundle new_id none [] = new_id
agent_of_bundle new_id none (a ∷ agents) = a.id

abbrev pub bundle_form : String → String → LoadedSource → ParsedBundle → UploadForm
bundle_form new_id id l parsed = record {
  source_id = id;
  agent_id = agent_of_bundle new_id parsed.agent_id l.agents;
  vcenter_id = parsed.vcenter_id;
  inventory = parsed.main_inventory;
  subsets = map (λ (s : SubsetForm). record s { source_id = id }) parsed.subsets;
}

abbrev pub upload_bundle :
    String → String → Option ParsedBundle → LoadedSource → World → Response Source × World
upload_bundle new_id id none l w = (bad_request, w)
upload_bundle new_id id (some parsed) l w =
    answer_with inventory_response (update_inventory (bundle_form new_id id l parsed)) w

-- `file` is the body and what its reading and parsing give, which may fail.
unfoldable pub handle_upload_source_inventory_file :
    String → User → String → Option (Option ParsedBundle) → World → Response Source × World
handle_upload_source_inventory_file new_id user id none w = (bad_request, w)
handle_upload_source_inventory_file new_id user id (some file) w =
    guarded user id (upload_bundle new_id id file) w

module _ (expires : String → Bool) (sign : Key → Source → Option String) where
  unfoldable pub handle_get_source_download :
      Option Key → User → String → World → Response Source × World
  handle_get_source_download new_key user id =
      guarded user id
        (λ l. answer_with plain_response (get_source_download expires sign new_key id))
