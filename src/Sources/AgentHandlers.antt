-- ===== src/Sources/AgentHandlers.antt =====
-- internal/handlers/v1alpha1/agent.go: the endpoints of agents. `token_source` is the source of the
-- agent's token. An inventory in a body is its vCenter and, for each vCenter, the JSON text that it
-- has with it.
use migration_planner.Prelude.{ℕ, String, Bool, not, Option, none, some, str_eq, if◌then◌else◌}
use migration_planner.Access.Model.{
  Source, SourceSubsetInventory, Agent, resource_not_found, agent_not_found, agent_update_forbidden,
  invalid_vcenter_id, source_inventory_required,
}
use migration_planner.Access.Store.{Result, ok, err, World}
use migration_planner.Access.Handlers.{
  Response, success, bad_request, not_found, not_allowed, internal_error, answer_with,
}
use migration_planner.Sources.Agents.{
  InventoryForm, SubsetForm, update_source_inventory, update_source, update_source_subset,
  delete_source_subset, update_agent_status,
}

pub record AgentInventory : Type 0 where
  pub vcenter_id : String
  pub text : String → String

module _ {A : Type 0} where
  -- `agentJWT.SourceID != request.Id.String()`
  abbrev pub for_token : String → String → (World → Response A × World) → World → Response A × World
  for_token token_source id next w =
      let rest = next w in if not (str_eq token_source id) then (not_allowed, w) else rest

  -- Of UpdateSourceInventory and UpdateSource.
  abbrev pub agent_response : Result A → Response A
  agent_response (ok a) = success a
  agent_response (err invalid_vcenter_id) = bad_request
  agent_response (err agent_update_forbidden) = not_allowed
  agent_response (err resource_not_found) = not_found
  agent_response (err agent_not_found) = not_found
  agent_response (err e) = internal_error

  abbrev pub subset_response : Result A → Response A
  subset_response (ok a) = success a
  subset_response (err invalid_vcenter_id) = bad_request
  subset_response (err source_inventory_required) = bad_request
  subset_response (err agent_update_forbidden) = not_allowed
  subset_response (err resource_not_found) = not_found
  subset_response (err agent_not_found) = not_found
  subset_response (err e) = internal_error

  -- Of DeleteSourceSubset and UpdateAgentStatus.
  abbrev pub found_response : Result A → Response A
  found_response (ok a) = success a
  found_response (err resource_not_found) = not_found
  found_response (err e) = internal_error

-- The vCenter of a body, which overrides the one of its inventory.
abbrev pub vcenter_of : Option String → AgentInventory → String
vcenter_of none inventory = inventory.vcenter_id
vcenter_of (some vcenter_id) inventory = vcenter_id

abbrev pub inventory_form : String → Option String → AgentInventory → InventoryForm
inventory_form id vcenter_id inventory =
    let vcenter = vcenter_of vcenter_id inventory in
    record { source_id = id; vcenter_id = vcenter; inventory = inventory.text vcenter }

pub record AgentInventoryBody : Type 0 where
  pub agent_id : String
  pub inventory : AgentInventory

unfoldable pub handle_agent_inventory :
    String → String → Option AgentInventoryBody → World → Response Source × World
handle_agent_inventory token_source id none w = (bad_request, w)
handle_agent_inventory token_source id (some body) w =
    for_token token_source id
      (answer_with agent_response
        (update_source_inventory body.agent_id (inventory_form id none body.inventory)))
      w

pub record AgentSourceBody : Type 0 where
  pub vcenter_id : Option String
  pub inventory : AgentInventory

unfoldable pub handle_agent_source :
    String → String → Option AgentSourceBody → World → Response Source × World
handle_agent_source token_source id none w = (bad_request, w)
handle_agent_source token_source id (some body) w =
    for_token token_source id
      (answer_with agent_response
        (update_source (inventory_form id body.vcenter_id body.inventory)))
      w

pub record AgentSubsetBody : Type 0 where
  pub name : String
  pub vcenter_id : Option String
  pub vms_count : Option ℕ
  pub inventory : AgentInventory

abbrev pub count_of : Option ℕ → ℕ
count_of none = 0
count_of (some n) = n

abbrev pub subset_form_of : String → String → AgentSubsetBody → SubsetForm
subset_form_of id subset_id body =
    let vcenter = vcenter_of body.vcenter_id body.inventory in
    record {
      id = subset_id;
      name = body.name;
      source_id = id;
      vcenter_id = vcenter;
      vms_count = count_of body.vms_count;
      inventory = body.inventory.text vcenter;
    }

unfoldable pub handle_agent_subset :
    String
    → String
    → String
    → Option AgentSubsetBody
    → World
    → Response (SourceSubsetInventory × Bool) × World
handle_agent_subset token_source id subset_id none w = (bad_request, w)
handle_agent_subset token_source id subset_id (some body) w =
    for_token token_source id
      (answer_with subset_response (update_source_subset (subset_form_of id subset_id body))) w

unfoldable pub handle_delete_subset : String → String → String → World → Response (Unit {0}) × World
handle_delete_subset token_source id subset_id =
    for_token token_source id (answer_with found_response (delete_source_subset id subset_id))

-- `is_valid` is the validator's answer.
unfoldable pub handle_agent_status :
    (Agent → Bool) → String → Agent → World → Response (Agent × Bool) × World
handle_agent_status is_valid token_source form w =
    let rest =
      for_token token_source form.source_id (answer_with found_response (update_agent_status form))
        w in
    if not (is_valid form) then (bad_request, w) else rest
