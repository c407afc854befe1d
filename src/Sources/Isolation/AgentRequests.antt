-- ===== src/Sources/Isolation/AgentRequests.antt =====
-- Any sequence of requests by agents whose tokens are for other sources leaves a source as it is.
use migration_planner.Prelude.{
  String, Bool, true, false, not, ◌≡◌, sym, ap, ◌∙◌, Option, none, some, str_eq, if◌then◌else◌,
  find, eq_iff, Bool-cases, inl, inr,
}
use migration_planner.Access.Model.{Source, Agent, invalid_vcenter_id}
use migration_planner.Access.Store.{Result, Db, World, M, throw}
use migration_planner.Access.Store.Effects.{Effects}
use migration_planner.Access.Handlers.{Response, answer_with}
use migration_planner.Sources.Store.{has_source_id, update_source_row}
use migration_planner.Sources.Agents.{
  InventoryForm, other_vcenter, updated_by_agent, update_agent_status, update_source_inventory,
  update_source, update_source_subset, delete_source_subset,
}
use migration_planner.Sources.AgentHandlers.{
  for_token, agent_response, subset_response, found_response, AgentInventoryBody, AgentSourceBody,
  AgentSubsetBody, inventory_form, subset_form_of, handle_agent_inventory, handle_agent_source,
  handle_agent_subset, handle_delete_subset, handle_agent_status,
}
use migration_planner.Sources.Keeping.{source_at}
use migration_planner.Sources.Keeping.Rules.{Preserved}
use migration_planner.Sources.Keeping.Agents.{
  WriteKeeps, update_source-Preserved, update_source_inventory-Preserved,
  update_source_subset-Preserved, delete_source_subset-Preserved, update_agent_status-Preserved,
}
use migration_planner.Sources.Isolation.{Intact-refl}
use migration_planner.Sources.Isolation.Rules.{if-Intact}
use migration_planner.Sources.Isolation.Uploads.{update_source_row-Intact}

pub data Request : Type 0 where
  agent_inventory : String → Option AgentInventoryBody → Request
  agent_source : String → Option AgentSourceBody → Request
  agent_subset : String → String → Option AgentSubsetBody → Request
  agent_unsubset : String → String → Request
  agent_status : Agent → Request

module _ (is_valid : Agent → Bool) where
  -- The tables after the request of an agent.
  unfoldable pub serve : String → Request → World → World
  serve token_source (agent_inventory id body) w = (handle_agent_inventory token_source id body w).1
  serve token_source (agent_source id body) w = (handle_agent_source token_source id body w).1
  serve token_source (agent_subset id subset_id body) w =
      (handle_agent_subset token_source id subset_id body w).1
  serve token_source (agent_unsubset id subset_id) w =
      (handle_delete_subset token_source id subset_id w).1
  serve token_source (agent_status form) w = (handle_agent_status is_valid token_source form w).1

  module _ (id : String) (s : Source) where
    -- The source that was there is as it was.
    abbrev Stands : Db → Db → Type 0
    Stands x y = source_at id x ≡ some s → source_at id y ≡ some s

    Stands-Preserved : Preserved Stands
    Stands-Preserved = record {
      stays = λ x found. found;
      chains = λ x y z h k found. k (h found);
      same_sources = λ x y same found. ap (λ rows. find (has_source_id id) rows) same ∙ found;
    }

    write-Stands :
        (form : InventoryForm)
        → str_eq form.source_id id ≡ false
        → WriteKeeps Stands Stands-Preserved form
    write-Stands form apart r w same found there =
        (if-Intact id (other_vcenter r form.vcenter_id) (throw invalid_vcenter_id)
          (update_source_row (updated_by_agent r form.vcenter_id form.inventory))
          (λ w'. Intact-refl id w'.db)
          (update_source_row-Intact id form.source_id apart
            (updated_by_agent r form.vcenter_id form.inventory) same)
          w s there).0

    for_token-Stands :
        {A : Type 0} (token_source t : String) (respond : Result A → Response A) (m : M A)
        (w : World)
        → str_eq token_source id ≡ false
        → (str_eq t id ≡ false → Effects Stands m)
        → Stands w.db (for_token token_source t (answer_with respond m) w).1.db
    for_token-Stands token_source t respond m w apart h =
        elim (Bool-cases (str_eq token_source t)) [
          | inl same ↦
              let at_t = ap (λ x. str_eq x id) (sym ((eq_iff token_source t).0 same)) in
              rw same (h (at_t ∙ apart) w)
          | inr other ↦ rw other (λ found. found)
        ]

    if-Stands :
        {A : Type 0} (b : Bool) (x y : Response A × World) (db : Db)
        → Stands db x.1.db
        → Stands db y.1.db
        → Stands db (if b then x else y).1.db
    if-Stands true x y db h k = h
    if-Stands false x y db h k = k

    serve-Stands :
        (token_source : String) (request : Request) (w : World)
        → str_eq token_source id ≡ false
        → Stands w.db (serve token_source request w).db
    unfolding serve handle_agent_inventory handle_agent_source handle_agent_subset
        handle_delete_subset handle_agent_status
    serve-Stands token_source (agent_inventory t none) w apart = λ found. found
    serve-Stands token_source (agent_inventory t (some body)) w apart =
        let form = inventory_form t none body.inventory in
        for_token-Stands token_source t agent_response (update_source_inventory body.agent_id form)
          w apart
          (λ apart'.
            update_source_inventory-Preserved Stands Stands-Preserved body.agent_id form
              (write-Stands form apart'))
    serve-Stands token_source (agent_source t none) w apart = λ found. found
    serve-Stands token_source (agent_source t (some body)) w apart =
        let form = inventory_form t body.vcenter_id body.inventory in
        for_token-Stands token_source t agent_response (update_source form) w apart (λ apart'.
          update_source-Preserved Stands Stands-Preserved form (write-Stands form apart'))
    serve-Stands token_source (agent_subset t subset_id none) w apart = λ found. found
    serve-Stands token_source (agent_subset t subset_id (some body)) w apart =
        let form = subset_form_of t subset_id body in
        for_token-Stands token_source t subset_response (update_source_subset form) w apart
          (λ apart'. update_source_subset-Preserved Stands Stands-Preserved form)
    serve-Stands token_source (agent_unsubset t subset_id) w apart =
        for_token-Stands token_source t found_response (delete_source_subset t subset_id) w apart
          (λ apart'. delete_source_subset-Preserved Stands Stands-Preserved t subset_id)
    serve-Stands token_source (agent_status form) w apart =
        if-Stands (not (is_valid form)) _ _ w.db (λ found. found)
          (for_token-Stands token_source form.source_id found_response (update_agent_status form) w
            apart (λ apart'. update_agent_status-Preserved Stands Stands-Preserved form))

    -- Requests of agents, none of whose tokens is for the source; each finds the tables that the one
    -- before left, and which of its database calls fail is free.
    pub data Reaches : Db → Db → Type 0 where
      stays : (db : Db) → Reaches db db
      requested :
          (token_source : String) (request : Request) (w : World) (z : Db)
          → str_eq token_source id ≡ false
          → Reaches (serve token_source request w).db z
          → Reaches w.db z

    -- After any sequence of requests of agents, none of whose tokens is for the source, and whichever
    -- database calls fail, the source with its inventory is exactly as it was.
    pub agent_requests-source_at :
        (x y : Db) → Reaches x y → source_at id x ≡ some s → source_at id y ≡ some s
    agent_requests-source_at x _ (stays _) found = found
    agent_requests-source_at _ z (requested token_source request w _ apart rest) found =
        agent_requests-source_at (serve token_source request w).db z rest
          (serve-Stands token_source request w apart found)
