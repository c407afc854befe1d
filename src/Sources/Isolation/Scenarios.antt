-- ===== src/Sources/Isolation/Scenarios.antt =====
-- Requests of pat, who owns none of the sources in the small tables.
use migration_planner.Prelude.{true, ◌≡◌, refl, ap, str_eq, none, some, [], ◌∷◌}
use migration_planner.Access.Samples.{ann, pat}
use migration_planner.Access.Store.{World, statement, query}
use migration_planner.Access.Handlers.{not_allowed, not_found, success}
use migration_planner.Sources.Store.{get_source, delete_source_row}
use migration_planner.Sources.Agents.{find_source}
use migration_planner.Sources.Uploads.{SourceCreateForm, delete_source}
use migration_planner.Sources.Handlers.{handle_delete_source}
use migration_planner.Sources.Keeping.{source_at}
use migration_planner.Sources.Samples.{s1, db, key, near_end, sign}
use migration_planner.Sources.Subsets.{healthy}
use migration_planner.Sources.Isolation.{SameRows}
use migration_planner.Sources.AgentHandlers.{AgentInventory}
use migration_planner.Sources.Isolation.AgentRequests
use migration_planner.Sources.Isolation.Requests.{
  Request, create, remove, download, serve, stays, requested, requests-SameRows,
}

abbrev form : SourceCreateForm
form = record {
  certificate_chain = "";
  name = "mine";
  http_url = "";
  https_url = "";
  no_proxy = "";
  ssh_public_key = "";
  username = "";
  org_id = "";
  email_domain = "";
  labels = ("k", "v") ∷ [];
  ip_address = "";
  subnet_mask = "";
  default_gateway = "";
  dns = "";
  enable_proxy = none;
  network_config_type = none;
}

abbrev run : Request → World → World
run = serve near_end sign (λ form. true) (λ form. true) pat

abbrev after_create : World
after_create = run (create "s3" "k3" "" (some form)) (healthy db)

abbrev after_download : World
after_download = run (download (some key) "s3") after_create

abbrev after_remove : World
after_remove = run (remove "s1") after_download

pat_is_other : ¬ ((pat.username ≡ s1.username) × (pat.organization ≡ s1.org_id))
pat_is_other (same_username, same_org) = absurd (cc (ap (λ name. str_eq name "ann") same_username))

requests-SameRows_example :
    (source_at "s1" after_remove.db ≡ some s1) × SameRows "s1" db after_remove.db
requests-SameRows_example =
    requests-SameRows near_end sign (λ form. true) (λ form. true) "s1" s1 db after_remove.db
      (requested pat (create "s3" "k3" "" (some form)) (healthy db) after_remove.db pat_is_other
        refl
        (requested pat (download (some key) "s3") after_create after_remove.db pat_is_other tt (
          requested pat (remove "s1") after_download after_remove.db pat_is_other tt
            (stays after_remove.db))))
      refl

-- An agent whose token is for s2 sends an inventory and a subset for s1, and one for s2.
abbrev inventory : AgentInventory
inventory = record { vcenter_id = "v1"; text = λ vcenter_id. vcenter_id }

abbrev agent_run : AgentRequests.Request → World → World
agent_run = AgentRequests.serve (λ form. true) "s2"

abbrev to_s1 : AgentRequests.Request
to_s1 = AgentRequests.agent_source "s1" (some (record { vcenter_id = none; inventory = inventory }))

abbrev to_s2 : AgentRequests.Request
to_s2 = AgentRequests.agent_source "s2" (some (record { vcenter_id = none; inventory = inventory }))

abbrev after_s1 : World
after_s1 = agent_run to_s1 (healthy db)

abbrev after_s2 : World
after_s2 = agent_run to_s2 after_s1

agent_requests-source_at_example : source_at "s1" after_s2.db ≡ some s1
agent_requests-source_at_example =
    AgentRequests.agent_requests-source_at (λ form. true) "s1" s1 db after_s2.db
      (AgentRequests.requested "s2" to_s1 (healthy db) after_s2.db refl (
        AgentRequests.requested "s2" to_s2 after_s1 after_s2.db refl
          (AgentRequests.stays after_s2.db)))
      refl

-- Ann may delete her source, pat may not.
deletions :
    ((handle_delete_source pat "s1" (healthy db)).0 ≡ not_allowed)
    × ((handle_delete_source pat "s9" (healthy db)).0 ≡ not_found)
    × ((handle_delete_source ann "s1" (healthy db)).0 ≡ success tt)
unfolding handle_delete_source find_source get_source delete_source delete_source_row query
    statement
deletions = (refl, refl, refl)
