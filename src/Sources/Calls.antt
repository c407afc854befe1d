-- ===== src/Sources/Calls.antt =====
-- Any sequence of calls on sources, by agents and by users, whichever database calls fail.
use migration_planner.Prelude.{String, Bool, false, ◌≡◌, str_eq, Option, some}
use migration_planner.Access.Model.{Source, Agent, Key}
use migration_planner.Access.Store.{Db, World, M, ◌>>◌, pure}
use migration_planner.Access.Store.Effects.{Effects}
use migration_planner.Sources.Agents
use migration_planner.Sources.Agents.{
  InventoryForm, SubsetForm, update_source_inventory, update_source_subset, delete_source_subset,
  update_agent_status,
}
use migration_planner.Sources.Uploads
use migration_planner.Sources.Uploads.{
  SourceCreateForm, SourceUpdateForm, UploadForm, create_source, delete_source, update_inventory,
  get_source_download,
}
use migration_planner.Sources.Keeping.{source_at, Kept, Keeps, Keeps-refl, Keeps-trans}
use migration_planner.Sources.Keeping.Rules.{bind-Keeps, Keeps-Preserved}
use migration_planner.Sources.Keeping.Agents as KeepingAgents
use migration_planner.Sources.Keeping.Agents.{
  update_source_inventory-Keeps, update_source_subset-Preserved, delete_source_subset-Preserved,
  update_agent_status-Preserved,
}
use migration_planner.Sources.Keeping.Uploads as KeepingUploads
use migration_planner.Sources.Keeping.Downloads.{get_source_download-Keeps}
use migration_planner.Sources.Keeping.Uploads.{
  create_source-Keeps, delete_source-Keeps, update_inventory-Keeps,
}

pub data Call : Type 0 where
  agent_inventory : String → InventoryForm → Call
  agent_source : InventoryForm → Call
  agent_subset : SubsetForm → Call
  agent_unsubset : String → String → Call
  agent_status : Agent → Call
  create : String → String → SourceCreateForm → Call
  change : String → SourceUpdateForm → Call
  upload : UploadForm → Call
  remove : String → Call
  download : Option Key → String → Call

-- The call does not delete the source.
abbrev pub Spares : String → Call → Type 0
Spares id (remove other) = str_eq other id ≡ false
Spares id call = Unit

module _ (expires : String → Bool) (sign : Key → Source → Option String) where
  -- The call, of which only the error is kept.
  unfoldable pub serve : Call → M (Unit {0})
  unfolding update_source_inventory Agents.update_source update_source_subset delete_source_subset
      update_agent_status create_source Uploads.update_source update_inventory delete_source
      get_source_download
  serve (agent_inventory agent_id form) = update_source_inventory agent_id form >> pure tt
  serve (agent_source form) = Agents.update_source form >> pure tt
  serve (agent_subset form) = update_source_subset form >> pure tt
  serve (agent_unsubset source_id subset_id) = delete_source_subset source_id subset_id
  serve (agent_status form) = update_agent_status form >> pure tt
  serve (create new_id image_token_key form) = create_source new_id image_token_key form >> pure tt
  serve (change id form) = Uploads.update_source id form >> pure tt
  serve (upload form) = update_inventory form >> pure tt
  serve (remove id) = delete_source id
  serve (download new_key id) = get_source_download expires sign new_key id >> pure tt

  -- Each call finds the tables that the call before left; which of its database calls fail is free.
  pub data Reaches (id : String) : Db → Db → Type 0 where
    stays : (db : Db) → Reaches id db db
    served :
        (call : Call) (w : World) (z : Db)
        → Spares id call
        → Reaches id (serve call w).1.db z
        → Reaches id w.db z

  then_done :
      {A : Type 0} (id : String) (m : M A)
      → Effects (Keeps id) m
      → Effects (Keeps id) (m >> pure tt)
  then_done id m keeps = bind-Keeps id m (λ _. pure tt) keeps (λ _ w. Keeps-refl id w.db)

  serve-Keeps : (id : String) (call : Call) → Spares id call → Effects (Keeps id) (serve call)
  unfolding serve
  serve-Keeps id (agent_inventory agent_id form) s =
      then_done id (update_source_inventory agent_id form)
        (update_source_inventory-Keeps id agent_id form)
  serve-Keeps id (agent_source form) s =
      then_done id (Agents.update_source form) (KeepingAgents.update_source-Keeps id form)
  serve-Keeps id (agent_subset form) s =
      then_done id (update_source_subset form)
        (update_source_subset-Preserved (Keeps id) (Keeps-Preserved id) form)
  serve-Keeps id (agent_unsubset source_id subset_id) s =
      delete_source_subset-Preserved (Keeps id) (Keeps-Preserved id) source_id subset_id
  serve-Keeps id (agent_status form) s =
      then_done id (update_agent_status form)
        (update_agent_status-Preserved (Keeps id) (Keeps-Preserved id) form)
  serve-Keeps id (create new_id image_token_key form) s =
      then_done id (create_source new_id image_token_key form)
        (create_source-Keeps id new_id image_token_key form)
  serve-Keeps id (change source_id form) s =
      then_done id (Uploads.update_source source_id form)
        (KeepingUploads.update_source-Keeps id source_id form)
  serve-Keeps id (upload form) s =
      then_done id (update_inventory form) (update_inventory-Keeps id form)
  serve-Keeps id (remove other) s = delete_source-Keeps id other s
  serve-Keeps id (download new_key source_id) s =
      then_done id (get_source_download expires sign new_key source_id)
        (get_source_download-Keeps expires sign new_key id source_id)

  calls-Keeps : (id : String) (x y : Db) → Reaches id x y → Keeps id x y
  calls-Keeps id x _ (stays _) = Keeps-refl id x
  calls-Keeps id _ z (served call w _ spares rest) =
      Keeps-trans id w.db (serve call w).1.db z (serve-Keeps id call spares w)
        (calls-Keeps id (serve call w).1.db z rest)

  -- After any sequence of calls, none of which deletes the source, the source is there with the
  -- user and the organization that it had, and with the vCenter that it had, if it had one.
  pub calls-Kept :
      (id : String) (x y : Db) (s : Source)
      → Reaches id x y
      → source_at id x ≡ some s
      → (t : Source) × (source_at id y ≡ some t) × Kept s t
  calls-Kept id x y s reached found = calls-Keeps id x y reached s found
