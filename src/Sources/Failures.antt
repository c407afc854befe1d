-- ===== src/Sources/Failures.antt =====
-- Calls on sources that return an error.
use migration_planner.Prelude.{
  String, Bool, true, false, not, ◌≡◌, refl, Option, none, some, str_eq,
}
use migration_planner.Access.Model.{
  Source, SourceSubsetInventory, Key, Error, agent_not_found, agent_update_forbidden,
  invalid_vcenter_id, resource_not_found, source_inventory_required,
}
use migration_planner.Access.Store.{World, err, throw, catch}
use migration_planner.Access.Store.Effects.{Same-catch, Same-query}
use migration_planner.Access.Store.Atomic.{
  Atomic, Atomic-read, Atomic-if, Atomic-throw, Atomic-statement, Atomic-map, Atomic-done,
  Atomic-transaction,
}
use migration_planner.Access.Partner.{not_found_as}
use migration_planner.Sources.Store.{
  get_agent, get_subset, update_source_row, create_subset, update_subset, delete_subset,
  delete_source_row,
}
use migration_planner.Sources.Agents.{
  InventoryForm, SubsetForm, find_source, other_vcenter, has_no_inventory, optional, subset_row,
  write_inventory, update_source_inventory, update_source, update_source_subset,
  delete_source_subset,
}
use migration_planner.Sources.Agents
use migration_planner.Sources.Uploads.{create_source, delete_source, update_inventory}
use migration_planner.Sources.Keeping.Rules.{Same-find_source, Same-optional}
use migration_planner.Sources.Calls.{
  Call, agent_inventory, agent_source, agent_subset, agent_unsubset, agent_status, create, change,
  upload, remove, download, serve,
}

write_inventory-Atomic : (form : InventoryForm) (s : Source) → Atomic (write_inventory form s)
unfolding update_source_row
write_inventory-Atomic form s =
    Atomic-if (other_vcenter s form.vcenter_id) (throw invalid_vcenter_id) _
      (Atomic-throw invalid_vcenter_id) (Atomic-statement _)

update_source-Atomic : (form : InventoryForm) → Atomic (update_source form)
unfolding update_source
update_source-Atomic form =
    Atomic-read (find_source form.source_id) _ (Same-find_source form.source_id)
      (λ l. write_inventory-Atomic form l.source)

update_source_inventory-Atomic :
    (agent_id : String) (form : InventoryForm) → Atomic (update_source_inventory agent_id form)
unfolding update_source_inventory get_agent
update_source_inventory-Atomic agent_id form =
    Atomic-read (find_source form.source_id) _ (Same-find_source form.source_id) (λ l.
      Atomic-read (catch (get_agent agent_id) (λ e. throw (not_found_as agent_not_found e))) _
        (Same-catch (get_agent agent_id) _ (Same-query _) (λ e w. refl))
        (λ agent.
          Atomic-if (not (str_eq form.source_id agent.source_id)) (throw agent_update_forbidden) _
            (Atomic-throw agent_update_forbidden) (write_inventory-Atomic form l.source)))

write_subset-Atomic :
    (form : SubsetForm) (existing : Option SourceSubsetInventory)
    → Atomic (Agents.write_subset form existing)
unfolding create_subset update_subset
write_subset-Atomic form none =
    Atomic-map (create_subset (subset_row "auto" form)) (λ s. (s, true)) (Atomic-statement _)
write_subset-Atomic form (some existing) =
    Atomic-map (update_subset (subset_row "auto" form)) (λ s. (s, false)) (Atomic-statement _)

update_source_subset-Atomic : (form : SubsetForm) → Atomic (update_source_subset form)
unfolding update_source_subset get_subset
update_source_subset-Atomic form =
    Atomic-read (find_source form.source_id) _ (Same-find_source form.source_id) (λ l.
      Atomic-if (has_no_inventory l.source) (throw source_inventory_required) _
        (Atomic-throw source_inventory_required)
        (Atomic-if (other_vcenter l.source form.vcenter_id) (throw invalid_vcenter_id) _
          (Atomic-throw invalid_vcenter_id)
          (Atomic-read (optional (get_subset form.id)) (Agents.write_subset form)
            (Same-optional (get_subset form.id) (Same-query _)) (write_subset-Atomic form))))

delete_source_subset-Atomic :
    (source_id subset_id : String) → Atomic (delete_source_subset source_id subset_id)
unfolding delete_source_subset get_subset delete_subset
delete_source_subset-Atomic source_id subset_id =
    Atomic-read (find_source source_id) _ (Same-find_source source_id) (λ l.
      Atomic-read (catch (get_subset subset_id) (λ e. throw (not_found_as resource_not_found e))) _
        (Same-catch (get_subset subset_id) _ (Same-query _) (λ e w. refl))
        (λ subset.
          Atomic-if (not (str_eq subset.source_id source_id)) (throw resource_not_found) _
            (Atomic-throw resource_not_found) (Atomic-statement _)))

-- The calls that write all that they write in one statement or in one transaction, and read nothing
-- after it.
abbrev pub WritesOnce : Call → Type 0
WritesOnce (agent_status form) = ⊥
WritesOnce (change id form) = ⊥
WritesOnce (download new_key id) = ⊥
WritesOnce call = Unit

-- A call that returns an error leaves every table as it was, whichever check refuses and whichever
-- database call fails: an agent's inventory or subset, the deletion of a subset, an upload, the
-- creation and the deletion of a source.
pub failed_source_call-Same :
    (expires : String → Bool) (sign : Key → Source → Option String) (call : Call) (w : World)
    (e : Error)
    → WritesOnce call
    → (serve expires sign call w).0 ≡ err e
    → (serve expires sign call w).1.db ≡ w.db
unfolding serve create_source update_inventory delete_source delete_source_row
failed_source_call-Same expires sign (agent_inventory agent_id form) w e once =
    Atomic-done (update_source_inventory agent_id form) tt
      (update_source_inventory-Atomic agent_id form) w e
failed_source_call-Same expires sign (agent_source form) w e once =
    Atomic-done (update_source form) tt (update_source-Atomic form) w e
failed_source_call-Same expires sign (agent_subset form) w e once =
    Atomic-done (update_source_subset form) tt (update_source_subset-Atomic form) w e
failed_source_call-Same expires sign (agent_unsubset source_id subset_id) w e once =
    delete_source_subset-Atomic source_id subset_id w e
failed_source_call-Same expires sign (agent_status form) w e once = absurd once
failed_source_call-Same expires sign (create new_id image_token_key form) w e once =
    Atomic-done (create_source new_id image_token_key form) tt (Atomic-transaction _) w e
failed_source_call-Same expires sign (change id form) w e once = absurd once
failed_source_call-Same expires sign (upload form) w e once =
    Atomic-done (update_inventory form) tt (Atomic-transaction _) w e
failed_source_call-Same expires sign (remove id) w e once = Atomic-statement _ w e
failed_source_call-Same expires sign (download new_key id) w e once = absurd once
