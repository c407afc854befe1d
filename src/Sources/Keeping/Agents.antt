-- ===== src/Sources/Keeping/Agents.antt =====
-- The calls of agents keep sources.
use migration_planner.Prelude.{
  String, true, false, not, ◌≡◌, refl, sym, ap, ◌∙◌, ◌⊎◌, inl, inr, Option, none, some, List, [],
  ◌∷◌, str_eq, eq_iff, if◌then◌else◌, arith, Bool-cases,
}
use migration_planner.Access.Model.{
  Source, SourceSubsetInventory, Agent, agent_not_found, agent_update_forbidden, invalid_vcenter_id,
  resource_not_found, source_inventory_required,
}
use migration_planner.Access.Store.{Db, World, ◌>>◌, pure, throw, catch}
use migration_planner.Access.Store.Effects.{
  Effects, Effects-read, at_if, Same-catch, Same-query, Same, after_read,
}
use migration_planner.Access.Partner.{not_found_as}
use migration_planner.Sources.Store.{
  LoadedSource, has_source_id, get_agent, create_agent, update_agent, delete_agent, get_subset,
  create_subset, update_subset, delete_subset, insert_agent, insert_subset, write_subset,
}
use migration_planner.Sources.Agents.{
  find_source, other_vcenter, InventoryForm, SubsetForm, subset_row, write_inventory,
  updated_by_agent, update_source_inventory, update_source, update_source_subset,
  delete_source_subset, update_agent_status, write_agent, optional, delete_placeholders,
  has_no_inventory,
}
use migration_planner.Sources.Agents
use migration_planner.Sources.Rows.{find_test}
use migration_planner.Sources.Keeping.{
  source_at, Keeps, Keeps-refl, Loads, find_source-Loads, update_source_row-Keeps,
}
use migration_planner.Sources.Keeping.Rules.{
  Preserved, Keeps-Preserved, bind-Preserved, if-Preserved, Same-Preserved, other_table-Preserved,
  Same-find_source, Same-optional,
}

-- A source without a vCenter, or with the one that is given.
pub same_vcenter :
    (s : Source) (vcenter_id : String)
    → other_vcenter s vcenter_id ≡ false
    → (s.vcenter_id ≡ "") ⊎ (vcenter_id ≡ s.vcenter_id)
same_vcenter s vcenter_id h = elim (Bool-cases (str_eq s.vcenter_id "")) [
  | inl none_before ↦ inl ((eq_iff s.vcenter_id "").0 none_before)
  | inr other ↦ inr (sym ((eq_iff s.vcenter_id vcenter_id).0 (ground (arith, h, other))))
]

write_inventory-Keeps :
    (id : String) (form : InventoryForm) (s : Source) (w : World)
    → source_at s.id w.db ≡ some s
    → Keeps id w.db (write_inventory form s w).1.db
write_inventory-Keeps id form s w found = elim (Bool-cases (other_vcenter s form.vcenter_id)) [
  | inl other ↦ rw other (Keeps-refl id w.db)
  | inr same ↦ rw same (
      update_source_row-Keeps id (updated_by_agent s form.vcenter_id form.inventory) s w
        (refl, refl, refl, same_vcenter s form.vcenter_id same) found)
]

-- A source that was found has the id that was sought.
pub Loads-id : (id : String) (db : Db) (l : LoadedSource) → Loads id db l → l.source.id ≡ id
Loads-id id db l h = (eq_iff l.source.id id).0 (find_test (has_source_id id) db.sources l.source h)

pub Loads-self :
    (id : String) (db : Db) (l : LoadedSource)
    → Loads id db l
    → source_at l.source.id db ≡ some l.source
Loads-self id db l h = ap (λ i. source_at i db) (Loads-id id db l h) ∙ h

-- A relation that the calls keep: `written` says so for the write of the source itself.
module _ (Q : Db → Db → Type 0) (p : Preserved Q) where
  abbrev pub WriteKeeps : InventoryForm → Type 0
  WriteKeeps form =
      (s : Source) (w : World)
      → s.id ≡ form.source_id
      → source_at s.id w.db ≡ some s
      → Q w.db (write_inventory form s w).1.db

  pub update_source-Preserved :
      (form : InventoryForm) → WriteKeeps form → Effects Q (update_source form)
  unfolding update_source
  update_source-Preserved form written =
      Effects-read Q p.stays (Loads form.source_id) (find_source form.source_id)
        (λ l. write_inventory form l.source) (find_source-Loads form.source_id)
        (λ l w h.
          written l.source w (Loads-id form.source_id w.db l h)
            (Loads-self form.source_id w.db l h))

  Same-find_agent :
      (id : String)
      → Effects Same (catch (get_agent id) (λ e. throw (not_found_as agent_not_found e)))
  unfolding get_agent
  Same-find_agent id = Same-catch (get_agent id) _ (Same-query _) (λ e w. refl)

  forbidden_or_written :
      (form : InventoryForm) (l : LoadedSource) (agent : Agent) (w : World)
      → WriteKeeps form
      → l.source.id ≡ form.source_id
      → source_at l.source.id w.db ≡ some l.source
      → Q w.db
          ((if not (str_eq form.source_id agent.source_id)
              then throw agent_update_forbidden
              else write_inventory form l.source)
            w).1.db
  forbidden_or_written form l agent w written same found =
      at_if (Q w.db) (not (str_eq form.source_id agent.source_id)) (throw agent_update_forbidden)
        (write_inventory form l.source) w (λ _. p.stays w.db) (λ _. written l.source w same found)

  pub update_source_inventory-Preserved :
      (agent_id : String) (form : InventoryForm)
      → WriteKeeps form
      → Effects Q (update_source_inventory agent_id form)
  unfolding update_source_inventory
  update_source_inventory-Preserved agent_id form written =
      Effects-read Q p.stays (Loads form.source_id) (find_source form.source_id) _
        (find_source-Loads form.source_id)
        (λ l w h.
          after_read Q p.stays (λ db. source_at l.source.id db ≡ some l.source)
            (catch (get_agent agent_id) (λ e. throw (not_found_as agent_not_found e)))
            (λ agent.
              if not (str_eq form.source_id agent.source_id)
              then throw agent_update_forbidden
              else write_inventory form l.source)
            w (Same-find_agent agent_id) (Loads-self form.source_id w.db l h)
            (λ agent w' found.
              forbidden_or_written form l agent w' written (Loads-id form.source_id w.db l h)
                found))

  write_subset-Preserved :
      (form : SubsetForm) (existing : Option SourceSubsetInventory)
      → Effects Q (Agents.write_subset form existing)
  unfolding create_subset update_subset
  write_subset-Preserved form none =
      bind-Preserved Q p (create_subset (subset_row "auto" form)) (λ s. pure (s, true))
        (other_table-Preserved Q p (insert_subset (subset_row "auto" form))
          (λ db db' a e. ground arith))
        (λ s w. p.stays w.db)
  write_subset-Preserved form (some existing) =
      bind-Preserved Q p (update_subset (subset_row "auto" form)) (λ s. pure (s, false))
        (other_table-Preserved Q p (write_subset (subset_row "auto" form))
          (λ db db' a e. ground arith))
        (λ s w. p.stays w.db)

  pub update_source_subset-Preserved : (form : SubsetForm) → Effects Q (update_source_subset form)
  unfolding update_source_subset get_subset
  update_source_subset-Preserved form =
      bind-Preserved Q p (find_source form.source_id) _
        (Same-Preserved Q p (find_source form.source_id) (Same-find_source form.source_id))
        (λ l.
          if-Preserved Q p (has_no_inventory l.source) (throw source_inventory_required) _
            (λ w. p.stays w.db)
            (if-Preserved Q p (other_vcenter l.source form.vcenter_id) (throw invalid_vcenter_id) _
              (λ w. p.stays w.db)
              (bind-Preserved Q p (optional (get_subset form.id)) (Agents.write_subset form)
                (Same-Preserved Q p (optional (get_subset form.id))
                  (Same-optional (get_subset form.id) (Same-query _)))
                (write_subset-Preserved form))))

  pub delete_source_subset-Preserved :
      (source_id subset_id : String) → Effects Q (delete_source_subset source_id subset_id)
  unfolding delete_source_subset get_subset delete_subset
  delete_source_subset-Preserved source_id subset_id =
      bind-Preserved Q p (find_source source_id) _
        (Same-Preserved Q p (find_source source_id) (Same-find_source source_id))
        (λ l.
          bind-Preserved Q p
            (catch (get_subset subset_id) (λ e. throw (not_found_as resource_not_found e))) _
            (Same-Preserved Q p
              (catch (get_subset subset_id) (λ e. throw (not_found_as resource_not_found e)))
              (Same-catch (get_subset subset_id) _ (Same-query _) (λ e w. refl)))
            (λ subset.
              if-Preserved Q p (not (str_eq subset.source_id source_id)) (throw resource_not_found)
                _ (λ w. p.stays w.db) (other_table-Preserved Q p _ (λ db db' a e. ground arith))))

  delete_placeholders-Preserved : (agents : List Agent) → Effects Q (delete_placeholders agents)
  unfolding delete_placeholders delete_agent
  delete_placeholders-Preserved [] = λ w. p.stays w.db
  delete_placeholders-Preserved (a ∷ agents) =
      let rest = delete_placeholders-Preserved agents in
      if-Preserved Q p (not (str_eq a.status "")) (delete_placeholders agents) _ rest (
        bind-Preserved Q p (delete_agent a.id) _
          (other_table-Preserved Q p _ (λ db db' x e. ground arith)) (λ _. rest))

  write_agent-Preserved :
      (form : Agent) (agents : List Agent) (agent : Option Agent)
      → Effects Q (write_agent form agents agent)
  unfolding create_agent update_agent get_agent
  write_agent-Preserved form agents none =
      bind-Preserved Q p (delete_placeholders agents >> create_agent form) _
        (bind-Preserved Q p (delete_placeholders agents) _ (delete_placeholders-Preserved agents)
          (λ _. other_table-Preserved Q p (insert_agent form) (λ db db' a e. ground arith)))
        (λ a w. p.stays w.db)
  write_agent-Preserved form agents (some agent) =
      bind-Preserved Q p (update_agent form) _
        (bind-Preserved Q p (get_agent form.id) _
          (Same-Preserved Q p (get_agent form.id) (Same-query _))
          (λ _. other_table-Preserved Q p _ (λ db db' a e. ground arith)))
        (λ _ w. p.stays w.db)

  pub update_agent_status-Preserved : (form : Agent) → Effects Q (update_agent_status form)
  unfolding update_agent_status get_agent
  update_agent_status-Preserved form =
      bind-Preserved Q p (find_source form.source_id) _
        (Same-Preserved Q p (find_source form.source_id) (Same-find_source form.source_id))
        (λ l.
          bind-Preserved Q p (optional (get_agent form.id)) (write_agent form l.agents)
            (Same-Preserved Q p (optional (get_agent form.id))
              (Same-optional (get_agent form.id) (Same-query _)))
            (write_agent-Preserved form l.agents))

-- The instances for what a call keeps of a source.
write-Keeps : (id : String) (form : InventoryForm) → WriteKeeps (Keeps id) (Keeps-Preserved id) form
write-Keeps id form s w same found = write_inventory-Keeps id form s w found

pub update_source-Keeps :
    (id : String) (form : InventoryForm) → Effects (Keeps id) (update_source form)
update_source-Keeps id form =
    update_source-Preserved (Keeps id) (Keeps-Preserved id) form (write-Keeps id form)

pub update_source_inventory-Keeps :
    (id agent_id : String) (form : InventoryForm)
    → Effects (Keeps id) (update_source_inventory agent_id form)
update_source_inventory-Keeps id agent_id form =
    update_source_inventory-Preserved (Keeps id) (Keeps-Preserved id) agent_id form
      (write-Keeps id form)
