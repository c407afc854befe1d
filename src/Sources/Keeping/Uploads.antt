-- ===== src/Sources/Keeping/Uploads.antt =====
-- The calls of users keep sources, but for the one that deletes a source.
use migration_planner.Prelude.{
  String, false, not, ◌≡◌, refl, ap, ◌∙◌, inr, Option, none, some, List, [], ◌∷◌, str_eq, eq_iff,
  any, find, arith, Bool-cases, inl, Dict,
}
use migration_planner.Access.Model.{
  Source, SourceSubsetInventory, Agent, Label, ImageInfra, duplicate_name,
}
use migration_planner.Access.Store.{
  Result, ok, err, Db, World, M, bind_result, ◌>>=◌, ◌>>◌, pure, throw, catch, statement,
  transaction,
}
use migration_planner.Access.Store.Effects.{
  Effects, Effects-read, Effects-statement, Effects-transaction, Effects-catch, statement_at,
  Effects-bind,
}
use migration_planner.Access.Accounts.{duplicate_as}
use migration_planner.Sources.Store.{
  LoadedSource, has_source_id, has_agent_id, get_source, update_source_row, create_source_row,
  insert_source, insert_label, create_labels, create_image_infra, create_agent, insert_agent,
  delete_source_row, delete_subsets_of, create_subsets, insert_subsets, update_labels,
  update_image_infra, save_image,
}
use migration_planner.Sources.Agents.{find_source, other_vcenter}
use migration_planner.Sources.Uploads.{
  SourceCreateForm, SourceUpdateForm, UploadForm, to_source, to_image_infra, new_labels,
  create_source, delete_source, given, updated_image, write_labels, update_source,
  update_source_body, ensure_agent, new_agent_for_source, uploaded, uploaded_subsets,
  replace_source_subsets, write_upload, update_inventory, update_inventory_body,
}
use migration_planner.Sources.Rows.{find-append, find-filter}
use migration_planner.Sources.Keeping.{
  source_at, Kept-refl, Keeps, Keeps-refl, Keeps-trans, same_sources-Keeps, Loads,
  find_source-Loads, get_source-Loads, update_source_row-Keeps,
}
use migration_planner.Sources.Keeping.Rules.{bind-Keeps, Same-Keeps, other_table-Keeps}
use migration_planner.Sources.Keeping.Agents.{same_vcenter, Loads-self}

create_labels-Keeps :
    (id : String) (labels : List Label) → Effects (Keeps id) (create_labels labels)
unfolding create_labels
create_labels-Keeps id [] = λ w. Keeps-refl id w.db
create_labels-Keeps id (l ∷ ls) =
    bind-Keeps id (statement (insert_label l)) _
      (other_table-Keeps id (insert_label l) (λ db db' a e. ground arith))
      (λ _. create_labels-Keeps id ls)

insert_source-Keeps :
    (id : String) (s : Source) (db db' : Db) (a : Unit {0})
    → insert_source s db ≡ ok (a, db')
    → Keeps id db db'
insert_source-Keeps id s db db' a h r found =
    (r, ground (arith, h, find-append (has_source_id id) db.sources (s ∷ []) r found), Kept-refl r)

create_source_row-Keeps :
    (id : String) (s : Source) (labels : List Label)
    → Effects (Keeps id) (create_source_row s labels)
unfolding create_source_row
create_source_row-Keeps id s labels =
    bind-Keeps id (statement (insert_source s)) _
      (Effects-statement (Keeps id) (Keeps-refl id) (insert_source s) (insert_source-Keeps id s))
      (λ _. create_labels-Keeps id labels)

pub create_source-Keeps :
    (id new_id image_token_key : String) (form : SourceCreateForm)
    → Effects (Keeps id) (create_source new_id image_token_key form)
unfolding create_source create_image_infra
create_source-Keeps id new_id image_token_key form =
    let s = to_source new_id form in
    let labels = new_labels new_id form.labels in
    let insert = catch (create_source_row s labels) (λ e. throw (duplicate_as duplicate_name e)) in
    let image = create_image_infra (to_image_infra form new_id image_token_key) in
    Effects-transaction (Keeps id) (Keeps-refl id) (insert >> image >> pure s) (
      bind-Keeps id (insert >> image) (λ _. pure s)
        (bind-Keeps id insert (λ _. image)
          (Effects-catch (Keeps id) (create_source_row s labels) (duplicate_as duplicate_name)
            (create_source_row-Keeps id s labels))
          (λ _. other_table-Keeps id _ (λ db db' a e. ground arith)))
        (λ _ w. Keeps-refl id w.db))

-- The other sources are kept.
pub delete_source-Keeps :
    (id other : String) → str_eq other id ≡ false → Effects (Keeps id) (delete_source other)
unfolding delete_source delete_source_row
delete_source-Keeps id other apart =
    Effects-statement (Keeps id) (Keeps-refl id) _ (λ db db' a e r found. (
      r,
      ground (
        arith,
        e,
        find-filter (has_source_id id) (λ s. not (has_source_id other s)) db.sources
            (λ s h. ground (arith, h, apart, eq_iff s.id id, eq_iff s.id other, eq_iff other id)),
        found,
      ),
      Kept-refl r,
    ))

update_labels-Keeps :
    (id source_id : String) (labels : List Label)
    → Effects (Keeps id) (update_labels source_id labels)
unfolding update_labels
update_labels-Keeps id source_id labels =
    bind-Keeps id (statement _) _ (other_table-Keeps id _ (λ db db' a e. ground arith))
      (λ _. create_labels-Keeps id _)

write_labels-Keeps :
    (id source_id : String) (labels : Option (Dict String))
    → Effects (Keeps id) (write_labels source_id labels)
write_labels-Keeps id source_id none = λ w. Keeps-refl id w.db
write_labels-Keeps id source_id (some labels) =
    update_labels-Keeps id source_id (new_labels source_id labels)

image_only :
    (i : Option ImageInfra) (db db' : Db) (a : Unit {0})
    → save_image i db ≡ ok (a, db')
    → db'.sources ≡ db.sources
image_only none db db' a e = absurd (cc)
image_only (some i) db db' a e = ground arith

insert_subsets_only :
    (ss : List SourceSubsetInventory) (db db' : Db) (a : Unit {0})
    → insert_subsets ss db ≡ ok (a, db')
    → db'.sources ≡ db.sources
insert_subsets_only ss db db' a e = ground arith

create_subsets-Keeps :
    (id : String) (ss : List SourceSubsetInventory) → Effects (Keeps id) (create_subsets ss)
unfolding create_subsets
create_subsets-Keeps id [] = λ w. Keeps-refl id w.db
create_subsets-Keeps id (s ∷ ss) =
    other_table-Keeps id (insert_subsets (s ∷ ss)) (insert_subsets_only (s ∷ ss))

-- After a write of the source that was found, other tables may be written.
bind_at_Keeps :
    {A B : Type 0} (id : String) (m : M A) (k : A → M B) (w : World)
    → Keeps id w.db (m w).1.db
    → ((a : A) → Effects (Keeps id) (k a))
    → Keeps id w.db ((m >>= k) w).1.db
bind_at_Keeps id m k w first rest = bound id w.db (m w) k first rest
  where
    bound :
        {A B : Type 0} (id : String) (db : Db) (o : Result A × World) (k : A → M B)
        → Keeps id db o.1.db
        → ((a : A) → Effects (Keeps id) (k a))
        → Keeps id db (bind_result k o.0 o.1).1.db
    bound id db (ok a, w) k first rest = Keeps-trans id db w.db (k a w).1.db first (rest a w)
    bound id db (err e, w) k first rest = first

update_source_body-Keeps :
    (id source_id : String) (form : SourceUpdateForm)
    → Effects (Keeps id) (update_source_body source_id form)
unfolding update_image_infra
update_source_body-Keeps id source_id form =
    Effects-read (Keeps id) (Keeps-refl id) (Loads source_id) (find_source source_id) _
      (find_source-Loads source_id)
      (λ l w found.
        let renamed = record l.source { name = given form.name l.source.name } in
        let image = update_image_infra (updated_image form l.image_infra) in
        bind_at_Keeps id (update_source_row renamed)
          (λ _. image >> write_labels l.source.id form.labels) w
          (update_source_row-Keeps id renamed l.source w (refl, refl, refl, inr refl)
            (Loads-self source_id w.db l found))
          (λ _.
            bind-Keeps id image (λ _. write_labels l.source.id form.labels)
              (other_table-Keeps id (save_image (updated_image form l.image_infra))
                (λ db db' a e. image_only (updated_image form l.image_infra) db db' a e))
              (λ _. write_labels-Keeps id l.source.id form.labels)))

pub update_source-Keeps :
    (id source_id : String) (form : SourceUpdateForm)
    → Effects (Keeps id) (update_source source_id form)
unfolding update_source
update_source-Keeps id source_id form =
    bind-Keeps id (transaction (update_source_body source_id form)) (λ _. get_source source_id)
      (Effects-transaction (Keeps id) (Keeps-refl id) (update_source_body source_id form)
        (update_source_body-Keeps id source_id form))
      (λ _. Same-Keeps id (get_source source_id) (λ w. (get_source-Loads source_id w).0))

replace_source_subsets-Keeps :
    (id : String) (form : UploadForm) → Effects (Keeps id) (replace_source_subsets form)
unfolding replace_source_subsets delete_subsets_of
replace_source_subsets-Keeps id form =
    bind-Keeps id (delete_subsets_of form.source_id) _
      (other_table-Keeps id _ (λ db db' a e. ground arith))
      (λ _. create_subsets-Keeps id (uploaded_subsets form))

write_upload-Keeps :
    (id : String) (form : UploadForm) (s : Source) (w : World)
    → source_at s.id w.db ≡ some s
    → Keeps id w.db (write_upload form s w).1.db
write_upload-Keeps id form s w found = elim (Bool-cases (other_vcenter s form.vcenter_id)) [
  | inl other ↦ rw other (Keeps-refl id w.db)
  | inr same ↦ rw same (
      bind_at_Keeps id (update_source_row (uploaded form s) >> replace_source_subsets form)
        (λ _. pure (uploaded form s)) w
        (bind_at_Keeps id (update_source_row (uploaded form s)) (λ _. replace_source_subsets form) w
          (update_source_row-Keeps id (uploaded form s) s w
            (refl, refl, refl, same_vcenter s form.vcenter_id same) found)
          (λ _. replace_source_subsets-Keeps id form))
        (λ _ w'. Keeps-refl id w'.db))
]

-- A call that does not write sources leaves the source that was found in its place.
unwritten_then :
    {A B : Type 0} (id source_id : String) (s : Source) (m : M A) (k : A → M B) (w : World)
    → (m w).1.db.sources ≡ w.db.sources
    → source_at source_id w.db ≡ some s
    → ((a : A) (w' : World) → source_at source_id w'.db ≡ some s → Keeps id w'.db (k a w').1.db)
    → Keeps id w.db ((m >>= k) w).1.db
unwritten_then id source_id s m k w same found rest =
    after id source_id s w.db (m w) k same found rest
  where
    after :
        {A B : Type 0} (id source_id : String) (s : Source) (db : Db) (o : Result A × World)
        (k : A → M B)
        → o.1.db.sources ≡ db.sources
        → source_at source_id db ≡ some s
        → ((a : A) (w' : World) → source_at source_id w'.db ≡ some s → Keeps id w'.db (k a w').1.db)
        → Keeps id db (bind_result k o.0 o.1).1.db
    after id source_id s db (ok a, w) k same found rest =
        Keeps-trans id db w.db (k a w).1.db (same_sources-Keeps id db w.db same)
          (rest a w (ap (λ rows. find (has_source_id source_id) rows) same ∙ found))
    after id source_id s db (err e, w) k same found rest = same_sources-Keeps id db w.db same

same_sources_after_insert : (a : Agent) (w : World) → (create_agent a w).1.db.sources ≡ w.db.sources
unfolding create_agent
same_sources_after_insert a w =
    statement_at (λ x y. y.sources ≡ x.sources) (λ x. refl) (insert_agent a) w
      (λ b db' e. ground arith)

ensure_agent_sources :
    (form : UploadForm) (l : LoadedSource) (w : World)
    → (ensure_agent form l w).1.db.sources ≡ w.db.sources
ensure_agent_sources form l w = elim (Bool-cases (any (has_agent_id form.agent_id) l.agents)) [
  | inl there ↦ rw there refl
  | inr new ↦ rw new (
      Effects-bind (λ x y. y.sources ≡ x.sources) (λ x. refl) (λ x y. y.sources ≡ x.sources)
        (create_agent (new_agent_for_source form.agent_id l.source)) (λ _. pure tt)
        (λ x y z h k. k ∙ h)
        (same_sources_after_insert (new_agent_for_source form.agent_id l.source)) (λ _ w'. refl) w)
]

update_inventory_body-Keeps :
    (id : String) (form : UploadForm) → Effects (Keeps id) (update_inventory_body form)
update_inventory_body-Keeps id form =
    Effects-read (Keeps id) (Keeps-refl id) (Loads form.source_id) (find_source form.source_id) _
      (find_source-Loads form.source_id)
      (λ l w found.
        unwritten_then id l.source.id l.source (ensure_agent form l)
          (λ _. write_upload form l.source) w (ensure_agent_sources form l w)
          (Loads-self form.source_id w.db l found)
          (λ _ w' found'. write_upload-Keeps id form l.source w' found'))

pub update_inventory-Keeps :
    (id : String) (form : UploadForm) → Effects (Keeps id) (update_inventory form)
unfolding update_inventory
update_inventory-Keeps id form =
    Effects-transaction (Keeps id) (Keeps-refl id) (update_inventory_body form)
      (update_inventory_body-Keeps id form)
