-- ===== src/Sources/Isolation/Uploads.antt =====
-- The calls of users leave every source intact but the one that they are for.
use migration_planner.Prelude.{
  String, false, ◌≡◌, refl, sym, ap, ◌∙◌, Option, none, some, List, [], ◌∷◌, str_eq, eq_iff, any,
  arith, Dict, map, filter, find,
}
use mathlib.Core.Path.{subst}
use migration_planner.Access.Model.{
  Source, SourceSubsetInventory, Label, ImageInfra, duplicate_name, invalid_vcenter_id,
}
use migration_planner.Access.Store.{Db, ◌>>◌, pure, throw, catch, statement, transaction}
use migration_planner.Access.Store.Effects.{
  Effects, Effects-read, Effects-statement, Effects-transaction, Effects-catch,
}
use migration_planner.Access.Accounts.{duplicate_as}
use migration_planner.Sources.Store.{
  LoadedSource, has_agent_id, get_source, update_source_row, create_source_row, insert_source,
  insert_label, create_labels, create_image_infra, create_agent, insert_agent, create_subsets,
  insert_subsets, update_labels, delete_labels_of, delete_subsets_of, update_image_infra,
  save_image, write_source, image_of, subset_of, has_source_id,
}
use migration_planner.Sources.Agents.{find_source, other_vcenter, SubsetForm, subset_row}
use migration_planner.Sources.Uploads.{
  SourceCreateForm, SourceUpdateForm, UploadForm, to_source, to_image_infra, new_labels,
  create_source, delete_source, given, updated_image, update_image_fields, write_labels,
  update_source, update_source_body, ensure_agent, new_agent_for_source, uploaded, uploaded_subsets,
  replace_source_subsets, write_upload, update_inventory, update_inventory_body,
}
use migration_planner.Sources.Keeping.{source_at, get_source-Loads}
use migration_planner.Sources.Rows.{find_test}
use migration_planner.Sources.Tokens.{Gives, find_source-Gives, Gives_parts}
use migration_planner.Sources.Isolation.{
  Intact, Intact-refl, insert_source-Intact, insert_label-Intact, insert_agent-Intact,
  write_source-Intact, save_image-Intact, insert_image-Intact,
}
use migration_planner.Sources.Isolation.Rules.{
  bind-Intact, if-Intact, Same-Intact, delete_labels_of-Intact, delete_subsets_of-Intact,
  insert_subsets-Intact, own_rows_none, delete_source_row-Intact,
}

updated_image_source :
    (form : SourceUpdateForm) (t : String) (o : Option ImageInfra) (i : ImageInfra)
    (rows : List ImageInfra)
    → o ≡ find (image_of t) rows
    → updated_image form o ≡ some i
    → i.source_id ≡ t
unfolding update_image_fields
updated_image_source form t none i rows h e = absurd (cc)
updated_image_source form t (some j) i rows h e =
    let this = (eq_iff j.source_id t).0 (find_test (image_of t) rows j (sym h)) in
    ground (arith, e, this)

module _ (id t : String) (apart : str_eq t id ≡ false) where
  -- All labels belong to the other source.
  abbrev AllOf : List Label → Type 0
  AllOf [] = Unit
  AllOf (l ∷ ls) = (l.source_id ≡ t) × AllOf ls

  new_labels-AllOf : (labels : Dict String) → AllOf (new_labels t labels)
  new_labels-AllOf [] = tt
  new_labels-AllOf (l ∷ ls) = (refl, new_labels-AllOf ls)

  relabelled : (ls : List Label) → AllOf (map (λ (l : Label). record l { source_id = t }) ls)
  relabelled [] = tt
  relabelled (l ∷ ls) = (refl, relabelled ls)

  create_labels-Intact : (ls : List Label) → AllOf ls → Effects (Intact id) (create_labels ls)
  unfolding create_labels
  create_labels-Intact [] h = λ w. Intact-refl id w.db
  create_labels-Intact (l ∷ ls) h =
      bind-Intact id (statement (insert_label l)) (λ u. create_labels ls)
        (Effects-statement (Intact id) (Intact-refl id) (insert_label l)
          (λ x y a e. insert_label-Intact id t apart x y l a h.0 e))
        (λ u. create_labels-Intact ls h.1)

  create_source_row-Intact :
      (s : Source) (ls : List Label) → AllOf ls → Effects (Intact id) (create_source_row s ls)
  unfolding create_source_row
  create_source_row-Intact s ls h =
      bind-Intact id (statement (insert_source s)) (λ u. create_labels ls)
        (Effects-statement (Intact id) (Intact-refl id) (insert_source s)
          (λ x y a e. insert_source-Intact id t apart x y s a e))
        (λ u. create_labels-Intact ls h)

  create_image_infra-Intact :
      (i : ImageInfra) → i.source_id ≡ t → Effects (Intact id) (create_image_infra i)
  unfolding create_image_infra
  create_image_infra-Intact i of_t =
      Effects-statement (Intact id) (Intact-refl id) _
        (λ x y a e. insert_image-Intact id t apart x y i of_t (ground (arith, e)))

  pub create_source-Intact :
      (image_token_key : String) (form : SourceCreateForm)
      → Effects (Intact id) (create_source t image_token_key form)
  unfolding create_source to_image_infra
  create_source-Intact image_token_key form =
      let s = to_source t form in
      let labels = new_labels t form.labels in
      let insert =
        catch (create_source_row s labels) (λ e. throw (duplicate_as duplicate_name e)) in
      let image = create_image_infra (to_image_infra form t image_token_key) in
      Effects-transaction (Intact id) (Intact-refl id) (insert >> image >> pure s) (
        bind-Intact id (insert >> image) (λ u. pure s)
          (bind-Intact id insert (λ u. image)
            (Effects-catch (Intact id) (create_source_row s labels) (duplicate_as duplicate_name)
              (create_source_row-Intact s labels (new_labels-AllOf form.labels)))
            (λ u. create_image_infra-Intact (to_image_infra form t image_token_key) (ground arith)))
          (λ u w. Intact-refl id w.db))

  pub delete_source-Intact : Effects (Intact id) (delete_source t)
  unfolding delete_source
  delete_source-Intact = delete_source_row-Intact id t apart

  pub update_source_row-Intact : (u : Source) → u.id ≡ t → Effects (Intact id) (update_source_row u)
  unfolding update_source_row
  update_source_row-Intact u of_t =
      Effects-statement (Intact id) (Intact-refl id) (write_source u)
        (λ x y row e. write_source-Intact id t apart x y u row of_t e)

  update_image_infra-Intact :
      (i : Option ImageInfra)
      → ((j : ImageInfra) → i ≡ some j → j.source_id ≡ t)
      → Effects (Intact id) (update_image_infra i)
  unfolding update_image_infra
  update_image_infra-Intact none of_t =
      Effects-statement (Intact id) (Intact-refl id) (save_image none) (λ x y a e. absurd (cc))
  update_image_infra-Intact (some i) of_t =
      Effects-statement (Intact id) (Intact-refl id) (save_image (some i))
        (λ x y a e. save_image-Intact id t apart x y i a (of_t i refl) e)

  write_labels-Intact :
      (labels : Option (Dict String)) → Effects (Intact id) (write_labels t labels)
  unfolding update_labels
  write_labels-Intact none = λ w. Intact-refl id w.db
  write_labels-Intact (some labels) =
      bind-Intact id (delete_labels_of t) (λ u. create_labels _)
        (delete_labels_of-Intact id t apart)
        (λ u. create_labels-Intact _ (relabelled (new_labels t labels)))

  pub read_id : (db : Db) (l : LoadedSource) → Gives t db l → l.source.id ≡ t
  read_id db l h =
      let found = (Gives_parts db (source_at t db) l h).0 in
      (eq_iff l.source.id t).0 (find_test (has_source_id t) db.sources l.source found)

  read_image :
      (db : Db) (l : LoadedSource) (form : SourceUpdateForm) (i : ImageInfra)
      → Gives t db l
      → updated_image form l.image_infra ≡ some i
      → i.source_id ≡ t
  read_image db l form i h e =
      updated_image_source form t l.image_infra i db.image_infras
        ((Gives_parts db (source_at t db) l h).1
          ∙ ap (λ x. find (image_of x) db.image_infras) (read_id db l h))
        e

  update_source_body-Intact :
      (form : SourceUpdateForm) → Effects (Intact id) (update_source_body t form)
  update_source_body-Intact form =
      Effects-read (Intact id) (Intact-refl id) (Gives t) (find_source t) _ (find_source-Gives t)
        (λ l w h.
          let renamed = record l.source { name = given form.name l.source.name } in
          let image = update_image_infra (updated_image form l.image_infra) in
          bind-Intact id (update_source_row renamed)
            (λ s. image >> write_labels l.source.id form.labels)
            (update_source_row-Intact renamed (read_id w.db l h))
            (λ s.
              bind-Intact id image (λ u. write_labels l.source.id form.labels)
                (update_image_infra-Intact (updated_image form l.image_infra)
                  (λ j e. read_image w.db l form j h e))
                (λ u.
                  subst (λ x. Effects (Intact id) (write_labels x form.labels))
                    (sym (read_id w.db l h)) (write_labels-Intact form.labels)))
            w)

  pub update_source-Intact : (form : SourceUpdateForm) → Effects (Intact id) (update_source t form)
  unfolding update_source
  update_source-Intact form =
      bind-Intact id (transaction (update_source_body t form)) (λ u. get_source t)
        (Effects-transaction (Intact id) (Intact-refl id) (update_source_body t form)
          (update_source_body-Intact form))
        (λ u. Same-Intact id (get_source t) (λ w. (get_source-Loads t w).0))

  ensure_agent-Intact :
      (form : UploadForm) (l : LoadedSource)
      → l.source.id ≡ t
      → Effects (Intact id) (ensure_agent form l)
  unfolding create_agent
  ensure_agent-Intact form l of_t =
      let new = new_agent_for_source form.agent_id l.source in
      if-Intact id (any (has_agent_id form.agent_id) l.agents) (pure tt)
        (create_agent new >> pure tt) (λ w. Intact-refl id w.db)
        (bind-Intact id (create_agent new) (λ u. pure tt)
          (Effects-statement (Intact id) (Intact-refl id) (insert_agent new)
            (λ x y a e. insert_agent-Intact id t apart x y new a of_t e))
          (λ u w. Intact-refl id w.db))

  create_subsets-Intact :
      (ss : List SourceSubsetInventory)
      → filter (subset_of id) ss ≡ []
      → Effects (Intact id) (create_subsets ss)
  unfolding create_subsets
  create_subsets-Intact [] h = λ w. Intact-refl id w.db
  create_subsets-Intact (s ∷ ss) h =
      Effects-statement (Intact id) (Intact-refl id) (insert_subsets (s ∷ ss))
        (λ x y a e. insert_subsets-Intact id t apart (s ∷ ss) x y a h e)

  replace_source_subsets-Intact :
      (form : UploadForm) → form.source_id ≡ t → Effects (Intact id) (replace_source_subsets form)
  unfolding replace_source_subsets
  replace_source_subsets-Intact form of_t =
      bind-Intact id (delete_subsets_of form.source_id)
        (λ u. create_subsets (uploaded_subsets form))
        (subst (λ x. Effects (Intact id) (delete_subsets_of x)) (sym of_t)
          (delete_subsets_of-Intact id t apart))
        (λ u. create_subsets-Intact (uploaded_subsets form) (
          ap
            (λ x. filter (subset_of id) (
              map (λ (s : SubsetForm). subset_row "manual" (record s { source_id = x }))
                form.subsets))
            of_t
          ∙ own_rows_none id t apart "manual" form.subsets))

  write_upload-Intact :
      (form : UploadForm) (s : Source)
      → form.source_id ≡ t
      → s.id ≡ t
      → Effects (Intact id) (write_upload form s)
  write_upload-Intact form s of_t this =
      if-Intact id (other_vcenter s form.vcenter_id) (throw invalid_vcenter_id) _
        (λ w. Intact-refl id w.db)
        (bind-Intact id (update_source_row (uploaded form s) >> replace_source_subsets form)
          (λ u. pure (uploaded form s))
          (bind-Intact id (update_source_row (uploaded form s)) (λ u. replace_source_subsets form)
            (update_source_row-Intact (uploaded form s) this)
            (λ u. replace_source_subsets-Intact form of_t))
          (λ u w. Intact-refl id w.db))

  update_inventory_body-Intact :
      (form : UploadForm) → form.source_id ≡ t → Effects (Intact id) (update_inventory_body form)
  update_inventory_body-Intact form of_t =
      Effects-read (Intact id) (Intact-refl id) (Gives form.source_id) (find_source form.source_id)
        _ (find_source-Gives form.source_id)
        (λ l w h.
          let this = read_id w.db l (subst (λ x. Gives x w.db l) of_t h) in
          bind-Intact id (ensure_agent form l) (λ u. write_upload form l.source)
            (ensure_agent-Intact form l this) (λ u. write_upload-Intact form l.source of_t this) w)

  pub update_inventory-Intact :
      (form : UploadForm) → form.source_id ≡ t → Effects (Intact id) (update_inventory form)
  unfolding update_inventory
  update_inventory-Intact form of_t =
      Effects-transaction (Intact id) (Intact-refl id) (update_inventory_body form)
        (update_inventory_body-Intact form of_t)
