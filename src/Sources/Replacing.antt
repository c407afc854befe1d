-- ===== src/Sources/Replacing.antt =====
-- UpdateInventory of internal/service/source.go: the source and its subsets after an upload.
use mathlib.Core.List.{append_assoc, append-nil}
use migration_planner.Prelude.{
  true, if◌then◌else◌, str_eq, String, Bool, not, ◌≡◌, refl, sym, ap, ◌∙◌, some, List, [], ◌∷◌,
  ◌++◌, map, eq_iff, any, find, filter, arith,
}
use migration_planner.Access.Model.{Source, SourceSubsetInventory, Agent, invalid_vcenter_id}
use migration_planner.Access.Store.{Result, ok, Db, World, ◌>>◌, pure, throw}
use migration_planner.Access.Store.Yields.{
  Yields, Yields-throw, Yields-pure, Yields-if, Yields-statement, Yields-bind, Yields-read,
  Yields-transaction,
}
use migration_planner.Sources.Store.{
  LoadedSource, has_source_id, has_agent_id, subset_of, update_source_row, write_source,
  written_source, create_agent, insert_agent, delete_subsets_of, create_subsets, insert_subsets,
  insert_all,
}
use migration_planner.Sources.Agents.{find_source, other_vcenter, SubsetForm, subset_row}
use migration_planner.Sources.Uploads.{
  UploadForm, new_agent_for_source, ensure_agent, uploaded, uploaded_subsets,
  replace_source_subsets, write_upload, update_inventory, update_inventory_body,
}
use migration_planner.Sources.Keeping.{
  source_at, Loads, find_source-Loads, write_source_rows, found_written,
}
use migration_planner.Sources.Keeping.Agents.{Loads-id}

-- The subsets of the source, and those of the others.
abbrev pub own : String → List SourceSubsetInventory → List SourceSubsetInventory
own id rows = filter (subset_of id) rows

abbrev pub others : String → List SourceSubsetInventory → List SourceSubsetInventory
others id rows = filter (λ s. not (subset_of id s)) rows

module _ {A : Type 0} (p : A → Bool) where
  filter-append : (xs ys : List A) → filter p (xs ++ ys) ≡ filter p xs ++ filter p ys
  filter-append [] ys = refl
  filter-append (x ∷ xs) ys = ground (arith, filter-append xs ys)

  filter-filter : (xs : List A) → filter p (filter p xs) ≡ filter p xs
  filter-filter [] = refl
  filter-filter (x ∷ xs) = ground (arith, filter-filter xs)

  filter-not : (xs : List A) → filter p (filter (λ x. not (p x)) xs) ≡ []
  filter-not [] = refl
  filter-not (x ∷ xs) = ground (arith, filter-not xs)

pub insert_all-append :
    (rows ss rows' : List SourceSubsetInventory)
    → insert_all rows ss ≡ some rows'
    → rows' ≡ rows ++ ss
insert_all-append rows [] rows' h = ground (arith, append-nil rows, h)
insert_all-append rows (s ∷ ss) rows' h =
    ground (arith, h, insert_all-append (rows ++ s ∷ []) ss rows', append_assoc rows (s ∷ []) ss)

own-uploaded :
    (id : String) (ss : List SubsetForm)
    → let rows = map (λ (s : SubsetForm). subset_row "manual" (record s { source_id = id })) ss in
      (own id rows ≡ rows) × (others id rows ≡ [])
own-uploaded id [] = (refl, refl)
own-uploaded id (s ∷ ss) =
    let (mine, none_else) = own-uploaded id ss in
    (ground (arith, mine, eq_iff id id), ground (arith, none_else, eq_iff id id))

-- The subsets after the rows of the source are deleted and the new ones are inserted.
replaced :
    (form : UploadForm) (rows : List SourceSubsetInventory)
    → let rows' = others form.source_id rows ++ uploaded_subsets form in
      (own form.source_id rows' ≡ uploaded_subsets form)
      × (others form.source_id rows' ≡ others form.source_id rows)
replaced form rows =
    let id = form.source_id in
    let (mine, none_else) = own-uploaded id form.subsets in
    (
      filter-append (subset_of id) (others id rows) (uploaded_subsets form)
          ∙ ap (λ xs. xs ++ own id (uploaded_subsets form)) (filter-not (subset_of id) rows)
          ∙ mine,
      filter-append (λ s. not (subset_of id s)) (others id rows) (uploaded_subsets form)
          ∙ ap (λ xs. others id (others id rows) ++ xs) none_else
          ∙ append-nil (others id (others id rows))
          ∙ filter-filter (λ s. not (subset_of id s)) rows,
    )

-- The subsets are as before, and the source is in its place.
abbrev Untouched : Db → String → Source → Db → Type 0
Untouched before id s db = (db.source_subsets ≡ before.source_subsets) × (source_at id db ≡ some s)

insert_agent_untouched :
    (a b : Agent) (db db' : Db)
    → insert_agent a db ≡ ok (b, db')
    → (db'.source_subsets ≡ db.source_subsets) × (db'.sources ≡ db.sources)
insert_agent_untouched a b db db' h = (ground arith, ground arith)

ensure_agent-Yields :
    (form : UploadForm) (l : LoadedSource) (before : Db) (id : String) (w : World)
    → Untouched before id l.source w.db
    → Yields (λ _ db. Untouched before id l.source db) (ensure_agent form l) w
unfolding create_agent
ensure_agent-Yields form l before id w known =
    let Q = λ (_ : Unit {0}) (db : Db). Untouched before id l.source db in
    Yields-if Q (any (has_agent_id form.agent_id) l.agents) (pure tt) _ w
      (λ _. Yields-pure Q tt w known)
      (λ _.
        Yields-bind Q (λ _ db. Untouched before id l.source db)
          (create_agent (new_agent_for_source form.agent_id l.source)) (λ _. pure tt) w
          (Yields-statement (λ _ db. Untouched before id l.source db) _ w
            (λ a db ran.
              let (subsets, sources) = insert_agent_untouched _ a w.db db ran in
              (subsets ∙ known.0, ap (λ rows. find (has_source_id id) rows) sources ∙ known.1)))
          (λ a w' known'. Yields-pure Q tt w' known'))

-- The source with what an upload gives; this is the answer.
abbrev pub with_upload : UploadForm → Source → Source
with_upload form s = record s {
  vcenter_id = form.vcenter_id;
  inventory = some form.inventory;
  on_premises = true;
  update_type = "manual";
}

-- The row of the source: an upload without a vCenter leaves the one that was there.
abbrev pub upload_row : UploadForm → Source → Source
upload_row form s = record (with_upload form s) {
  vcenter_id = if str_eq form.vcenter_id "" then s.vcenter_id else form.vcenter_id;
}

-- The subsets of an upload belong to the source, whichever source their forms name.
abbrev pub upload_subset : String → SubsetForm → SourceSubsetInventory
upload_subset source_id s = record {
  id = s.id;
  name = s.name;
  source_id = source_id;
  vcenter_id = s.vcenter_id;
  vms_count = s.vms_count;
  inventory = s.inventory;
  update_type = "manual";
}

written_upload :
    (form : UploadForm) (s : Source)
    → s.id ≡ form.source_id
    → written_source (uploaded form s) s ≡ upload_row form s
written_upload form s named =
    ground (arith, eq_iff s.id s.id, eq_iff s.name "", eq_iff s.username "", eq_iff s.org_id "")

-- The source as it is written, and the subsets of the upload in the place of those that it had.
pub record Replaced (before : Db) (form : UploadForm) (s : Source) (after : Db) : Type 0 where
  pub source : source_at form.source_id after ≡ some (upload_row form s)
  pub own_subsets :
      own form.source_id after.source_subsets ≡ map (upload_subset form.source_id) form.subsets
  pub other_subsets :
      others form.source_id after.source_subsets ≡ others form.source_id before.source_subsets

-- The source has been written, and the subsets are those given.
abbrev Holding : String → Source → List SourceSubsetInventory → Db → Type 0
Holding id t rows db = (source_at id db ≡ some t) × (db.source_subsets ≡ rows)

-- A call that leaves the sources alone keeps the source that is found.
still_found :
    (id : String) (t : Source) (x y : Db)
    → y.sources ≡ x.sources
    → source_at id x ≡ some t
    → source_at id y ≡ some t
still_found id t x y same found = ap (λ rows. find (has_source_id id) rows) same ∙ found

inserted_subsets :
    (ss : List SourceSubsetInventory) (db db' : Db)
    → insert_subsets ss db ≡ ok (tt, db')
    → (db'.source_subsets ≡ db.source_subsets ++ ss) × (db'.sources ≡ db.sources)
inserted_subsets ss db db' h = (
  ground (arith, h, insert_all-append db.source_subsets ss db'.source_subsets),
  ground (arith, h),
)

dropped_subsets :
    (id : String) (db db' : Db)
    → ◌≡◌ {A = Result (Unit {0} × Db)}
        (ok (tt, record db { source_subsets = others id db.source_subsets }))
        (ok (tt, db'))
    → db'.source_subsets ≡ others id db.source_subsets
dropped_subsets id db db' h = ground (arith, h)

create_subsets-Yields :
    (id : String) (t : Source) (rows ss : List SourceSubsetInventory) (w : World)
    → Holding id t rows w.db
    → Yields (λ _ db. Holding id t (rows ++ ss) db) (create_subsets ss) w
unfolding create_subsets
create_subsets-Yields id t rows [] w (found, same) =
    Yields-pure (λ _ db. Holding id t (rows ++ []) db) tt w (found, same ∙ sym (append-nil rows))
create_subsets-Yields id t rows (s ∷ ss) w (found, same) =
    Yields-statement (λ _ db. Holding id t (rows ++ s ∷ ss) db) (insert_subsets (s ∷ ss)) w
      (λ _ db ran.
        let (inserted, sources) = inserted_subsets (s ∷ ss) w.db db ran in
        (still_found id t w.db db sources found, inserted ∙ ap (λ xs. xs ++ s ∷ ss) same))

replace_source_subsets-Yields :
    (form : UploadForm) (t : Source) (rows : List SourceSubsetInventory) (w : World)
    → Holding form.source_id t rows w.db
    → Yields
        (λ _ db. Holding form.source_id t (others form.source_id rows ++ uploaded_subsets form) db)
        (replace_source_subsets form)
        w
unfolding replace_source_subsets delete_subsets_of
replace_source_subsets-Yields form t rows w (found, same) =
    let id = form.source_id in
    Yields-bind (λ _ db. Holding id t (others id rows ++ uploaded_subsets form) db)
      (λ _ db. Holding id t (others id rows) db) (delete_subsets_of id)
      (λ _. create_subsets (uploaded_subsets form)) w
      (Yields-statement (λ _ db. Holding id t (others id rows) db) _ w
        (λ _ db ran. (
          still_found id t w.db db (ground (arith, ran)) found,
          dropped_subsets id w.db db ran ∙ ap (others id) same,
        )))
      (λ _ w' held. create_subsets-Yields id t (others id rows) (uploaded_subsets form) w' held)

written-Holding :
    (form : UploadForm) (s : Source) (before : Db) (row : Source) (db db' : Db)
    → s.id ≡ form.source_id
    → Untouched before form.source_id s db
    → write_source (uploaded form s) db ≡ ok (row, db')
    → Holding form.source_id (written_source (uploaded form s) s) before.source_subsets db'
written-Holding form s before row db db' named (subsets, found) h =
    let id = form.source_id in
    let (_, written) =
      write_source_rows (uploaded form s) s row db db' (ap (λ i. source_at i db) named ∙ found) h in
    (
      ap (source_at id) written ∙ found_written id (uploaded form s) s db.sources found,
      ap (λ (x : Db). x.source_subsets) written ∙ subsets,
    )

write_upload-Yields :
    (form : UploadForm) (s : Source) (before : Db) (w : World)
    → s.id ≡ form.source_id
    → Untouched before form.source_id s w.db
    → Yields (λ t db. (t ≡ with_upload form s) × Replaced before form s db) (write_upload form s) w
unfolding update_source_row
write_upload-Yields form s before w named (subsets, found) =
    let id = form.source_id in
    let t = written_source (uploaded form s) s in
    let rows = before.source_subsets in
    let Q = λ (x : Source) (db : Db). (x ≡ with_upload form s) × Replaced before form s db in
    let R = λ (db : Db). Holding id t (others id rows ++ uploaded_subsets form) db in
    Yields-if Q (other_vcenter s form.vcenter_id) (throw invalid_vcenter_id) _ w
      (λ _. Yields-throw Q invalid_vcenter_id w)
      (λ _.
        Yields-bind Q (λ _ db. R db)
          (update_source_row (uploaded form s) >> replace_source_subsets form)
          (λ _. pure (uploaded form s)) w
          (Yields-bind (λ _ db. R db) (λ _ db. Holding id t rows db)
            (update_source_row (uploaded form s)) (λ _. replace_source_subsets form) w
            (Yields-statement (λ _ db. Holding id t rows db) (write_source (uploaded form s)) w
              (λ row db ran. written-Holding form s before row w.db db named (subsets, found) ran))
            (λ _ w' held. replace_source_subsets-Yields form t rows w' held))
          (λ _ w' held.
            let (mine, rest) = replaced form rows in
            Yields-pure Q (uploaded form s) w' (
              refl,
              record {
                source = held.0 ∙ ap some (written_upload form s named);
                own_subsets = ap (own id) held.1 ∙ mine;
                other_subsets = ap (others id) held.1 ∙ rest;
              },
            )))

-- What an upload leaves, for the source that was found.
abbrev Uploaded : UploadForm → Db → Source → Db → Type 0
Uploaded form before t after =
    (s : Source) × (source_at form.source_id before ≡ some s)
    × (t ≡ with_upload form s)
    × Replaced before form s after

update_inventory_body-Yields :
    (form : UploadForm) (before : Db) (w : World)
    → w.db ≡ before
    → Yields (Uploaded form before) (update_inventory_body form) w
update_inventory_body-Yields form before w start =
    Yields-read (Uploaded form before) (Loads form.source_id) (find_source form.source_id) _ w
      (find_source-Loads form.source_id)
      (λ l w' same found.
        Yields-bind (Uploaded form before) (λ _ db. Untouched before form.source_id l.source db)
          (ensure_agent form l) (λ _. write_upload form l.source) w'
          (ensure_agent-Yields form l before form.source_id w' (
            ap (λ (x : Db). x.source_subsets) (same ∙ start),
            ap (source_at form.source_id) same ∙ found,
          ))
          (λ _ w'' untouched t ran.
            let (is_uploaded, replaced_all) =
              write_upload-Yields form l.source before w'' (Loads-id form.source_id w.db l found)
                untouched t ran in
            (
              l.source,
              ap (source_at form.source_id) (sym start) ∙ found,
              is_uploaded,
              replaced_all,
            )))

-- An UpdateInventory that succeeds found the source. It returns it with the form's vCenter and
-- inventory, as updated by hand and on premises, and so it is written, but that an upload without a
-- vCenter leaves the one that was written before; the subsets of the source are then
-- exactly the form's, in their order, and the subsets of every other source are as they were.
pub update_inventory-Replaced :
    (form : UploadForm) (w : World) (t : Source)
    → (update_inventory form w).0 ≡ ok t
    → (s : Source) × (source_at form.source_id w.db ≡ some s)
      × (t ≡ with_upload form s)
      × Replaced w.db form s (update_inventory form w).1.db
unfolding update_inventory
update_inventory-Replaced form w t ran =
    Yields-transaction (Uploaded form w.db) (update_inventory_body form) w
      (λ w₀ start. update_inventory_body-Yields form w.db w₀ start) t ran
