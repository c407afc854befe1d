-- ===== src/Sources/Subsets.antt =====
-- The subsets of a source after the calls that write them.
use migration_planner.Prelude.{
  String, Bool, true, false, not, ◌≡◌, refl, ap, ◌∙◌, Option, none, some, List, [], ◌∷◌, ◌++◌, map,
  str_eq, eq_iff, if◌then◌else◌, any, find, filter, arith,
}
use migration_planner.Access.Model.{
  Source, SourceSubsetInventory, source_inventory_required, invalid_vcenter_id, resource_not_found,
}
use migration_planner.Access.Store.{ok, Db, World, ◌>>=◌, pure, throw, catch, statement, query}
use migration_planner.Access.Store.Effects.{Reads, Reads-Same, Same-catch, Same-query}
use migration_planner.Access.Store.Yields.{
  Yields, Yields-throw, Yields-pure, Yields-if, Yields-statement, Yields-bind, Yields-read,
}
use migration_planner.Access.Requests.{or_not_found}
use migration_planner.Access.Partner.{not_found_as}
use mathlib.Core.Path.{subst}
use migration_planner.Sources.Store.{
  LoadedSource, get_source, has_subset_id, get_subset, create_subset, update_subset, delete_subset,
  insert_subset, written_subset, write_subset,
}
use migration_planner.Sources.Agents.{
  find_source, other_vcenter, SubsetForm, update_source_subset, delete_source_subset,
  has_no_inventory, optional,
}
use migration_planner.Sources.Agents
use migration_planner.Sources.Keeping.{source_at, Loads, find_source-Loads}

module _ {A : Type 0} where
  -- The row, if there is one.
  pub Reads-optional :
      (f : Db → Option A) → Reads (λ db o. f db ≡ o) (optional (query (λ db. or_not_found (f db))))
  unfolding query statement
  Reads-optional f w = (ground arith, λ a h. ground arith)

-- The row of a form that an agent sends.
abbrev pub agent_row : SubsetForm → SourceSubsetInventory
agent_row form = record {
  id = form.id;
  name = form.name;
  source_id = form.source_id;
  vcenter_id = form.vcenter_id;
  vms_count = form.vms_count;
  inventory = form.inventory;
  update_type = "auto";
}

-- The subsets with the one that is written.
abbrev pub with_subset :
    SourceSubsetInventory → List SourceSubsetInventory → List SourceSubsetInventory
with_subset s rows =
    if any (has_subset_id s.id) rows then map (written_subset s) rows else rows ++ s ∷ []

-- What the call leaves: the row, the answer whether it is new, and every other row as it was.
pub record Written (before after : List SourceSubsetInventory) (form : SubsetForm)
    (answer : SourceSubsetInventory × Bool) : Type 0 where
  pub row : answer.0 ≡ agent_row form
  pub created : answer.1 ≡ not (any (has_subset_id form.id) before)
  pub rows : after ≡ with_subset (agent_row form) before

-- The call was allowed by the source: it has an inventory, and no other vCenter.
abbrev pub Allowed : Db → SubsetForm → Type 0
Allowed db form =
    (s : Source) × (source_at form.source_id db ≡ some s)
    × (has_no_inventory s ≡ false)
    × (other_vcenter s form.vcenter_id ≡ false)

abbrev Done : Db → SubsetForm → SourceSubsetInventory × Bool → Db → Type 0
Done before form answer after =
    Written before.source_subsets after.source_subsets form answer
    × (after ≡ record before { source_subsets = after.source_subsets })

found_any :
    (id : String) (rows : List SourceSubsetInventory) (s : SourceSubsetInventory)
    → find (has_subset_id id) rows ≡ some s
    → any (has_subset_id id) rows ≡ true
found_any id [] s h = absurd (cc)
found_any id (r ∷ rows) s h = ground (arith, found_any id rows s)

not_found_any :
    (id : String) (rows : List SourceSubsetInventory)
    → find (has_subset_id id) rows ≡ none
    → any (has_subset_id id) rows ≡ false
not_found_any id [] h = refl
not_found_any id (r ∷ rows) h = ground (arith, not_found_any id rows)

created-Done :
    (form : SubsetForm) (db db' : Db) (s : SourceSubsetInventory)
    → any (has_subset_id form.id) db.source_subsets ≡ false
    → insert_subset (agent_row form) db ≡ ok (s, db')
    → Done db form (s, true) db'
created-Done form db db' s absent h = (
  record {
    row = ground (arith, h);
    created = ground (arith, absent);
    rows = ground (arith, h, absent);
  },
  ground (arith, h),
)

updated-Done :
    (form : SubsetForm) (db db' : Db) (s : SourceSubsetInventory)
    → any (has_subset_id form.id) db.source_subsets ≡ true
    → write_subset (agent_row form) db ≡ ok (s, db')
    → Done db form (s, false) db'
updated-Done form db db' s there h = (
  record {
    row = ground (arith, h);
    created = ground (arith, there);
    rows = ground (arith, h, there);
  },
  ground (arith, h),
)

write_subset-Yields :
    (form : SubsetForm) (existing : Option SourceSubsetInventory) (w : World)
    → find (has_subset_id form.id) w.db.source_subsets ≡ existing
    → Yields (Done w.db form) (Agents.write_subset form existing) w
unfolding create_subset update_subset
write_subset-Yields form none w h =
    Yields-bind (Done w.db form) (λ s db. Done w.db form (s, true) db)
      (create_subset (agent_row form)) (λ s. pure (s, true)) w
      (Yields-statement (λ s db. Done w.db form (s, true) db) (insert_subset (agent_row form)) w
        (λ s db ran. created-Done form w.db db s (not_found_any form.id w.db.source_subsets h) ran))
      (λ s w' done. Yields-pure (Done w.db form) (s, true) w' done)
write_subset-Yields form (some old) w h =
    Yields-bind (Done w.db form) (λ s db. Done w.db form (s, false) db)
      (update_subset (agent_row form)) (λ s. pure (s, false)) w
      (Yields-statement (λ s db. Done w.db form (s, false) db) (write_subset (agent_row form)) w
        (λ s db ran. updated-Done form w.db db s (found_any form.id w.db.source_subsets old h) ran))
      (λ s w' done. Yields-pure (Done w.db form) (s, false) w' done)

abbrev AllowedDone : Db → SubsetForm → SourceSubsetInventory × Bool → Db → Type 0
AllowedDone before form answer after = Allowed before form × Done before form answer after

checked_write-Yields :
    (form : SubsetForm) (l : LoadedSource) (db : Db) (w : World)
    → w.db ≡ db
    → Loads form.source_id db l
    → has_no_inventory l.source ≡ false
    → other_vcenter l.source form.vcenter_id ≡ false
    → Yields (AllowedDone db form) (optional (get_subset form.id) >>= Agents.write_subset form) w
unfolding get_subset
checked_write-Yields form l db w same found full vcenter =
    Yields-read (AllowedDone db form) (λ db o. find (has_subset_id form.id) db.source_subsets ≡ o)
      (optional (get_subset form.id)) (Agents.write_subset form) w
      (Reads-optional (λ db. find (has_subset_id form.id) db.source_subsets))
      (λ o w' same' sought answer ran. (
        (l.source, found, full, vcenter),
        subst (λ before. Done before form answer (Agents.write_subset form o w').1.db)
            (same' ∙ same)
            (write_subset-Yields form o w'
              (ap (λ (x : Db). find (has_subset_id form.id) x.source_subsets) same' ∙ sought) answer
              ran),
      ))

update_source_subset-Yields :
    (form : SubsetForm) (w : World) → Yields (AllowedDone w.db form) (update_source_subset form) w
unfolding update_source_subset
update_source_subset-Yields form w =
    Yields-read (AllowedDone w.db form) (Loads form.source_id) (find_source form.source_id) _ w
      (find_source-Loads form.source_id)
      (λ l w' same found.
        Yields-if (AllowedDone w.db form) (has_no_inventory l.source)
          (throw source_inventory_required) _ w'
          (λ _. Yields-throw (AllowedDone w.db form) source_inventory_required w')
          (λ full.
            Yields-if (AllowedDone w.db form) (other_vcenter l.source form.vcenter_id)
              (throw invalid_vcenter_id) _ w'
              (λ _. Yields-throw (AllowedDone w.db form) invalid_vcenter_id w')
              (λ vcenter. checked_write-Yields form l w.db w' same found full vcenter)))

-- An UpdateSourceSubset that succeeds was for a source that has an inventory and no vCenter but the
-- form's. It returns the form's row and whether no subset had the id before; the row is in the
-- place of the subset with the id, or else last, and nothing else of the tables has changed.
pub update_source_subset-Written :
    (form : SubsetForm) (w : World) (answer : SourceSubsetInventory × Bool)
    → (update_source_subset form w).0 ≡ ok answer
    → let after = (update_source_subset form w).1.db in
      Allowed w.db form
      × Written w.db.source_subsets after.source_subsets form answer
      × (after ≡ record w.db { source_subsets = after.source_subsets })
update_source_subset-Written form w answer ran =
    let (allowed, done) = update_source_subset-Yields form w answer ran in (allowed, done.0, done.1)

Reads-subset :
    (id : String)
    → Reads
        (λ db s. Unit {0})
        (catch (get_subset id) (λ e. throw (not_found_as resource_not_found e)))
unfolding get_subset
Reads-subset id =
    Reads-Same (catch (get_subset id) (λ e. throw (not_found_as resource_not_found e)))
      (Same-catch (get_subset id) _ (Same-query _) (λ e w. refl))

abbrev without_subset : String → List SourceSubsetInventory → List SourceSubsetInventory
without_subset id rows = filter (λ s. not (has_subset_id id s)) rows

delete_source_subset-Yields :
    (source_id id : String) (w : World)
    → Yields
        (λ _ db. db ≡ record w.db { source_subsets = without_subset id w.db.source_subsets })
        (delete_source_subset source_id id)
        w
unfolding delete_source_subset delete_subset
delete_source_subset-Yields source_id id w =
    let Q = λ (_ : Unit {0}) (db : Db).
      db ≡ record w.db { source_subsets = without_subset id w.db.source_subsets } in
    Yields-read Q (Loads source_id) (find_source source_id) _ w (find_source-Loads source_id)
      (λ l w' same found.
        Yields-read Q (λ db s. Unit)
          (catch (get_subset id) (λ e. throw (not_found_as resource_not_found e))) _ w'
          (Reads-subset id)
          (λ s w'' same' _.
            Yields-if Q (not (str_eq s.source_id source_id)) (throw resource_not_found) _ w''
              (λ _. Yields-throw Q resource_not_found w'')
              (λ _. Yields-statement Q _ w'' (λ a db ran. ground (arith, ran, same, same')))))

without-append :
    (s : SourceSubsetInventory) (rows : List SourceSubsetInventory)
    → any (has_subset_id s.id) rows ≡ false
    → without_subset s.id (rows ++ s ∷ []) ≡ rows
without-append s [] h = ground (arith, eq_iff s.id s.id)
without-append s (r ∷ rows) h = ground (arith, h, without-append s rows)

restored :
    (s : SourceSubsetInventory) (x y z : Db)
    → y ≡ record x { source_subsets = y.source_subsets }
    → y.source_subsets ≡ x.source_subsets ++ s ∷ []
    → any (has_subset_id s.id) x.source_subsets ≡ false
    → z ≡ record y { source_subsets = without_subset s.id y.source_subsets }
    → z ≡ x
restored s x y z rest added new dropped =
    let back = ap (without_subset s.id) added ∙ without-append s x.source_subsets new in
    ground (arith, rest, dropped, back)

-- A DeleteSourceSubset right after the UpdateSourceSubset that created the subset, both with
-- success, leaves every table as it was before the two.
pub delete_source_subset-update_source_subset :
    (form : SubsetForm) (w w' : World) (row : SourceSubsetInventory)
    → (update_source_subset form w).0 ≡ ok (row, true)
    → w'.db ≡ (update_source_subset form w).1.db
    → (delete_source_subset form.source_id form.id w').0 ≡ ok tt
    → (delete_source_subset form.source_id form.id w').1.db ≡ w.db
delete_source_subset-update_source_subset form w w' row ran same deleted =
    let (_, written, rest) = update_source_subset-Written form w (row, true) ran in
    let new : any (has_subset_id form.id) w.db.source_subsets ≡ false =
      ground (arith, written.created) in
    restored (agent_row form) w.db (update_source_subset form w).1.db
      (delete_source_subset form.source_id form.id w').1.db rest (ground (arith, written.rows, new))
      new
      (subst
        (λ db.
          (delete_source_subset form.source_id form.id w').1.db
          ≡ record db { source_subsets = without_subset form.id db.source_subsets })
        same (delete_source_subset-Yields form.source_id form.id w' tt deleted))

found_subset_after :
    (form : SubsetForm) (old : SourceSubsetInventory) (rows : List SourceSubsetInventory)
    → find (has_subset_id form.id) rows ≡ some old
    → find (has_subset_id form.id) (map (written_subset (agent_row form)) rows)
      ≡ some (agent_row form)
found_subset_after form old [] h = absurd (cc)
found_subset_after form old (r ∷ rows) h =
    ground (arith, h, eq_iff form.id form.id, found_subset_after form old rows)

-- No database call fails.
abbrev pub healthy : Db → World
healthy db = record { db = db; faults = [] }

-- Where no database call fails, an UpdateSourceSubset for a source with an inventory and no other
-- vCenter succeeds whenever a subset has the id, whichever source this subset belongs to. The
-- subset then is the form's, and so belongs to the form's source.
pub update_source_subset_takes :
    (form : SubsetForm) (db : Db) (s : Source) (old : SourceSubsetInventory)
    → source_at form.source_id db ≡ some s
    → has_no_inventory s ≡ false
    → other_vcenter s form.vcenter_id ≡ false
    → find (has_subset_id form.id) db.source_subsets ≡ some old
    → let (result, w) = update_source_subset form (healthy db) in
      (result ≡ ok (agent_row form, false))
      × (find (has_subset_id form.id) w.db.source_subsets ≡ some (agent_row form))
unfolding update_source_subset find_source get_source get_subset update_subset query statement
update_source_subset_takes form db s old found full vcenter there =
    rw (found, full, vcenter, there, found_any form.id db.source_subsets old there)
      (refl, found_subset_after form old db.source_subsets there)
