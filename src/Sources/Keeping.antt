-- ===== src/Sources/Keeping.antt =====
-- What no call takes from a source: its owner, and its vCenter once it has one.
pub mod Rules
pub mod Agents
pub mod Uploads
pub mod Downloads
use migration_planner.Prelude.{
  String, false, ◌≡◌, refl, sym, ap, ◌∙◌, ◌⊎◌, inl, inr, Option, none, some, List, map, str_eq,
  eq_iff, find, arith, Bool-cases,
}
use mathlib.Core.Option
use mathlib.Core.Path.{subst}
use migration_planner.Access.Model.{Source, resource_not_found}
use migration_planner.Access.Store.{ok, Db, World}
use migration_planner.Access.Store.Effects.{
  Reads, Reads-query, Reads-catch, Reads-weaken, statement_at,
}
use migration_planner.Access.Partner.{not_found_as}
use migration_planner.Sources.Store.{
  LoadedSource, loaded, has_source_id, get_source, written_source, write_source, update_source_row,
}
use migration_planner.Sources.Agents.{find_source}
use migration_planner.Sources.Rows.{find-map, find_test}

abbrev pub source_at : String → Db → Option Source
source_at id db = find (has_source_id id) db.sources

some_injective : {A : Type 0} {a b : A} → some a ≡ some b → a ≡ b
some_injective h = ground arith

pub record Kept (s t : Source) : Type 0 where
  pub same_username : t.username ≡ s.username
  pub same_org : t.org_id ≡ s.org_id
  pub same_vcenter : (s.vcenter_id ≡ "") ⊎ (t.vcenter_id ≡ s.vcenter_id)

-- A source that has the id before has it after.
abbrev pub Keeps : String → Db → Db → Type 0
Keeps id x y =
    (s : Source) → source_at id x ≡ some s → (t : Source) × (source_at id y ≡ some t) × Kept s t

pub Kept-refl : (s : Source) → Kept s s
Kept-refl s = record { same_username = refl; same_org = refl; same_vcenter = inr refl }

pub Kept-trans : (s t u : Source) → Kept s t → Kept t u → Kept s u
Kept-trans s t u h k = record {
  same_username = k.same_username ∙ h.same_username;
  same_org = k.same_org ∙ h.same_org;
  same_vcenter = elim (h.same_vcenter) [
    | inl none_before ↦ inl none_before
    | inr same ↦ elim (k.same_vcenter) [
      | inl none_after ↦ inl (sym same ∙ none_after)
      | inr same' ↦ inr (same' ∙ same)
    ]
  ];
}

pub Keeps-refl : (id : String) (x : Db) → Keeps id x x
Keeps-refl id x s h = (s, h, Kept-refl s)

pub Keeps-trans : (id : String) (x y z : Db) → Keeps id x y → Keeps id y z → Keeps id x z
Keeps-trans id x y z h k s e =
    let (t, e', kept) = h s e in
    let (u, e'', kept') = k t e' in (u, e'', Kept-trans s t u kept kept')

pub same_sources-Keeps : (id : String) (x y : Db) → y.sources ≡ x.sources → Keeps id x y
same_sources-Keeps id x y e s h = (s, rw e h, Kept-refl s)

loaded_source :
    (db : Db) (o : Option Source) (l : LoadedSource) → loaded db o ≡ ok l → o ≡ some l.source
loaded_source db none l h = absurd (cc)
loaded_source db (some s) l h = ground arith

-- What is read is the first source with the id.
abbrev pub Loads : String → Db → LoadedSource → Type 0
Loads id db l = source_at id db ≡ some l.source

pub get_source-Loads : (id : String) → Reads (Loads id) (get_source id)
unfolding get_source
get_source-Loads id =
    Reads-weaken (λ db l. loaded db (source_at id db) ≡ ok l) (Loads id) (get_source id)
      (λ db l. loaded_source db (source_at id db) l)
      (Reads-query (λ db. loaded db (source_at id db)))

pub find_source-Loads : (id : String) → Reads (Loads id) (find_source id)
unfolding find_source
find_source-Loads id =
    Reads-catch (Loads id) (get_source id) (not_found_as resource_not_found) (get_source-Loads id)

-- The row that is written keeps what the source read has.
abbrev pub Follows : Source → Source → Type 0
Follows s u =
    (u.id ≡ s.id)
    × (u.username ≡ s.username)
    × (u.org_id ≡ s.org_id)
    × ((s.vcenter_id ≡ "") ⊎ (u.vcenter_id ≡ s.vcenter_id))

written_source_id : (u r : Source) → (written_source u r).id ≡ r.id
written_source_id u r = ground arith

written-Kept : (u s : Source) → Follows s u → Kept s (written_source u s)
written-Kept u s (same_id, same_username, same_org, vcenter) = record {
  same_username = ground (arith, eq_iff s.id u.id, same_username);
  same_org = ground (arith, eq_iff s.id u.id, same_org);
  same_vcenter = elim vcenter [
    | inl none_before ↦ inl none_before
    | inr same ↦ inr (ground (arith, eq_iff s.id u.id, same))
  ];
}

written_other : (u r : Source) → str_eq r.id u.id ≡ false → written_source u r ≡ r
written_other u r h = ground arith

-- Another source is left alone, and the source itself keeps what it has.
written_at :
    (id : String) (u s r : Source) (rows : List Source)
    → Follows s u
    → find (has_source_id u.id) rows ≡ some s
    → find (has_source_id id) rows ≡ some r
    → Kept r (written_source u r)
written_at id u s r rows follows found found' = elim (Bool-cases (str_eq r.id u.id)) [
  | inl this ↦
      let at_u : id ≡ u.id =
        sym ((eq_iff r.id id).0 (find_test (has_source_id id) rows r found'))
        ∙ (eq_iff r.id u.id).0 this in
      let same : find (has_source_id id) rows ≡ some s = rw at_u found in
      let this_one : s ≡ r = some_injective (sym same ∙ found') in
      subst (λ x. Kept x (written_source u x)) this_one (written-Kept u s follows)
  | inr other ↦ rw (written_other u r other) (Kept-refl r)
]

pub found_written :
    (id : String) (u s : Source) (rows : List Source)
    → find (has_source_id id) rows ≡ some s
    → find (has_source_id id) (map (written_source u) rows) ≡ some (written_source u s)
found_written id u s rows found =
    find-map (has_source_id id) (written_source u) rows
      (λ r. ap (λ x. str_eq x id) (written_source_id u r))
    ∙ ap (Option.map (written_source u)) found

pub write_source_rows :
    (u s row : Source) (db db' : Db)
    → source_at u.id db ≡ some s
    → write_source u db ≡ ok (row, db')
    → (row ≡ written_source u s) × (db' ≡ record db { sources = map (written_source u) db.sources })
write_source_rows u s row db db' found h =
    ground (arith, h, found_written u.id u s db.sources found)

write_source-Keeps :
    (id : String) (u s : Source) (db db' : Db) (row : Source)
    → Follows s u
    → source_at u.id db ≡ some s
    → write_source u db ≡ ok (row, db')
    → Keeps id db db'
write_source-Keeps id u s db db' row follows found h r found' =
    let (_, written) = write_source_rows u s row db db' found h in
    (
      written_source u r,
      ap (source_at id) written ∙ found_written id u r db.sources found',
      written_at id u s r db.sources follows found found',
    )

pub update_source_row-Keeps :
    (id : String) (u s : Source) (w : World)
    → Follows s u
    → source_at u.id w.db ≡ some s
    → Keeps id w.db (update_source_row u w).1.db
unfolding update_source_row
update_source_row-Keeps id u s w follows found =
    statement_at (Keeps id) (Keeps-refl id) (write_source u) w
      (λ row db' h. write_source-Keeps id u s w.db db' row follows found h)
