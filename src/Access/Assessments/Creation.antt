-- ===== src/Access/Assessments/Creation.antt =====
-- CreateAssessment of the service: which assessment is made, and from what.
use mathlib.Core.Path.{subst}
use mathlib.Core.List.{Permᴰ}
use migration_planner.Prelude.{
  ◌≢◌, filter, ℕ, suc, ◌==◌, ◌≡◌, refl, sym, ap, ◌∙◌, String, Bool, true, false, not, ◌||◌, Option,
  none, some, List, [], ◌∷◌, arith, str_eq, eq_iff, find, if◌then◌else◌,
}
use migration_planner.Access.Model.{
  AssessmentRow, AssessmentInventory, Source, SourceSubsetInventory, creation_forbidden,
  inventory_has_no_vms, unknown_source_type,
}
use migration_planner.Access.Store.{
  ok, ok_injective, Db, World, ◌>>=◌, pure, throw, >>=_ok, guard_ok,
}
use migration_planner.Access.Store.Effects.{
  Effects, Same, Same-query, Same-bind, Same-if, Reads-query,
}
use migration_planner.Access.Requests.{or_not_found}
use migration_planner.Access.Assessments.Shares.{or_not_found-some}
use migration_planner.Access.AssessmentStore.{get_source, sort_by_id, list_source_subsets}
use migration_planner.Access.Assessments.Snapshots.{
  Snapshots, snapshot_of_ok, subset_snapshots-Snapshots, sort_by_id-Perm,
}
use migration_planner.Access.Assessments.{
  Parser, snapshot_of, subset_snapshots, with_snapshots, from_inventory, from_source, from_agent,
  with_inventories,
}

module _ (new_ids : ℕ → String) (parse : Parser) where
  pub snapshot_of-Same :
      (id name : String) (is_subset : Bool) (count : Option ℕ)
      → Effects Same (snapshot_of id name is_subset count)
  snapshot_of-Same id name is_subset none w = refl
  snapshot_of-Same id name is_subset (some count) w = refl

  subset_snapshots-Same :
      (n : ℕ) (rows : List SourceSubsetInventory)
      → Effects Same (subset_snapshots new_ids parse n rows)
  subset_snapshots-Same n [] = λ w. refl
  subset_snapshots-Same n (s ∷ rest) =
      Same-bind (snapshot_of (new_ids n) s.name true (parse s.inventory))
        (λ inventory. subset_snapshots new_ids parse (suc n) rest >>= λ inventories.
          pure (inventory ∷ inventories))
        (snapshot_of-Same (new_ids n) s.name true (parse s.inventory))
        λ inventory.
          Same-bind (subset_snapshots new_ids parse (suc n) rest)
            (λ inventories. pure (inventory ∷ inventories)) (subset_snapshots-Same (suc n) rest)
            (λ inventories w. refl)

  with_snapshots-Same :
      (a : AssessmentRow) (source_id : String) (main : AssessmentInventory)
      → Effects Same (with_snapshots new_ids parse a source_id main)
  with_snapshots-Same a source_id main =
      Same-if (main.vms_count == 0) (throw inventory_has_no_vms) _ (λ w. refl)
        (Same-bind (list_source_subsets source_id) _ (Same-query _) λ sources.
          Same-bind (subset_snapshots new_ids parse 1 sources) _ (subset_snapshots-Same 1 sources)
            (λ subsets w. refl))

  from_inventory-Same :
      (a : AssessmentRow) (source_id : String) (raw : Option String)
      → Effects Same (from_inventory new_ids parse a source_id raw)
  from_inventory-Same a source_id none = λ w. refl
  from_inventory-Same a source_id (some raw) =
      Same-bind (snapshot_of (new_ids 0) a.name false (parse raw))
        (with_snapshots new_ids parse a source_id)
        (snapshot_of-Same (new_ids 0) a.name false (parse raw)) (with_snapshots-Same a source_id)

  from_source-Same :
      (a : AssessmentRow) (source : Source) → Effects Same (from_source new_ids parse a source)
  from_source-Same a source =
      Same-if (not (str_eq source.org_id a.org_id) || not (str_eq source.username a.username))
        (throw creation_forbidden) _ (λ w. refl) (from_inventory-Same a source.id source.inventory)

  from_agent-Same :
      (a : AssessmentRow) (source_id : Option String)
      → Effects Same (from_agent new_ids parse a source_id)
  from_agent-Same a none = λ w. refl
  from_agent-Same a (some source_id) =
      Same-bind (get_source source_id) (from_source new_ids parse a) (Same-query _)
        (from_source-Same a)

  pub with_inventories-Same : (a : AssessmentRow) → Effects Same (with_inventories new_ids parse a)
  with_inventories-Same a =
      Same-if (str_eq a.source_type "rvtools" || str_eq a.source_type "inventory") (pure a) _
        (λ w. refl)
        (Same-if (str_eq a.source_type "agent") (from_agent new_ids parse a a.source_id)
          (throw unknown_source_type) (from_agent-Same a a.source_id) (λ w. refl))

-- The same assessment, with inventories.
abbrev pub Fills : AssessmentRow → AssessmentRow → Type 0
Fills a b = b ≡ record a { inventories = b.inventories }

-- The form gives the inventories.
abbrev pub is_given : AssessmentRow → Bool
is_given a = str_eq a.source_type "rvtools" || str_eq a.source_type "inventory"

-- The inventories that are made of the rows of a source: first one of the source, which has virtual
-- machines, with the name of the assessment, then one of each of its subsets.
abbrev pub MadeOf :
    (ℕ → String) → Parser → Db → AssessmentRow → Source → List AssessmentInventory → Type 0
MadeOf new_ids parse db a source inventories =
    (raw : String) × (count : ℕ) × (rows : List SourceSubsetInventory) × (subsets : List
      AssessmentInventory)
    × (source.inventory ≡ some raw)
    × (parse raw ≡ some count)
    × (count ≢ 0)
    × Permᴰ (filter (λ (s : SourceSubsetInventory). str_eq s.source_id source.id) db.source_subsets)
        rows
    × Snapshots new_ids parse 1 rows subsets
    × (inventories
        ≡ record { id = new_ids 0; name = a.name; is_subset = false; vms_count = count } ∷ subsets)

-- Inventories that are not given are made of a source of the user and the organization that the
-- assessment is made for.
abbrev pub OwnSource :
    Bool
    → (ℕ → String)
    → Parser
    → Db
    → AssessmentRow
    → Option String
    → List AssessmentInventory
    → Type 0
OwnSource true new_ids parse db a id inventories = inventories ≡ a.inventories
OwnSource false new_ids parse db a id inventories =
    (source_id : String) × (source : Source) × (id ≡ some source_id)
    × (find (λ (s : Source). str_eq s.id source_id) db.sources ≡ some source)
    × (source.org_id ≡ a.org_id)
    × (source.username ≡ a.username)
    × MadeOf new_ids parse db a source inventories

module _ (new_ids : ℕ → String) (parse : Parser) where
  with_snapshots-Fills :
      (a : AssessmentRow) (source_id : String) (main : AssessmentInventory) (w : World)
      (b : AssessmentRow)
      → (with_snapshots new_ids parse a source_id main w).0 ≡ ok b
      → (main.vms_count ≢ 0)
        × Fills a b
        × (rows : List SourceSubsetInventory) × (subsets : List AssessmentInventory) × Permᴰ
            (filter
              (λ (s : SourceSubsetInventory). str_eq s.source_id source_id)
              w.db.source_subsets)
            rows
        × Snapshots new_ids parse 1 rows subsets
        × (b.inventories ≡ main ∷ subsets)
  with_snapshots-Fills a source_id main w b h =
      let rows_of = λ (db : Db).
        filter (λ (s : SourceSubsetInventory). str_eq s.source_id source_id) db.source_subsets in
      let (some_vms, h₁) = guard_ok (main.vms_count == 0) inventory_has_no_vms _ w b h in
      let (sources, read, next) = >>=_ok (list_source_subsets source_id) _ w b h₁ in
      let w₁ = (list_source_subsets source_id w).1 in
      let (subsets, ran, last) =
        >>=_ok (subset_snapshots new_ids parse 1 sources) _ w₁ b (ap (λ o. o.0) (sym next) ∙ h₁) in
      let made : record a { inventories = main ∷ subsets } ≡ b =
        ok_injective _ b (ap (λ o. o.0) (sym last) ∙ ap (λ o. o.0) (sym next) ∙ h₁) in
      let sorted = (Reads-query (λ db. ok (sort_by_id (rows_of db))) w).1 sources read in
      (
        λ e. ground (arith, some_vms, e),
        sym made ∙ ap (λ (x : AssessmentRow). record a { inventories = x.inventories }) made,
        sources,
        subsets,
        subst (Permᴰ (rows_of w.db)) (ok_injective _ sources sorted)
            (sort_by_id-Perm (rows_of w.db)),
        subset_snapshots-Snapshots new_ids parse 1 sources w₁ subsets ran,
        ap (λ (x : AssessmentRow). x.inventories) (sym made),
      )

  from_inventory-Fills :
      (a : AssessmentRow) (source : Source) (raw : Option String) (w : World) (b : AssessmentRow)
      → source.inventory ≡ raw
      → (from_inventory new_ids parse a source.id raw w).0 ≡ ok b
      → Fills a b × MadeOf new_ids parse w.db a source b.inventories
  from_inventory-Fills a source none w b has h = ground arith
  from_inventory-Fills a source (some raw) w b has h =
      let this = snapshot_of (new_ids 0) a.name false (parse raw) in
      let (main, ran, next) = >>=_ok this (with_snapshots new_ids parse a source.id) w b h in
      let same = snapshot_of-Same new_ids parse (new_ids 0) a.name false (parse raw) w in
      let (count, parsed, one) = snapshot_of_ok (new_ids 0) a.name false (parse raw) w main ran in
      let (some_vms, fills, rows, subsets, all, made, inventories) =
        with_snapshots-Fills a source.id main (this w).1 b (ap (λ o. o.0) (sym next) ∙ h) in
      (
        fills,
        (
          raw,
          count,
          rows,
          subsets,
          has,
          parsed,
          λ e. some_vms (ap (λ (i : AssessmentInventory). i.vms_count) one ∙ e),
          subst
              (λ (db : Db).
                Permᴰ
                  (filter (λ (s : SourceSubsetInventory). str_eq s.source_id source.id)
                    db.source_subsets)
                  rows)
              same all,
          made,
          inventories ∙ ap (λ i. i ∷ subsets) one,
        ),
      )

  from_source-Fills :
      (a : AssessmentRow) (source : Source) (w : World) (b : AssessmentRow)
      → (from_source new_ids parse a source w).0 ≡ ok b
      → Fills a b
        × (source.org_id ≡ a.org_id)
        × (source.username ≡ a.username)
        × MadeOf new_ids parse w.db a source b.inventories
  from_source-Fills a source w b h =
      let (mine, h₁) =
        guard_ok (not (str_eq source.org_id a.org_id) || not (str_eq source.username a.username))
          creation_forbidden _ w b h in
      let (fills, made) = from_inventory-Fills a source source.inventory w b refl h₁ in
      (
        fills,
        ground (arith, eq_iff source.org_id a.org_id),
        ground (arith, eq_iff source.username a.username),
        made,
      )

  from_agent-Fills :
      (a : AssessmentRow) (source_id : Option String) (w : World) (b : AssessmentRow)
      → (from_agent new_ids parse a source_id w).0 ≡ ok b
      → Fills a b × OwnSource false new_ids parse w.db a source_id b.inventories
  from_agent-Fills a none w b h = ground arith
  from_agent-Fills a (some source_id) w b h =
      let (source, read, next) =
        >>=_ok (get_source source_id) (from_source new_ids parse a) w b h in
      let (fills, org, user, made) =
        from_source-Fills a source _ b (ap (λ o. o.0) (sym next) ∙ h) in
      let (same, known) =
        Reads-query (λ db. or_not_found (find (λ (s : Source). str_eq s.id source_id) db.sources))
          w in
      (
        fills,
        (
          source_id,
          source,
          refl,
          or_not_found-some _ source (known source read),
          org,
          user,
          subst (λ db. MadeOf new_ids parse db a source b.inventories) same made,
        ),
      )

  chosen-Fills :
      (a : AssessmentRow) (given is_agent : Bool) (w : World) (b : AssessmentRow)
      → let chosen =
          if given
          then pure a
          else if is_agent
          then from_agent new_ids parse a a.source_id
          else throw unknown_source_type in
        (chosen w).0 ≡ ok b
        → Fills a b × OwnSource given new_ids parse w.db a a.source_id b.inventories
  chosen-Fills a true is_agent w b h =
      let made : a ≡ b = ok_injective a b h in
      (
        sym made ∙ ap (λ (x : AssessmentRow). record a { inventories = x.inventories }) made,
        ap (λ (x : AssessmentRow). x.inventories) (sym made),
      )
  chosen-Fills a false true w b h = from_agent-Fills a a.source_id w b h
  chosen-Fills a false false w b h = ground arith

  -- The assessment made is the one of the form, filled with inventories, which are the form's or
  -- are made of a source that is the user's own.
  pub with_inventories-Fills :
      (a : AssessmentRow) (w : World) (b : AssessmentRow)
      → (with_inventories new_ids parse a w).0 ≡ ok b
      → Fills a b × OwnSource (is_given a) new_ids parse w.db a a.source_id b.inventories
  with_inventories-Fills a w b h = chosen-Fills a (is_given a) (str_eq a.source_type "agent") w b h
