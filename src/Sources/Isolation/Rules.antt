-- ===== src/Sources/Isolation/Rules.antt =====
-- Calls that leave another source intact: one rule for each way to build a method.
use migration_planner.Prelude.{
  String, Bool, true, false, not, ◌≡◌, refl, sym, ap, ◌∙◌, some, List, [], ◌∷◌, map, filter, str_eq,
  if◌then◌else◌, arith,
}
use mathlib.Core.Path.{subst}
use migration_planner.Access.Model.{SourceSubsetInventory}
use migration_planner.Access.Store.{ok, Db, M, ◌>>=◌}
use migration_planner.Access.Store.Effects.{Effects, Effects-statement, Effects-bind, Same}
use migration_planner.Sources.Store.{
  has_source_id, subset_of, agent_of, label_of, image_of, insert_all, insert_subsets,
  delete_labels_of, delete_subsets_of, delete_source_row,
}
use migration_planner.Sources.Agents.{SubsetForm, subset_row}
use migration_planner.Sources.Rows.{find-filter, filter-append_other, filter-filter_other}
use migration_planner.Sources.Isolation.{Intact, Intact-refl, Intact-trans, other_id}
use migration_planner.Sources.Replacing.{insert_all-append}

module _ {A : Type 0} (id : String) where
  pub bind-Intact :
      {B : Type 0} (m : M A) (k : A → M B)
      → Effects (Intact id) m
      → ((a : A) → Effects (Intact id) (k a))
      → Effects (Intact id) (m >>= k)
  bind-Intact m k first rest =
      Effects-bind (Intact id) (Intact-refl id) (Intact id) m k (Intact-trans id) first rest

  pub if-Intact :
      (b : Bool) (m n : M A)
      → Effects (Intact id) m
      → Effects (Intact id) n
      → Effects (Intact id) (if b then m else n)
  if-Intact true m n h k = h
  if-Intact false m n h k = k

  pub Same-Intact : (m : M A) → Effects Same m → Effects (Intact id) m
  Same-Intact m h w = subst (Intact id w.db) (sym (h w)) (Intact-refl id w.db)

module _ (id t : String) (apart : str_eq t id ≡ false) where
  pub delete_labels_of-Intact : Effects (Intact id) (delete_labels_of t)
  delete_labels_of-Intact = Effects-statement (Intact id) (Intact-refl id) _ λ x y a h r found.
      let kept =
        filter-filter_other (label_of id) (λ l. not (label_of t l)) x.labels
          (λ b k. ground (arith, k, other_id t id b.source_id apart)) in
      (
        ground (arith, h, found),
        record {
          subsets = ground (arith, h);
          agents = ground (arith, h);
          labels = ground (arith, h, kept);
          images = ground (arith, h);
        },
      )

  pub delete_subsets_of-Intact : Effects (Intact id) (delete_subsets_of t)
  unfolding delete_subsets_of
  delete_subsets_of-Intact = Effects-statement (Intact id) (Intact-refl id) _ λ x y a h r found.
      let kept =
        filter-filter_other (subset_of id) (λ l. not (subset_of t l)) x.source_subsets
          (λ b k. ground (arith, k, other_id t id b.source_id apart)) in
      (
        ground (arith, h, found),
        record {
          subsets = ground (arith, h, kept);
          agents = ground (arith, h);
          labels = ground (arith, h);
          images = ground (arith, h);
        },
      )

  pub own_rows_none :
      (kind : String) (ss : List SubsetForm)
      → filter
          (subset_of id)
          (map (λ (s : SubsetForm). subset_row kind (record s { source_id = t })) ss)
        ≡ []
  own_rows_none kind [] = refl
  own_rows_none kind (s ∷ ss) = ground (arith, apart, own_rows_none kind ss)

  pub insert_subsets-Intact :
      (ss : List SourceSubsetInventory) (x y : Db) (a : Unit {0})
      → filter (subset_of id) ss ≡ []
      → insert_subsets ss x ≡ ok (a, y)
      → Intact id x y
  insert_subsets-Intact ss x y a none_own h r found =
      let kept =
        λ (rows : List SourceSubsetInventory) (e : insert_all x.source_subsets ss ≡ some rows).
          ap (filter (subset_of id)) (insert_all-append x.source_subsets ss rows e)
          ∙ filter-append_other (subset_of id) x.source_subsets ss none_own in
      (
        ground (arith, h, found),
        record {
          subsets = ground (arith, h, kept y.source_subsets);
          agents = ground (arith, h);
          labels = ground (arith, h);
          images = ground (arith, h);
        },
      )

  pub delete_source_row-Intact : Effects (Intact id) (delete_source_row t)
  unfolding delete_source_row
  delete_source_row-Intact = Effects-statement (Intact id) (Intact-refl id) _ λ x y a h r found.
      let still =
        find-filter (has_source_id id) (λ s. not (has_source_id t s)) x.sources
          (λ b k. ground (arith, k, other_id t id b.id apart)) in
      let subsets =
        filter-filter_other (subset_of id) (λ l. not (subset_of t l)) x.source_subsets
          (λ b k. ground (arith, k, other_id t id b.source_id apart)) in
      let agents =
        filter-filter_other (agent_of id) (λ l. not (agent_of t l)) x.agents
          (λ b k. ground (arith, k, other_id t id b.source_id apart)) in
      let labels =
        filter-filter_other (label_of id) (λ l. not (label_of t l)) x.labels
          (λ b k. ground (arith, k, other_id t id b.source_id apart)) in
      let images =
        filter-filter_other (image_of id) (λ l. not (image_of t l)) x.image_infras
          (λ b k. ground (arith, k, other_id t id b.source_id apart)) in
      (
        ground (arith, h, found, still),
        record {
          subsets = ground (arith, h, subsets);
          agents = ground (arith, h, agents);
          labels = ground (arith, h, labels);
          images = ground (arith, h, images);
        },
      )
