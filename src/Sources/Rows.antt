-- ===== src/Sources/Rows.antt =====
-- The first row with an id, after the writes that the stores make.
use migration_planner.Prelude.{
  Bool, true, false, ◌≡◌, refl, some, List, [], ◌∷◌, ◌++◌, map, filter, find, arith,
}
use mathlib.Core.Option

module _ {ℓ} {A : Type ℓ} where
  -- A write that keeps what the search reads.
  pub find-map :
      (p : A → Bool) (f : A → A) (rows : List A)
      → ((a : A) → p (f a) ≡ p a)
      → find p (map f rows) ≡ Option.map f (find p rows)
  find-map p f [] h = refl
  find-map p f (r ∷ rows) h = ground (arith, h r, find-map p f rows h)

  pub find-append :
      (p : A → Bool) (rows more : List A) (a : A)
      → find p rows ≡ some a
      → find p (rows ++ more) ≡ some a
  find-append p [] more a h = absurd (cc)
  find-append p (r ∷ rows) more a h = ground (arith, find-append p rows more a)

  -- Rows that the search does not want may go.
  pub find-filter :
      (p q : A → Bool) (rows : List A)
      → ((a : A) → p a ≡ true → q a ≡ true)
      → find p (filter q rows) ≡ find p rows
  find-filter p q [] h = refl
  find-filter p q (r ∷ rows) h = ground (arith, h r, find-filter p q rows h)

  pub find_test : (p : A → Bool) (rows : List A) (a : A) → find p rows ≡ some a → p a ≡ true
  find_test p [] a h = absurd (cc)
  find_test p (r ∷ rows) a h = ground (arith, find_test p rows a)

  -- Writes to rows that a test does not want.
  pub filter-append_other :
      (p : A → Bool) (rows more : List A)
      → filter p more ≡ []
      → filter p (rows ++ more) ≡ filter p rows
  filter-append_other p [] more h = h
  filter-append_other p (r ∷ rows) more h = ground (arith, filter-append_other p rows more h)

  pub filter-filter_other :
      (p q : A → Bool) (rows : List A)
      → ((a : A) → p a ≡ true → q a ≡ true)
      → filter p (filter q rows) ≡ filter p rows
  filter-filter_other p q [] h = refl
  filter-filter_other p q (r ∷ rows) h = ground (arith, h r, filter-filter_other p q rows h)

  pub filter-map_other :
      (p : A → Bool) (f : A → A) (rows : List A)
      → ((a : A) → p a ≡ true → f a ≡ a)
      → ((a : A) → p a ≡ false → p (f a) ≡ false)
      → filter p (map f rows) ≡ filter p rows
  filter-map_other p f [] h k = refl
  filter-map_other p f (r ∷ rows) h k = ground (arith, h r, k r, filter-map_other p f rows h k)

  pub find-map_other :
      (p : A → Bool) (f : A → A) (rows : List A)
      → ((a : A) → p a ≡ true → f a ≡ a)
      → ((a : A) → p a ≡ false → p (f a) ≡ false)
      → find p (map f rows) ≡ find p rows
  find-map_other p f [] h k = refl
  find-map_other p f (r ∷ rows) h k = ground (arith, h r, k r, find-map_other p f rows h k)
