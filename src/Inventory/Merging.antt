-- ===== src/Inventory/Merging.antt =====
-- Maps that are merged key by key.
use mathlib.Core.Path.{subst}
use migration_planner.Prelude.{
  ℕ, String, ◌≡◌, refl, sym, ap, ◌∙◌, Bool, true, false, Option, some, List, [], ◌∷◌, arith, str_eq,
  eq_iff, if◌then◌else◌, ◌<◌, add64, modulus, total, total-lt, Dict, lookup, insert, lookup-insert,
}
use migration_planner.Inventory.{or_zero, add_counts, combined, merge_into}

-- The count of a key.
abbrev pub value_at : String → Dict ℕ → ℕ
value_at key m = or_zero (lookup key m)

-- The counts that stand under the key; a Go map has one at most.
abbrev pub counts_at : String → Dict ℕ → List ℕ
counts_at key [] = []
counts_at key ((name, count) ∷ rest) =
    let counts = counts_at key rest in if str_eq key name then count ∷ counts else counts

value_at-insert :
    (key name : String) (count : ℕ) (m : Dict ℕ)
    → value_at key (insert name count m) ≡ (if str_eq key name then count else value_at key m)
value_at-insert key name count m = ground (arith, lookup-insert name key count m)

added :
    (here : Bool) (x y c : ℕ) (cs : List ℕ)
    → x < modulus
    → (here ≡ true → y ≡ x)
    → let z = if here then add64 y c else x in
      (z < modulus) × (add64 z (total cs) ≡ add64 x (total (if here then c ∷ cs else cs)))
added true x y c cs h same = (ground arith, ground (arith, total-lt cs, same))
added false x y c cs h same = (h, refl)

-- `range` adds each count to that of its key.
pub value_at-add_counts :
    (key : String) (m src : Dict ℕ)
    → value_at key m < modulus
    → (value_at key (add_counts m src) ≡ add64 (value_at key m) (total (counts_at key src)))
      × (value_at key (add_counts m src) < modulus)
unfolding add_counts
value_at-add_counts key m [] h = (omega arith, h)
value_at-add_counts key m ((name, count) ∷ rest) h =
    let m' = insert name (add64 (value_at name m) count) m in
    let here = value_at-insert key name (add64 (value_at name m) count) m in
    let (below, sums) =
      added (str_eq key name) (value_at key m) (value_at name m) count (counts_at key rest) h
        (λ e. ap (λ k. value_at k m) (sym ((eq_iff key name).0 e))) in
    let (value, bound) =
      value_at-add_counts key m' rest (subst (λ n. n < modulus) (sym here) below) in
    (value ∙ ap (λ n. add64 n (total (counts_at key rest))) here ∙ sums, bound)

module _ {T : Type 0} (combine : T → T → T) where
  -- The values that stand under the key, and their combination onto a value that may be missing.
  abbrev pub values_at : String → Dict T → List T
  values_at key [] = []
  values_at key ((name, value) ∷ rest) =
      let values = values_at key rest in if str_eq key name then value ∷ values else values

  abbrev pub combine_all : Option T → List T → Option T
  combine_all acc [] = acc
  combine_all acc (v ∷ vs) = combine_all (some (combined combine acc v)) vs

  merged_key :
      (here : Bool) (x y : Option T) (v : T) (vs : List T)
      → (here ≡ true → y ≡ x)
      → combine_all (if here then some (combined combine y v) else x) vs
        ≡ combine_all x (if here then v ∷ vs else vs)
  merged_key true x y v vs same = ap (λ o. combine_all (some (combined combine o v)) vs) (same refl)
  merged_key false x y v vs same = refl

  -- mergeMap: a key has what it had, with each value of the source under it combined onto it; the
  -- first value of a new key is kept as it is.
  pub lookup-merge_into :
      (key : String) (dst src : Dict T)
      → lookup key (merge_into combine dst src) ≡ combine_all (lookup key dst) (values_at key src)
  unfolding merge_into
  lookup-merge_into key dst [] = refl
  lookup-merge_into key dst ((name, value) ∷ rest) =
      lookup-merge_into key (insert name (combined combine (lookup name dst) value) dst) rest
      ∙ ap (λ o. combine_all o (values_at key rest))
          (lookup-insert name key (combined combine (lookup name dst) value) dst)
      ∙ merged_key (str_eq key name) (lookup key dst) (lookup name dst) value (values_at key rest)
          (λ e. ap (λ k. lookup k dst) (sym ((eq_iff key name).0 e)))
