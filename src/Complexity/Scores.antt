-- ===== src/Complexity/Scores.antt =====
-- The scores themselves: what the order of the map may change, and how the two scores combine.
use mathlib.Core.List.{Permᴰ}
use migration_planner.Prelude.{
  String, ◌≡◌, refl, sym, ap, ◌∙◌, Bool, false, not, ◌&&◌, List, [], ◌∷◌, ◌==◌, ◌≤◌, arith, any,
  if◌then◌else◌,
}
use migration_planner.Complexity.Tables.{Score}
use migration_planner.Complexity.{is_match, classify_os, combine_complexity}

-- A key that matches the name but carries another score.
unfoldable pub disagrees : (String → String) → String → Score → String × Score → Bool
disagrees lower os_name s e = is_match lower os_name e && not (e.1 == s)

-- Where no key that matches carries another score than `s`, the answer is `s` if a key matches.
classify_os-any :
    (lower : String → String) (os_name : String) (s : Score) (order : List (String × Score))
    → any (disagrees lower os_name s) order ≡ false
    → classify_os lower order os_name ≡ (if any (is_match lower os_name) order then s else 0)
unfolding classify_os disagrees
classify_os-any lower os_name s [] h = refl
classify_os-any lower os_name s ((k, t) ∷ rest) h =
    ground (arith, classify_os-any lower os_name s rest)

any-Perm : {A : Type 0} (p : A → Bool) (xs ys : List A) → Permᴰ xs ys → any p xs ≡ any p ys
any-Perm p _ _ Permᴰ.nil = refl
any-Perm p _ _ (Permᴰ.cons {l₁ = xs} {l₂ = ys} e h) = ground (arith, ap p e, any-Perm p xs ys h)
any-Perm p _ _ (Permᴰ.swap {l = xs} e f) = ground (arith, ap p e, ap p f)
any-Perm p xs zs (Permᴰ.trans {l₂ = ys} h k) = any-Perm p xs ys h ∙ any-Perm p ys zs k

-- Two orders in which `range` may visit the same keys give the same score, where no key that
-- matches the name carries another score than `s`.
classify_os-order :
    (lower : String → String) (os_name : String) (s : Score) (order order' : List (String × Score))
    → any (disagrees lower os_name s) order ≡ false
    → Permᴰ order order'
    → classify_os lower order os_name ≡ classify_os lower order' os_name
classify_os-order lower os_name s order order' agree same =
    classify_os-any lower os_name s order agree
    ∙ ap (λ b. if b then s else 0) (any-Perm (is_match lower os_name) order order' same)
    ∙ sym (
        classify_os-any lower os_name s order'
          (sym (any-Perm (disagrees lower os_name s) order order' same) ∙ agree))

combine_disk-≤ :
    (os d d' : Score) → 1 ≤ d → d ≤ d' → d' ≤ 4 → combine_complexity os d ≤ combine_complexity os d'
unfolding combine_complexity
combine_disk-≤ os d d' h k l = ground arith

combine_os-≤ :
    (os os' d : Score) → os ≤ os' → os' ≤ 4 → combine_complexity os d ≤ combine_complexity os' d
unfolding combine_complexity
combine_os-≤ os os' d h k = ground arith

-- A harder OS and a larger disk never make the combined score smaller, for the scores that the
-- matrix has.
combine_complexity-≤ :
    (os os' d d' : Score)
    → os ≤ os'
    → os' ≤ 4
    → 1 ≤ d
    → d ≤ d'
    → d' ≤ 4
    → combine_complexity os d ≤ combine_complexity os' d'
combine_complexity-≤ os os' d d' h h₄ k k' k₄ =
    omega (arith, combine_disk-≤ os d d' k k' k₄, combine_os-≤ os os' d' h h₄)
