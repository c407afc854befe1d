-- ===== src/Prelude/Words.antt =====
-- Go's 64-bit `int` and `int64` as bit patterns: numbers below 2 ^ 64, of which those from
-- 2 ^ 63 on stand for the negative values. Addition wraps around, as in Go.
use Prim.Native.Nat.{ℕ, ◌+◌, ◌-◌, ◌%◌, ◌^◌, ◌<◌}
use mathlib.Core.Bool.{Bool, ◌&&◌}
use mathlib.Core.List.{List, [], ◌∷◌, map, Permᴰ}
use mathlib.Core.Path.{◌≡◌, refl, ap, ap₂, ◌∙◌}
use native.Mathlib.Omega.{arith}
use migration_planner.Prelude.Tests.{ltb, leb}

abbrev pub modulus : ℕ
modulus = 2 ^ 64

abbrev pub half_modulus : ℕ
half_modulus = 2 ^ 63

abbrev pub add64 : ℕ → ℕ → ℕ
add64 a b = (a + b) % modulus

abbrev pub sub64 : ℕ → ℕ → ℕ
sub64 a b = (a + modulus - b) % modulus

-- The signed order: the negative patterns come first.
abbrev pub lt64 : ℕ → ℕ → Bool
lt64 a b = ltb ((a + half_modulus) % modulus) ((b + half_modulus) % modulus)

abbrev pub is_negative : ℕ → Bool
is_negative a = leb half_modulus a

abbrev pub is_positive : ℕ → Bool
is_positive a = ltb 0 a && ltb a half_modulus

-- The sum with wrap-around that a loop `total += x` computes.
abbrev pub total : List ℕ → ℕ
total [] = 0
total (x ∷ xs) = add64 x (total xs)

pub total-lt : (xs : List ℕ) → total xs < modulus
total-lt [] = omega arith
total-lt (x ∷ xs) = omega arith

-- The order of what is added does not matter.
pub map-Perm :
    {A : Type 0} (f : A → ℕ) (xs ys : List A) → Permᴰ xs ys → total (map f xs) ≡ total (map f ys)
map-Perm f _ _ Permᴰ.nil = refl
map-Perm f _ _ (Permᴰ.cons {l₁ = xs} {l₂ = ys} e h) = ap₂ add64 (ap f e) (map-Perm f xs ys h)
map-Perm f _ _ (Permᴰ.swap {l = xs} e g) = omega (arith, ap f e, ap f g)
map-Perm f xs zs (Permᴰ.trans {l₂ = ys} h k) = map-Perm f xs ys h ∙ map-Perm f ys zs k
