-- ===== src/Prelude/Weights.antt =====
-- What the elements of a list count for.
use Prim.Native.Nat.{ℕ, ◌+◌}
use mathlib.Core.Path.{◌≡◌, refl, ap, sym, ◌∙◌}
use mathlib.Core.List.{List, [], ◌∷◌, ◌++◌}
use native.Mathlib.Omega.{arith}
use server_study.Prelude.Lists.{length}
use server_study.Prelude.Windows.{take, drop}
use server_study.Prelude.Parts.{take-drop}

module _ {ℓ} {T : Type ℓ} (f : T → ℕ) where
  abbrev pub weigh : List T → ℕ
  weigh [] = 0
  weigh (t ∷ ts) = f t + weigh ts

  pub weigh-append : (xs ys : List T) → weigh (xs ++ ys) ≡ weigh xs + weigh ys
  weigh-append [] ys = omega arith
  weigh-append (x ∷ xs) ys = omega (arith, weigh-append xs ys)

  pub weigh-parts : (n : ℕ) (xs : List T) → weigh (take n xs) + weigh (drop n xs) ≡ weigh xs
  weigh-parts n xs = sym (weigh-append (take n xs) (drop n xs)) ∙ ap weigh (take-drop n xs)

module _ {ℓ} {T : Type ℓ} where
  abbrev pub one : T → ℕ
  one t = 1

  pub weigh-one : (ts : List T) → weigh one ts ≡ length ts
  weigh-one [] = refl
  weigh-one (t ∷ ts) = omega (arith, weigh-one ts)

  pub none_left : (ts : List T) → weigh one ts ≡ 0 → ts ≡ []
  none_left [] e = refl
  none_left (t ∷ ts) e = absurd (omega (arith, e))
