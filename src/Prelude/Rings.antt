-- ===== src/Prelude/Rings.antt =====
-- A ring between a head and a tail index that only grow: what a put and a take do to its contents.
use Prim.Native.Nat.{ℕ, suc, ◌+◌, ◌-◌, ◌%◌, ◌≤◌, ◌<◌}
use mathlib.Core.Path.{◌≡◌, ap, ap₂, ◌∙◌}
use mathlib.Core.List.{[], ◌∷◌, ◌++◌}
use native.Mathlib.Omega.{arith}
use server_study.Prelude.Arrays.{Array, update}
use server_study.Prelude.Windows.{window, window-append, window-fill_append}

module _ {ℓ} {A : Type ℓ} where
  pub window_last :
      (a : Array A) (s i j : ℕ)
      → i < j
      → window a s i (j - i) ≡ window a s i (j - 1 - i) ++ a ((j - 1) % s) ∷ []
  window_last a s i j h =
      ap (window a s i) (let e : j - i ≡ j - 1 - i + 1 = omega arith in e)
      ∙ window-append a s i (j - 1 - i) 1
      ∙ ap (λ m. window a s i (j - 1 - i) ++ a (m % s) ∷ [])
          (let e : i + (j - 1 - i) ≡ j - 1 = omega arith in e)

  pub window_first :
      (a : Array A) (s i j : ℕ)
      → i < j
      → window a s i (j - i) ≡ a (i % s) ∷ window a s (i + 1) (j - (i + 1))
  window_first a s i j h = ap (window a s i) (let e : j - i ≡ suc (j - (i + 1)) = omega arith in e)

  pub window-put :
      (a : Array A) (s i j : ℕ) (x : A)
      → i ≤ j
      → j < i + s
      → window (update a (j % s) x) s i (j + 1 - i) ≡ window a s i (j - i) ++ x ∷ []
  window-put a s i j x o h =
      ap₂ (λ (k n : ℕ). window (update a (k % s) x) s i n)
        (let e : j ≡ i + (j - i) = omega arith in e)
        (let e : j + 1 - i ≡ j - i + 1 = omega arith in e)
      ∙ window-fill_append a s i (j - i) (x ∷ []) (omega arith)
