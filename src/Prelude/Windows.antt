-- ===== src/Prelude/Windows.antt =====
-- Arrays that are indexed modulo their size: what stands from an index on, and runs of writes.
use Prim.Native.Nat.{ℕ, zero, suc, ◌+◌, ◌-◌, ◌%◌, ◌≤◌, ◌<◌}
use mathlib.Core.Path.{◌≡◌, refl, ap, ap₂, ◌∙◌}
use mathlib.Core.Logic.{◌≢◌}
use mathlib.Core.List.{List, [], ◌∷◌, ◌++◌}
use native.Mathlib.Omega.{arith}
use native.Mathlib.Nat.{div-add-mod, mod-lt, add-mod_right}
use server_study.Prelude.Arrays.{Array, update}
use server_study.Prelude.Lists.{length}

-- Two indices less than the size apart fall on different cells.
pub mod-ne : (s i j : ℕ) → i < j → j < i + s → i % s ≢ j % s
mod-ne s i j h k e = grind (arith, div-add-mod, mod-lt)

module _ {ℓ} {A : Type ℓ} where
  -- What stands in the `n` cells from index `i` on.
  abbrev pub window : Array A → ℕ → ℕ → ℕ → List A
  window a s i zero = []
  window a s i (suc n) = a (i % s) ∷ window a s (i + 1) n

  -- Writes a list from index `i` on.
  abbrev pub fill : Array A → ℕ → ℕ → List A → Array A
  fill a s i [] = a
  fill a s i (x ∷ xs) = fill (update a (i % s) x) s (i + 1) xs

  abbrev pub drop : ℕ → List A → List A
  drop zero xs = xs
  drop (suc n) [] = []
  drop (suc n) (x ∷ xs) = drop n xs

  abbrev pub take : ℕ → List A → List A
  take zero xs = []
  take (suc n) [] = []
  take (suc n) (x ∷ xs) = x ∷ take n xs

module _ {ℓ} {A : Type ℓ} where
  pub length-window : (a : Array A) (s i n : ℕ) → length (window a s i n) ≡ n
  length-window a s i zero = refl
  length-window a s i (suc n) = ap suc (length-window a s (i + 1) n)

  pub window-append :
      (a : Array A) (s i m n : ℕ) → window a s i (m + n) ≡ window a s i m ++ window a s (i + m) n
  window-append a s i zero n =
      ap₂ (λ j k. window a s j k) (let e : i ≡ i + 0 = omega arith in e)
        (let e : 0 + n ≡ n = omega arith in e)
  window-append a s i (suc m) n =
      ap (λ k. window a s i k) (let e : suc m + n ≡ suc (m + n) = omega arith in e)
      ∙ ap (◌∷◌ (a (i % s))) (
          window-append a s (i + 1) m n
          ∙ ap (λ j. window a s (i + 1) m ++ window a s j n)
              (let e : i + 1 + m ≡ i + suc m = omega arith in e))

  -- An index may go round once.
  pub window_round : (a : Array A) (s i n : ℕ) → window a s (i + s) n ≡ window a s i n
  window_round a s i zero = refl
  window_round a s i (suc n) = ap₂ ◌∷◌ (ap a (add-mod_right i s)) (
      ap (λ j. window a s j n) (let e : i + s + 1 ≡ i + 1 + s = omega arith in e)
      ∙ window_round a s (i + 1) n)

  window-update :
      (a : Array A) (s i n j : ℕ) (x : A)
      → i + n ≤ j
      → j < i + s
      → window (update a (j % s) x) s i n ≡ window a s i n
  window-update a s i zero j x h k = refl
  window-update a s i (suc n) j x h k =
      ap₂ ◌∷◌ (ground (arith, mod-ne s i j))
        (window-update a s (i + 1) n j x (omega arith) (omega arith))

  -- Writes past a window, but not round to its start, leave it as it is.
  pub window-fill_before :
      (a : Array A) (s i n j : ℕ) (xs : List A)
      → i + n ≤ j
      → j + length xs ≤ i + s
      → window (fill a s j xs) s i n ≡ window a s i n
  window-fill_before a s i n j [] h k = refl
  window-fill_before a s i n j (x ∷ xs) h k =
      window-fill_before (update a (j % s) x) s i n (j + 1) xs (omega arith) (omega arith)
      ∙ window-update a s i n j x h (omega arith)

  fill_before :
      (a : Array A) (s i j : ℕ) (xs : List A)
      → i < j
      → j + length xs ≤ i + s
      → fill a s j xs (i % s) ≡ a (i % s)
  fill_before a s i j [] h k = refl
  fill_before a s i j (x ∷ xs) h k =
      fill_before (update a (j % s) x) s i (j + 1) xs (omega arith) (omega arith)
      ∙ ground (arith, mod-ne s i j)

  -- What was written stands there.
  pub window-fill :
      (a : Array A) (s i : ℕ) (xs : List A)
      → length xs ≤ s
      → window (fill a s i xs) s i (length xs) ≡ xs
  window-fill a s i [] h = refl
  window-fill a s i (x ∷ xs) h =
      ap₂ ◌∷◌
        (fill_before (update a (i % s) x) s i (i + 1) xs (omega arith) (omega arith) ∙ ground arith)
        (window-fill (update a (i % s) x) s (i + 1) xs (omega arith))

  -- So a window grows by what is written at its end.
  pub window-fill_append :
      (a : Array A) (s i n : ℕ) (xs : List A)
      → n + length xs ≤ s
      → window (fill a s (i + n) xs) s i (n + length xs) ≡ window a s i n ++ xs
  window-fill_append a s i n xs h =
      window-append (fill a s (i + n) xs) s i n (length xs)
      ∙ ap₂ ◌++◌ (window-fill_before a s i n (i + n) xs (omega arith) (omega arith))
          (window-fill a s (i + n) xs (omega arith))

  pub drop-window :
      (a : Array A) (s i m n : ℕ) → m ≤ n → drop m (window a s i n) ≡ window a s (i + m) (n - m)
  drop-window a s i zero n h =
      ap₂ (λ j k. window a s j k) (let e : i ≡ i + 0 = omega arith in e)
        (let e : n ≡ n - 0 = omega arith in e)
  drop-window a s i (suc m) zero h = absurd (omega arith)
  drop-window a s i (suc m) (suc n) h =
      drop-window a s (i + 1) m n (omega arith)
      ∙ ap₂ (λ j k. window a s j k) (let e : i + 1 + m ≡ i + suc m = omega arith in e)
          (let e : n - m ≡ suc n - suc m = omega arith in e)

  pub take-window : (a : Array A) (s i m n : ℕ) → m ≤ n → take m (window a s i n) ≡ window a s i m
  take-window a s i zero n h = refl
  take-window a s i (suc m) zero h = absurd (omega arith)
  take-window a s i (suc m) (suc n) h =
      ap (◌∷◌ (a (i % s))) (take-window a s (i + 1) m n (omega arith))
