-- ===== src/Prelude/Totals.antt =====
-- The sum of what the cells of an array count for.
use Prim.Native.Nat.{ℕ, zero, suc, ◌+◌, ◌<◌, ◌≤◌}
use mathlib.Core.Path.{◌≡◌, refl, sym, ap, ap₂, ◌∙◌}
use mathlib.Core.Logic.{inl, inr}
use native.Mathlib.Omega.{arith}
use server_study.Prelude.Tests.{◌==◌, compare_cases, Bool-cases}
use server_study.Prelude.Arrays.{Array, update}

module _ {ℓ} {A : Type ℓ} (f : A → ℕ) where
  abbrev pub total : Array A → ℕ → ℕ
  total a zero = 0
  total a (suc n) = f (a n) + total a n

  pub total-update_beyond :
      (a : Array A) (n t : ℕ) (x : A) → n ≤ t → total (update a t x) n ≡ total a n
  total-update_beyond a zero t x h = refl
  total-update_beyond a (suc n) t x h =
      let e = total-update_beyond a n t x (omega (arith, h)) in ground arith

  pub total-update :
      (a : Array A) (n t : ℕ) (x : A) → t < n → total (update a t x) n + f (a t) ≡ total a n + f x
  total-update a zero t x h = absurd (omega (arith, h))
  total-update a (suc n) t x h = elim (compare_cases t n) [
    | inl lt ↦ let e = total-update a n t x lt in ground arith
    | inr (inl here) ↦ let e = total-update_beyond a n t x (omega (arith, here)) in ground arith
    | inr (inr gt) ↦ absurd (omega (arith, h, gt))
  ]

  pub at-total : (a : Array A) (n t : ℕ) → t < n → f (a t) ≤ total a n
  at-total a zero t h = absurd (omega (arith, h))
  at-total a (suc n) t h = elim (compare_cases t n) [
    | inl lt ↦ omega (arith, at-total a n t lt)
    | inr (inl here) ↦ rw here (omega arith)
    | inr (inr gt) ↦ absurd (omega (arith, h, gt))
  ]

  pub total-zero : (a : Array A) (n : ℕ) → ((t : ℕ) → f (a t) ≡ 0) → total a n ≡ 0
  total-zero a zero h = refl
  total-zero a (suc n) h = omega (arith, h n, total-zero a n h)

  pub total-same : (a b : Array A) (n : ℕ) → ((t : ℕ) → f (a t) ≡ f (b t)) → total a n ≡ total b n
  total-same a b zero h = refl
  total-same a b (suc n) h = ap₂ ◌+◌ (h n) (total-same a b n h)

-- A cell that gets what it holds.
pub update_same {ℓ} :
    {A : Type ℓ} (a : Array A) (i : ℕ) (x : A) → a i ≡ x → (j : ℕ) → a j ≡ update a i x j
update_same a i x e j = elim (Bool-cases (j == i)) [
  | inl same ↦ let here : j ≡ i = ground arith in rw same (ap a here ∙ e)
  | inr other ↦ rw other refl
]

-- Where one count is zero only if another is.
pub total-none {ℓ} :
    {A : Type ℓ} (g f : A → ℕ) (a : Array A) (n : ℕ)
    → ((x : A) → g x ≡ 0 → f x ≡ 0)
    → total g a n ≡ 0
    → total f a n ≡ 0
total-none g f a zero h e = refl
total-none g f a (suc n) h e =
    omega (arith, h (a n) (omega (arith, e)), total-none g f a n h (omega (arith, e)))

-- A cell that counts for no more than before.
pub total-update_down {ℓ} :
    {A : Type ℓ} (f : A → ℕ) (a : Array A) (n t : ℕ) (x : A)
    → f x ≤ f (a t)
    → total f (update a t x) n ≤ total f a n
total-update_down f a n t x h = elim (compare_cases t n) [
  | inl lt ↦ omega (arith, h, total-update f a n t x lt)
  | inr (inl here) ↦ omega (arith, total-update_beyond f a n t x (omega (arith, here)))
  | inr (inr gt) ↦ omega (arith, total-update_beyond f a n t x (omega (arith, gt)))
]

pub total-next {ℓ} :
    {A : Type ℓ} (f : A → ℕ) (a : Array A) (n : ℕ) → total f a (n + 1) ≡ f (a n) + total f a n
total-next f a n = ap (total f a) (let e : n + 1 ≡ suc n = omega arith in e)

-- A cell that gets back what it held.
pub update_back {ℓ} :
    {A : Type ℓ} (a : Array A) (i : ℕ) (x y : A)
    → a i ≡ y
    → (j : ℕ) → update (update a i x) i y j ≡ a j
update_back a i x y e j = elim (Bool-cases (j == i)) [
  | inl same ↦ let here : j ≡ i = ground arith in rw same (sym e ∙ ap a (sym here))
  | inr other ↦ rw other refl
]
