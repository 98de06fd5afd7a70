-- ===== src/MagicBuffer/Memory.antt =====
-- The bytes of a magic buffer: what the program reads and writes from an address of it on.
use server_study.Prelude.{
  ℕ, zero, suc, ◌+◌, ◌-◌, ◌*◌, ◌%◌, ◌^◌, ◌<◌, ◌≤◌, ◌≡◌, refl, ap, ap₂, sym, ◌∙◌, subst, Bool, true,
  false, Option, none, some, List, [], ◌∷◌, Array, update, ◌==◌, if◌then◌else◌, ltb, arith,
  Bool-cases, inl, inr, map, window, fill, length,
}
use native.Mathlib.Nat.{mod-eq_of_lt, mod-eq-sub-mod}
use server_study.MagicBuffer.{System, MagicBuffer, construct}
use server_study.MagicBuffer.Views.{View, covers, Maps}
use server_study.MagicBuffer.Mirror.{
  Mirrors, Constructed, first_view, second_view, construct-Constructed,
}

-- The sections' bytes. An address outside all views has none.
abbrev pub Contents : Type 0
Contents = Array (Array ℕ)

abbrev pub byte_at : Contents → ℕ → Option View → Option ℕ
byte_at bytes x none = none
byte_at bytes x (some v) = some (bytes v.map (x - v.address))

abbrev pub set_byte : Contents → ℕ → ℕ → Option View → Contents
set_byte bytes x a none = bytes
set_byte bytes x a (some v) = update bytes v.map (update (bytes v.map) (x - v.address) a)

abbrev pub load : Contents → Array (Option View) → ℕ → ℕ → List (Option ℕ)
load bytes views x zero = []
load bytes views x (suc n) = byte_at bytes x (views x) ∷ load bytes views (x + 1) n

abbrev pub store : Contents → Array (Option View) → ℕ → List ℕ → Contents
store bytes views x [] = bytes
store bytes views x (a ∷ rest) = store (set_byte bytes x a (views x)) views (x + 1) rest

abbrev pub zeros : ℕ → List ℕ
zeros zero = []
zeros (suc n) = 0 ∷ zeros n

-- `ZeroMemory(buffer_, size_)`
unfoldable pub clear : Contents → Array (Option View) → MagicBuffer → Contents
clear bytes views b = store bytes views b.buffer (zeros b.size)

-- A view of the section that shows its bytes modulo the size.
pub record Shows (b : MagicBuffer) (i : ℕ) (here : Option View) : Type 0 where
  pub view : View
  pub there : here ≡ some view
  pub section : view.map ≡ b.map
  pub place : b.buffer + i - view.address ≡ i % b.size

-- Arrays that hold the same hold the same after.
fill_alike :
    (a b : Array ℕ) (s i : ℕ) (xs : List ℕ)
    → ((j : ℕ) → a j ≡ b j)
    → (j : ℕ) → fill a s i xs j ≡ fill b s i xs j
fill_alike a b s i [] h j = h j
fill_alike a b s i (x ∷ xs) h j =
    fill_alike (update a (i % s) x) (update b (i % s) x) s (i + 1) xs
      (λ k. ap (λ y. if k == i % s then x else y) (h k)) j

length-zeros : (n : ℕ) → length (zeros n) ≡ n
length-zeros zero = refl
length-zeros (suc n) = ap suc (length-zeros n)

-- What is zero stays so, and the cells from `i` on become zero.
fill-zeros :
    (a : Array ℕ) (s i n j : ℕ)
    → i + n ≤ s
    → (j < i → a j ≡ 0)
    → j < i + n
    → fill a s i (zeros n) j ≡ 0
fill-zeros a s i zero j small before inside = before (omega (arith, inside))
fill-zeros a s i (suc n) j small before inside =
    let here : i % s ≡ i = mod-eq_of_lt (omega (arith, small)) in
    fill-zeros (update a (i % s) 0) s (i + 1) n j (omega (arith, small))
      (λ less. rw here (elim (Bool-cases (j == i)) [
        | inl same ↦ rw same refl
        | inr other ↦ rw other (before (ground arith))
      ]))
      (omega (arith, inside))

module _ {W : Type 0} {views : W → Array (Option View)} {is_open : W → Array Bool} {w w' : W}
    {size : ℕ} {b : MagicBuffer} (m : Mirrors views is_open w size b w') where
  Mirrors-Shows : (i : ℕ) → i < 2 * b.size → Shows b i (views w' (b.buffer + i))
  Mirrors-Shows i inside = elim (Bool-cases (ltb i b.size)) [
    | inl low ↦
        let other : covers (second_view b) (b.buffer + i) ≡ false = ground arith in
        let here : covers (first_view b) (b.buffer + i) ≡ true = ground arith in
        record {
          view = first_view b;
          there = m.shown (b.buffer + i) ∙ rw (other, here) refl;
          section = refl;
          place = let e = mod-eq_of_lt (let h : i < b.size = ground arith in h) in omega (arith, e);
        }
    | inr high ↦
        let here : covers (second_view b) (b.buffer + i) ≡ true = ground arith in
        record {
          view = second_view b;
          there = m.shown (b.buffer + i) ∙ rw here refl;
          section = refl;
          place =
              let e = mod-eq-sub-mod (let h : b.size ≤ i = ground arith in h) in
              let e' = mod-eq_of_lt (let h : i - b.size < b.size = ground arith in h) in
              omega (arith, e, e');
        }
  ]

  load-window :
      (bytes : Contents) (p n : ℕ)
      → p + n ≤ 2 * b.size
      → load bytes (views w') (b.buffer + p) n ≡ map some (window (bytes b.map) b.size p n)
  load-window bytes p zero inside = refl
  load-window bytes p (suc n) inside =
      let s = Mirrors-Shows p (omega (arith, inside)) in
      let one : byte_at bytes (b.buffer + p) (views w' (b.buffer + p))
          ≡ some (bytes b.map (p % b.size)) =
        rw s.there (rw (s.section, s.place) refl) in
      ap₂ ◌∷◌ one (
        ap (λ x. load bytes (views w') x n)
          (let e : b.buffer + p + 1 ≡ b.buffer + (p + 1) = omega arith in e)
        ∙ load-window bytes (p + 1) n (omega (arith, inside)))

  store-fill :
      (bytes : Contents) (p : ℕ) (xs : List ℕ)
      → p + length xs ≤ 2 * b.size
      → (j : ℕ)
      → store bytes (views w') (b.buffer + p) xs b.map j ≡ fill (bytes b.map) b.size p xs j
  store-fill bytes p [] inside j = refl
  store-fill bytes p (x ∷ xs) inside j =
      let s = Mirrors-Shows p (omega (arith, inside)) in
      let bytes' = set_byte bytes (b.buffer + p) x (views w' (b.buffer + p)) in
      ap (λ y. store bytes' (views w') y xs b.map j)
        (let e : b.buffer + p + 1 ≡ b.buffer + (p + 1) = omega arith in e)
      ∙ (store-fill bytes' (p + 1) xs (omega (arith, inside)) j
          ∙ fill_alike (bytes' b.map) (update (bytes b.map) (p % b.size) x) b.size (p + 1) xs
              (λ i.
                let same : (b.map == b.map) ≡ true = ground arith in
                rw s.there (rw (s.section, s.place, same) refl))
              j)

-- In the memory that the constructor of MagicBuffer leaves, for a size below 2^32: what the program reads from
-- a place of the buffer on, and what it writes there, across the end of the first half and as far as that of
-- the second, is read from and written to the one section modulo the size; and Clear sets all of it to zero.
pub load-store :
    {W : Type 0} {system : System W} {views : W → Array (Option View)} {is_open : W → Array Bool}
    (maps : Maps views is_open system) (w w' : W) (size : ℕ) (b : MagicBuffer) (bytes : Contents)
    (p : ℕ) (xs : List ℕ)
    → size < 2 ^ 32
    → construct system w size ≡ (some b, w')
    → p + length xs ≤ 2 * b.size
    → (load bytes (views w') (b.buffer + p) (length xs)
        ≡ map some (window (bytes b.map) size p (length xs)))
      × ((j : ℕ)
          → store bytes (views w') (b.buffer + p) xs b.map j ≡ fill (bytes b.map) size p xs j)
      × ((j : ℕ) → (if ltb j size then clear bytes (views w') b b.map j else 0) ≡ 0)
unfolding clear
load-store {views = views} {is_open} maps w w' size b bytes p xs small built inside =
    let m : Mirrors views is_open w size b w' =
      subst (Constructed views is_open w size) built (construct-Constructed maps w size small) in
    let s = m.sized in
    (
      load-window m bytes p (length xs) inside
          ∙ ap (λ k. map some (window (bytes b.map) k p (length xs))) s,
      λ j. store-fill m bytes p xs inside j ∙ ap (λ k. fill (bytes b.map) k p xs j) s,
      λ j. elim (Bool-cases (ltb j size)) [
        | inl less ↦
            let len = length-zeros b.size in
            let all = store-fill m bytes 0 (zeros b.size) (omega (arith, len)) j in
            let none_else =
              fill-zeros (bytes b.map) b.size 0 b.size j (omega arith)
                (λ l. absurd (omega (arith, l))) (ground (arith, s)) in
            let start : b.buffer + 0 ≡ b.buffer = omega arith in
            rw less (
              ap (λ x. store bytes (views w') x (zeros b.size) b.map j) (sym start)
              ∙ (all ∙ none_else))
        | inr more ↦ rw more refl
      ],
    )
