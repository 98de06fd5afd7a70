-- ===== src/Prelude/Bytes.antt =====
-- Numbers as little-endian bytes, and a list of bytes as memory.
use Prim.Native.Nat.{ℕ, zero, suc, ◌+◌, ◌*◌, ◌/◌, ◌%◌, ◌^◌, ◌<◌, ◌≤◌}
use mathlib.Core.Path.{◌≡◌, refl, sym, ap, ap₂, ◌∙◌}
use mathlib.Core.List.{List, [], ◌∷◌, ◌++◌, append_assoc}
use native.Mathlib.Omega.{arith}
use native.Mathlib.Nat.{pow-suc, mod-eq_of_lt}
use server_study.Prelude.Arrays.{Array}
use server_study.Prelude.Lists.{length, length-append}
use server_study.Prelude.Windows.{window}

abbrev pub to_bytes : ℕ → ℕ → List ℕ
to_bytes zero n = []
to_bytes (suc k) n = n % 256 ∷ to_bytes k (n / 256)

abbrev pub from_bytes : List ℕ → ℕ
from_bytes [] = 0
from_bytes (b ∷ bytes) = b + 256 * from_bytes bytes

pub length-to_bytes : (k n : ℕ) → length (to_bytes k n) ≡ k
length-to_bytes zero n = refl
length-to_bytes (suc k) n = ap suc (length-to_bytes k (n / 256))

pub from_bytes-to_bytes : (k n : ℕ) → n < 256 ^ k → from_bytes (to_bytes k n) ≡ n
from_bytes-to_bytes zero n h = omega (arith, h)
from_bytes-to_bytes (suc k) n h =
    let e = from_bytes-to_bytes k (n / 256) (omega (arith, h, pow-suc 256 k)) in omega (arith, e)

-- What stands past the end of an object is 0 here; nothing reads it.
abbrev pub memory : List ℕ → Array ℕ
memory [] i = 0
memory (b ∷ bytes) zero = b
memory (b ∷ bytes) (suc i) = memory bytes i

memory-append : (xs ys : List ℕ) (i : ℕ) → memory (xs ++ ys) (length xs + i) ≡ memory ys i
memory-append [] ys i = ap (memory ys) (let e : 0 + i ≡ i = omega arith in e)
memory-append (x ∷ xs) ys i =
    ap (memory (x ∷ xs ++ ys))
      (let e : suc (length xs) + i ≡ suc (length xs + i) = omega arith in e)
    ∙ memory-append xs ys i

window_behind :
    (xs ys : List ℕ) (s : ℕ)
    → length xs + length ys ≤ s
    → window (memory (xs ++ ys)) s (length xs) (length ys) ≡ ys
window_behind xs [] s h = refl
window_behind xs (y ∷ ys) s h =
    let here : length xs % s ≡ length xs + 0 = grind (arith, mod-eq_of_lt) in
    let last = length-append xs (y ∷ []) in
    ap₂ ◌∷◌ (ap (memory (xs ++ y ∷ ys)) here ∙ memory-append xs (y ∷ ys) 0) (
      ap₂ (λ l i. window (memory l) s i (length ys)) (sym (append_assoc xs (y ∷ []) ys)) (sym last)
      ∙ window_behind (xs ++ y ∷ []) ys s (omega (arith, last)))

pub window-memory :
    (bytes : List ℕ) (s : ℕ) → length bytes ≤ s → window (memory bytes) s 0 (length bytes) ≡ bytes
window-memory bytes s h = window_behind [] bytes s (omega arith)
