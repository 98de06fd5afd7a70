-- ===== src/Connection/Welcome.antt =====
-- Session.cpp: the welcome packet that Connect sends.
use server_study.Prelude.{
  ℕ, zero, suc, ◌+◌, ◌-◌, ◌*◌, ◌/◌, ◌%◌, ◌^◌, ◌≤◌, ◌<◌, ◌≡◌, refl, ap, ap₂, sym, ◌∙◌, inl, inr,
  false, List, [], ◌∷◌, ◌++◌, ◌==◌, if◌then◌else◌, ltb, length, length-append, take, window,
  take-window, take-append, to_bytes, memory, window-memory, arith, Bool-cases,
}
use native.Mathlib.Nat.{pow-suc}
use server_study.Session.{header_size}
use server_study.Connection.{digits, print_handle, welcome_packet}

-- The number that decimal digits stand for, after those that make up `acc`.
unfoldable pub number : ℕ → List ℕ → ℕ
number acc [] = acc
number acc (d ∷ ds) = number (10 * acc + (d - 48)) ds

-- A signed number of 64 bits, as the word that holds it.
unfoldable pub read_handle : List ℕ → ℕ
read_handle [] = 0
read_handle (c ∷ cs) = if c == 45 then 2 ^ 64 - number 0 cs else number 0 (c ∷ cs)

number-append : (acc : ℕ) (xs ys : List ℕ) → number acc (xs ++ ys) ≡ number (number acc xs) ys
unfolding number
number-append acc [] ys = refl
number-append acc (x ∷ xs) ys = number-append (10 * acc + (x - 48)) xs ys

number-digits : (rounds n : ℕ) → n < 2 ^ rounds → number 0 (digits rounds n) ≡ n
unfolding digits number
number-digits zero n h = omega (arith, h)
number-digits (suc rounds) n h = elim (Bool-cases (ltb n 10)) [
  | inl few ↦ rw few (omega arith)
  | inr more ↦
      let rest = number-digits rounds (n / 10) (omega (arith, h, pow-suc 2 rounds)) in
      rw more (
        number-append 0 (digits rounds (n / 10)) ((48 + n % 10) ∷ [])
        ∙ ap (λ m. number m ((48 + n % 10) ∷ [])) rest
        ∙ omega arith)
]

length-digits : (rounds n : ℕ) → length (digits rounds n) ≤ rounds
unfolding digits
length-digits zero n = omega arith
length-digits (suc rounds) n = elim (Bool-cases (ltb n 10)) [
  | inl few ↦ rw few (omega arith)
  | inr more ↦ rw more (
      omega (
        arith,
        length-append (digits rounds (n / 10)) ((48 + n % 10) ∷ []),
        length-digits rounds (n / 10),
      ))
]

abbrev lead : List ℕ → ℕ
lead [] = 48
lead (c ∷ cs) = c

lead-append : (xs : List ℕ) (d : ℕ) → 48 ≤ lead xs → 48 ≤ d → 48 ≤ lead (xs ++ d ∷ [])
lead-append [] d h k = k
lead-append (x ∷ xs) d h k = h

lead-digits : (rounds n : ℕ) → 48 ≤ lead (digits rounds n)
unfolding digits
lead-digits zero n = omega arith
lead-digits (suc rounds) n = elim (Bool-cases (ltb n 10)) [
  | inl few ↦ rw few (omega arith)
  | inr more ↦ rw more (
      lead-append (digits rounds (n / 10)) (48 + n % 10) (lead-digits rounds (n / 10))
        (omega arith))
]

-- What starts with a digit is not negative.
read_handle_plain : (xs : List ℕ) → 48 ≤ lead xs → read_handle xs ≡ number 0 xs
unfolding read_handle number
read_handle_plain [] h = refl
read_handle_plain (c ∷ cs) h = ground arith

below :
    (h : ℕ) → h < 2 ^ 64 → ltb h (2 ^ 63) ≡ false → read_handle (45 ∷ digits 64 (2 ^ 64 - h)) ≡ h
unfolding read_handle
below h k negative = let e = number-digits 64 (2 ^ 64 - h) (ground arith) in omega (arith, e)

read_handle-print_handle : (h : ℕ) → h < 2 ^ 64 → read_handle (print_handle h) ≡ h
unfolding print_handle
read_handle-print_handle h k = elim (Bool-cases (ltb h (2 ^ 63))) [
  | inl positive ↦
      rw positive (read_handle_plain (digits 64 h) (lead-digits 64 h) ∙ number-digits 64 h k)
  | inr negative ↦ rw negative (below h k negative)
]

window-take :
    (xs : List ℕ) (m s : ℕ) → m ≤ length xs → length xs ≤ s → window (memory xs) s 0 m ≡ take m xs
window-take xs m s h k =
    sym (take-window (memory xs) s 0 m (length xs) h) ∙ ap (take m) (window-memory xs s k)

length-print_handle : (h : ℕ) → length (print_handle h) ≤ 65
unfolding print_handle
length-print_handle h = elim (Bool-cases (ltb h (2 ^ 63))) [
  | inl positive ↦ rw positive (omega (arith, length-digits 64 h))
  | inr negative ↦ rw negative (omega (arith, length-digits 64 (2 ^ 64 - h)))
]

-- The message of the welcome packet reads as the session's handle. Of the packet, SendPacket sends the
-- header, whose size is five more than the length of the message, and then no more than that length and
-- one of the eight bytes of `sessionHandle`, all zero, and of the message, which loses its last seven
-- characters.
pub welcome_packet_lem :
    (h : ℕ)
    → h < 2 ^ 64
    → let message = print_handle h in
      let bytes = memory (welcome_packet h) in
      (read_handle message ≡ h)
      × (window bytes 65536 0 (header_size bytes 0)
          ≡ to_bytes 2 (5 + length message)
            ++ to_bytes 2 2
            ++ take (1 + length message) (to_bytes 8 0 ++ message))
unfolding welcome_packet header_size
welcome_packet_lem h k =
    let message = print_handle h in
    let few = length-print_handle h in
    let size : header_size (memory (welcome_packet h)) 0 ≡ 5 + length message =
      omega (arith, few) in
    (
      read_handle-print_handle h k,
      ap (window (memory (welcome_packet h)) 65536 0) size
          ∙ window-take (welcome_packet h) (5 + length message) 65536 (omega arith)
              (omega (arith, few))
          ∙ take-append (5 + length message) (to_bytes 2 (4 + length message + 1) ++ to_bytes 2 2)
              (to_bytes 8 0 ++ message) (omega arith)
          ∙ ap₂ (λ n m. to_bytes 2 n ++ to_bytes 2 2 ++ take m (to_bytes 8 0 ++ message))
              (let e : 4 + length message + 1 ≡ 5 + length message = omega arith in e)
              (let e : 5 + length message - 4 ≡ 1 + length message = omega arith in e),
    )
