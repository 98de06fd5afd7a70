-- ===== src/Client/Tests.antt =====
-- Sockets that take and give one byte at a time.
use server_study.Prelude.{
  ℕ, zero, suc, ◌≤◌, ◌<◌, ◌≡◌, refl, true, none, some, List, [], ◌∷◌, ◌++◌, Array, length, window,
  take, drop, arith,
}
use server_study.Client.{
  address_space, Socket, size_field, send_packet, receive_rounds, receive_byte, receive_packet,
}
use server_study.Client.Receiving.{Streams}
use server_study.Client.Sending.{Accepts, receive_packet-send_packet}

abbrev first : List ℕ → List ℕ
first [] = []
first (x ∷ xs) = x ∷ []

abbrev others : List ℕ → List ℕ
others [] = []
others (x ∷ xs) = xs

abbrev receiver : Socket (List ℕ)
receiver = record { recv = λ w len. (some (first w), others w); send = λ w bytes. (none, w) }

abbrev sender : Socket (List ℕ)
sender = record { recv = λ w len. (none, w); send = λ w bytes. (some 1, w ++ take 1 bytes) }

first-others : (w : List ℕ) → w ≡ first w ++ others w
first-others [] = refl
first-others (x ∷ xs) = refl

first_some : (w : List ℕ) → 0 < length w → 0 < length (first w)
first_some [] h = h
first_some (x ∷ xs) h = omega arith

first_few : (w : List ℕ) → length (first w) ≤ 1
first_few [] = omega arith
first_few (x ∷ xs) = omega arith

receiver-Streams : Streams receiver (λ w. w)
receiver-Streams = record {
  got = λ w len. first w;
  answer = λ w len h k. refl;
  some_got = λ w len h k. first_some w k;
  few = λ w len h k. omega (arith, first_few w);
  first = λ w len h k. first-others w;
}

sender-Accepts : Accepts sender (λ w. w)
sender-Accepts = record {
  count = λ w bytes. 1;
  answer = λ w bytes h. refl;
  some_taken = λ w bytes h. omega arith;
  first = λ w bytes h. refl;
}

-- A packet of id 2 with two more bytes.
abbrev packet : Array ℕ
packet zero = 6
packet (suc zero) = 0
packet (suc (suc i)) = 2

abbrev empty : Array ℕ
empty i = 0

abbrev stream : List ℕ
stream = 6 ∷ 0 ∷ 2 ∷ 0 ∷ 8 ∷ 9 ∷ 7 ∷ []

arrives :
    ((receive_packet receiver stream empty).2 ≡ 7 ∷ [])
    × (window (receive_packet receiver stream empty).1 address_space 0 6
        ≡ 6 ∷ 0 ∷ 2 ∷ 0 ∷ 8 ∷ 9 ∷ [])
unfolding receive_packet receive_byte receive_rounds size_field
arrives = (refl, refl)

receive_packet-send_packet_example :
    let v = drop 1 (send_packet sender (5 ∷ []) packet).1 ++ 3 ∷ [] in
    let (done, b', v') = receive_packet receiver v empty in
    (done ≡ true)
    × (window b' address_space 0 (size_field packet)
        ≡ window packet address_space 0 (size_field packet))
    × (v' ≡ 3 ∷ [])
unfolding size_field
receive_packet-send_packet_example =
    receive_packet-send_packet sender-Accepts receiver-Streams (5 ∷ [])
      (drop 1 (send_packet sender (5 ∷ []) packet).1 ++ 3 ∷ []) packet empty (3 ∷ []) (omega arith)
      (omega arith) refl
