-- ===== src/Client/Sending.antt =====
-- SendPacket, and what a ReceivePacket at the other end makes of it.
use server_study.Prelude.{
  ℕ, zero, suc, ◌+◌, ◌-◌, ◌≤◌, ◌<◌, ◌≡◌, refl, ap, sym, ◌∙◌, true, false, ◌||◌, some, List, [], ◌∷◌,
  ◌++◌, Array, ◌==◌, ltb, length, window, take, drop, length-window, length-append, length-drop,
  take-append, drop-append, take-drop, arith,
}
use mathlib.Core.List.{append-nil, append_assoc}
use server_study.Session.Stream.{size_of}
use server_study.Client.{
  client_buffer_size, address_space, Socket, size_field, send_rounds, send_packet, receive_packet,
}
use server_study.Client.Receiving.{Streams, receive_packet_lem}

-- What `send` promises on a stream: it takes some of the bytes, the first ones.
pub record Accepts {W : Type 0} (socket : Socket W) (sent : W → List ℕ) : Type 0 where
  pub count : W → List ℕ → ℕ
  pub answer :
      (w : W) (bytes : List ℕ) → 0 < length bytes → (socket.send w bytes).0 ≡ some (count w bytes)
  pub some_taken : (w : W) (bytes : List ℕ) → 0 < length bytes → 0 < count w bytes
  pub first :
      (w : W) (bytes : List ℕ)
      → 0 < length bytes
      → sent (socket.send w bytes).1 ≡ sent w ++ take (count w bytes) bytes

abbrev pub packet_bytes : Array ℕ → List ℕ
packet_bytes packet = window packet address_space 0 (size_field packet)

module _ {W : Type 0} {socket : Socket W} {sent : W → List ℕ} (a : Accepts socket sent) where
  send_rounds_lem :
      (rounds : ℕ) (w : W) (left : List ℕ)
      → length left ≤ rounds
      → let (done, w') = send_rounds socket rounds w left in
        (done ≡ true) × (sent w' ≡ sent w ++ left)
  unfolding send_rounds
  send_rounds_lem zero w [] h = (refl, sym (append-nil (sent w)))
  send_rounds_lem zero w (x ∷ left) h = absurd (omega arith)
  send_rounds_lem (suc rounds) w [] h = (refl, sym (append-nil (sent w)))
  send_rounds_lem (suc rounds) w (x ∷ left) h =
      let n = a.count w (x ∷ left) in
      let taken = a.some_taken w (x ∷ left) (omega arith) in
      let nonzero : (n == 0) ≡ false = ground (arith, taken) in
      let rest =
        send_rounds_lem rounds (socket.send w (x ∷ left)).1 (drop n (x ∷ left))
          (omega (arith, length-drop n (x ∷ left), taken)) in
      let more : ltb 0 (length (x ∷ left)) ≡ true = ground arith in
      rw (more, a.answer w (x ∷ left) (omega arith), nonzero)
        (
          rest.0,
          rest.1
              ∙ ap (λ l. l ++ drop n (x ∷ left)) (a.first w (x ∷ left) (omega arith))
              ∙ append_assoc (sent w) (take n (x ∷ left)) (drop n (x ∷ left))
              ∙ ap (λ l. sent w ++ l) (take-drop n (x ∷ left)),
        )

  -- SendPacket sends the bytes of the packet, in order and no others, in whatever parts they are taken.
  pub send_packet_lem :
      (w : W) (packet : Array ℕ)
      → let (done, w') = send_packet socket w packet in
        (done ≡ true) × (sent w' ≡ sent w ++ packet_bytes packet)
  unfolding send_packet
  send_packet_lem w packet =
      send_rounds_lem (size_field packet) w (packet_bytes packet)
        (omega (arith, length-window packet address_space 0 (size_field packet)))

size_of-window :
    (b : Array ℕ) (n : ℕ) (rest : List ℕ)
    → 2 ≤ n
    → size_of (window b address_space 0 n ++ rest) ≡ size_field b
unfolding size_field
size_of-window b zero rest h = absurd (omega arith)
size_of-window b (suc zero) rest h = absurd (omega arith)
size_of-window b (suc (suc n)) rest h = refl

-- What SendPacket puts on the stream for a packet whose size is from 4 to 65536, ReceivePacket at the
-- other end gets back: the same bytes, and nothing of what follows, whatever the parts in which the
-- two sockets take and give the bytes.
pub receive_packet-send_packet :
    {W V : Type 0} {sender : Socket W} {sent : W → List ℕ} {receiver : Socket V}
    {pending : V → List ℕ}
    → Accepts sender sent
    → Streams receiver pending
    → (w : W) (v : V) (packet b : Array ℕ) (rest : List ℕ) → 4 ≤ size_field packet
    → size_field packet ≤ client_buffer_size
    → pending v ≡ drop (length (sent w)) (sent (send_packet sender w packet).1) ++ rest
    → let (done, b', v') = receive_packet receiver v b in
      (done ≡ true)
      × (window b' address_space 0 (size_field packet)
          ≡ window packet address_space 0 (size_field packet))
      × (pending v' ≡ rest)
receive_packet-send_packet {sent = sent} {receiver = receiver} {pending = pending} a s w v packet b
      rest lo hi e =
    let size = size_field packet in
    let bytes = packet_bytes packet in
    let length_lem = length-window packet address_space 0 size in
    let stream : pending v ≡ bytes ++ rest =
      e
      ∙ ap (λ l. drop (length (sent w)) l ++ rest) (send_packet_lem a w packet).1
      ∙ ap (λ l. l ++ rest)
          (drop-append (length (sent w)) (sent w) bytes (omega arith)
            ∙ ap (λ n. drop n bytes)
                (let z : length (sent w) - length (sent w) ≡ 0 = omega arith in z)) in
    let size_lem : size_of (pending v) ≡ size =
      ap size_of stream ∙ size_of-window packet size rest (omega arith) in
    let long : length (pending v) ≡ size + length rest =
      ap length stream ∙ (length-append bytes rest ∙ ap (λ n. n + length rest) length_lem) in
    let right : (ltb size 4 || ltb client_buffer_size size) ≡ false = ground arith in
    let none_left : length bytes - length bytes ≡ 0 = omega arith in
    let r =
      rw (size_lem, right) at
        (receive_packet_lem s v b (omega (arith, long)) (omega (arith, long, size_lem))) in
    (
      r.0,
      r.1
          ∙ ap (take size) stream
          ∙ ap (λ n. take n (bytes ++ rest)) (sym length_lem)
          ∙ take-append (length bytes) bytes rest (omega arith)
          ∙ ap (λ n. bytes ++ take n rest) none_left
          ∙ append-nil bytes,
      r.2
          ∙ ap (drop size) stream
          ∙ ap (λ n. drop n (bytes ++ rest)) (sym length_lem)
          ∙ drop-append (length bytes) bytes rest (omega arith)
          ∙ ap (λ n. drop n rest) none_left,
    )
