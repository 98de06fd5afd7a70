-- ===== src/Client/Receiving.antt =====
-- ReceiveByte and ReceivePacket.
use server_study.Prelude.{
  ℕ, zero, suc, ◌+◌, ◌-◌, ◌≤◌, ◌<◌, ◌≡◌, refl, ap, ap₂, sym, ◌∙◌, inl, inr, Bool, true, false, ◌||◌,
  some, List, [], ◌∷◌, ◌++◌, Array, ◌==◌, if◌then◌else◌, ltb, length, window, fill, take, drop,
  length-append, length-drop, take-add, drop-drop, take-append, drop-append, window-fill_append,
  arith, Bool-cases,
}
use mathlib.Core.List.{append-nil, append_assoc}
use server_study.Session.Stream.{size_of}
use server_study.Client.{
  client_buffer_size, address_space, Socket, size_field, receive_rounds, receive_byte,
  receive_packet,
}

-- What `recv` promises on a stream: while bytes are to come it gives some of them, the first ones, and
-- no more than were asked for.
pub record Streams {W : Type 0} (socket : Socket W) (pending : W → List ℕ) : Type 0 where
  pub got : W → ℕ → List ℕ
  pub answer :
      (w : W) (len : ℕ)
      → 0 < len
      → 0 < length (pending w)
      → (socket.recv w len).0 ≡ some (got w len)
  pub some_got : (w : W) (len : ℕ) → 0 < len → 0 < length (pending w) → 0 < length (got w len)
  pub few : (w : W) (len : ℕ) → 0 < len → 0 < length (pending w) → length (got w len) ≤ len
  pub first :
      (w : W) (len : ℕ)
      → 0 < len
      → 0 < length (pending w)
      → pending w ≡ got w len ++ pending (socket.recv w len).1

-- Bytes that are written behind others.
fill_behind :
    (b : Array ℕ) (pos : ℕ) (bytes : List ℕ)
    → pos + length bytes ≤ address_space
    → window (fill b address_space pos bytes) address_space 0 (pos + length bytes)
      ≡ window b address_space 0 pos ++ bytes
fill_behind b pos bytes h =
    ap (λ i. window (fill b address_space i bytes) address_space 0 (pos + length bytes))
      (let e : pos ≡ 0 + pos = omega arith in e)
    ∙ window-fill_append b address_space 0 pos bytes h

size_of-take : (bytes : List ℕ) → size_of (take 4 bytes) ≡ size_of bytes
size_of-take [] = refl
size_of-take (x ∷ []) = refl
size_of-take (x ∷ y ∷ bytes) = refl

size_field_lem :
    (b : Array ℕ) (bytes : List ℕ)
    → window b address_space 0 4 ≡ take 4 bytes
    → size_field b ≡ size_of bytes
unfolding size_field
size_field_lem b bytes e = ap size_of e ∙ size_of-take bytes

module _ {W : Type 0} (pending : W → List ℕ) where
  -- From position `pos` on the buffer gets the first bytes of the stream.
  pub record Receives (w : W) (b : Array ℕ) (pos len : ℕ) (r : Bool × Array ℕ × W) : Type 0 where
    pub done : r.0 ≡ true
    pub bytes :
        window r.1 address_space 0 (pos + len)
        ≡ window b address_space 0 pos ++ take len (pending w)
    pub left : pending r.2 ≡ drop len (pending w)

module _ {W : Type 0} {socket : Socket W} {pending : W → List ℕ} (s : Streams socket pending) where
  nothing_left :
      (w : W) (b : Array ℕ) (pos left : ℕ) → left ≡ 0 → Receives pending w b pos left (true, b, w)
  nothing_left w b pos left e = rw e (record {
    done = refl;
    bytes =
        ap (window b address_space 0) (let k : pos + 0 ≡ pos = omega arith in k)
        ∙ sym (append-nil _);
    left = refl;
  })

  received :
      (w : W) (b : Array ℕ) (pos left : ℕ) (r : Bool × Array ℕ × W)
      → 0 < left
      → left ≤ length (pending w)
      → pos + left < address_space
      → let n = length (s.got w left) in
        Receives pending
          (socket.recv w left).1
          (fill b address_space pos (s.got w left))
          (pos + n)
          (left - n)
          r
        → Receives pending w b pos left r
  received w b pos left r h e f rest =
      let g = s.got w left in
      let few = s.few w left h (omega arith) in
      let first = s.first w left h (omega arith) in
      record {
        done = rest.done;
        bytes =
            ap (window r.1 address_space 0)
              (let k : pos + left ≡ pos + length g + (left - length g) = omega (arith, few) in k)
            ∙ rest.bytes
            ∙ ap (λ l. l ++ take (left - length g) (pending (socket.recv w left).1))
                (fill_behind b pos g (omega (arith, few)))
            ∙ append_assoc (window b address_space 0 pos) g _
            ∙ ap (λ l. window b address_space 0 pos ++ l)
                (sym (take-append left g _ few) ∙ ap (take left) (sym first));
        left = rest.left ∙ sym (drop-append left g _ few) ∙ ap (drop left) (sym first);
      }

  receive_rounds-Receives :
      (rounds : ℕ) (w : W) (b : Array ℕ) (pos left : ℕ)
      → left ≤ rounds
      → left ≤ length (pending w)
      → pos + left < address_space
      → Receives pending w b pos left (receive_rounds socket rounds w b pos left)
  unfolding receive_rounds
  receive_rounds-Receives zero w b pos left h e f = nothing_left w b pos left (omega arith)
  receive_rounds-Receives (suc rounds) w b pos left h e f = elim (Bool-cases (ltb 0 left)) [
    | inr over ↦ rw over (nothing_left w b pos left (ground arith))
    | inl more ↦
        let lt : 0 < left = ground arith in
        let g = s.got w left in
        let few = s.few w left lt (omega arith) in
        let some_got = s.some_got w left lt (omega arith) in
        let nonzero : (length g == 0) ≡ false = ground (arith, some_got) in
        rw (more, s.answer w left lt (omega arith), nonzero)
          (received w b pos left _ lt e f (
            receive_rounds-Receives rounds (socket.recv w left).1 (fill b address_space pos g)
              (pos + length g) (left - length g) (omega (arith, some_got))
              (omega (
                arith,
                ap length (s.first w left lt (omega arith)),
                length-append g (pending (socket.recv w left).1),
              ))
              (omega (arith, few))))
  ]

  receive_byte-Receives :
      (w : W) (b : Array ℕ) (pos len : ℕ)
      → len ≤ length (pending w)
      → pos + len < address_space
      → Receives pending w b pos len (receive_byte socket w b pos len)
  unfolding receive_byte
  receive_byte-Receives w b pos len = receive_rounds-Receives len w b pos len (omega arith)

  -- While the whole of it is to come, ReceivePacket gets a packet whose size is from 4 to 65536, in
  -- whatever parts: it stands at the start of the buffer, and what comes after it is still to come.
  -- A packet of any other size is refused after its header.
  pub receive_packet_lem :
      (w : W) (b : Array ℕ)
      → 4 ≤ length (pending w)
      → size_of (pending w) ≤ length (pending w)
      → let size = size_of (pending w) in
        let (done, b', w') = receive_packet socket w b in
        if ltb size 4 || ltb client_buffer_size size
        then (done ≡ false) × (pending w' ≡ drop 4 (pending w))
        else ((done ≡ true)
            × (window b' address_space 0 size ≡ take size (pending w))
            × (pending w' ≡ drop size (pending w)))
  unfolding receive_packet
  receive_packet_lem w b h whole =
      let size = size_of (pending w) in
      let first = receive_byte socket w b 0 4 in
      let head = receive_byte-Receives w b 0 4 h (omega arith) in
      let size_lem : size_field first.1 ≡ size = size_field_lem first.1 (pending w) head.bytes in
      elim (Bool-cases (ltb size 4 || ltb client_buffer_size size)) [
        | inl wrong ↦ rw (head.done, size_lem, wrong) (refl, head.left)
        | inr right ↦
            let body =
              receive_byte-Receives first.2 first.1 4 (size - 4)
                (omega (arith, ap length head.left, length-drop 4 (pending w))) (ground arith) in
            let four : 4 + (size - 4) ≡ size = ground arith in
            rw (head.done, size_lem, right)
              (
                body.done,
                ap (window (receive_byte socket first.2 first.1 4 (size - 4)).1 address_space 0)
                      (sym four)
                    ∙ body.bytes
                    ∙ ap₂ (λ xs ys. xs ++ take (size - 4) ys) head.bytes head.left
                    ∙ sym (take-add 4 (size - 4) (pending w))
                    ∙ ap (λ n. take n (pending w)) four,
                body.left
                    ∙ ap (drop (size - 4)) head.left
                    ∙ drop-drop 4 (size - 4) (pending w)
                    ∙ ap (λ n. drop n (pending w)) four,
              )
      ]
