-- ===== src/PacketHandler/Broadcasts.antt =====
-- The packets that are broadcast, read back field by field.
use server_study.Prelude.{
  ℕ, ◌+◌, ◌-◌, ◌%◌, ◌^◌, ◌≤◌, ◌<◌, ◌≡◌, ◌≢◌, refl, ap, sym, ◌∙◌, ◌⊎◌, inl, inr, Bool, none, some,
  List, ◌++◌, Array, length, window, window-append, length-window, take, drop, from_bytes,
  from_bytes-to_bytes, memory, arith, ℕ_discrete, ≢→==,
}
use server_study.PacketHandler.{
  address_space, size_at, id_at, move_packet, chat_packet, handle_move, handle_chat, execute,
}

-- A packet of the server to a client as the client reads it.
pub record IsPacket (bytes : List ℕ) (id handle : ℕ) (body : List ℕ) : Type 0 where
  pub size : size_at (memory bytes) 0 ≡ length bytes
  pub number : id_at (memory bytes) 0 ≡ id
  pub whose : from_bytes (take 8 (drop 4 bytes)) ≡ handle
  pub rest : drop 12 bytes ≡ body

move_packet-IsPacket :
    (handle : ℕ) (x y : List ℕ)
    → handle < 2 ^ 64
    → length (x ++ y) ≡ 8
    → IsPacket (move_packet handle x y) 1 handle (x ++ y)
unfolding move_packet size_at id_at
move_packet-IsPacket handle x y h e = record {
  size = omega (arith, e);
  number = refl;
  whose = from_bytes-to_bytes 8 handle (omega arith);
  rest = refl;
}

chat_packet-IsPacket :
    (handle size : ℕ) (message : List ℕ)
    → handle < 2 ^ 64
    → 4 ≤ size
    → size + 8 < 2 ^ 16
    → length message ≡ size - 4
    → IsPacket (chat_packet handle size message) 2 handle message
unfolding chat_packet size_at id_at
chat_packet-IsPacket handle size message h lo hi e =
    let n : (size + 8) % 2 ^ 16 ≡ size + 8 = omega arith in
    record {
      size = rw n (omega (arith, e, from_bytes-to_bytes 2 (size + 8) (omega arith)));
      number = refl;
      whose = from_bytes-to_bytes 8 handle (omega arith);
      rest = refl;
    }

-- A move is broadcast with its handle and the eight bytes behind the header, a chat with its handle and
-- all the bytes behind the header, up to a size of 65527; both as a packet whose size is that of the
-- header and the fields, and to all but the session itself. There is no handler for another id.
pub execute_lem :
    {W : Type 0} (broadcast : W → Array ℕ → ℕ → Bool × W) (w : W) (handle : ℕ) (b : Array ℕ) (p : ℕ)
    → handle < 2 ^ 64
    → 4 ≤ size_at b p
    → size_at b p + 8 < 2 ^ 16
    → ((packet : List ℕ) × (n : ℕ) × (((id_at b p ≡ 1) × (n ≡ 8))
          ⊎ ((id_at b p ≡ 2) × (n ≡ size_at b p - 4)))
        × IsPacket packet (id_at b p) handle (window b address_space (p + 4) n)
        × (execute broadcast w handle b p ≡ some (broadcast w (memory packet) handle)))
      ⊎ ((id_at b p ≢ 1) × (id_at b p ≢ 2) × (execute broadcast w handle b p ≡ none))
unfolding execute handle_move handle_chat
execute_lem broadcast w handle b p h lo hi = elim (ℕ_discrete (id_at b p) 1) [
  | yes one ↦
      let x = window b address_space (p + 4) 4 in
      let y = window b address_space (p + 8) 4 in
      let both : x ++ y ≡ window b address_space (p + 4) 8 =
        ap (λ i. x ++ window b address_space i 4) (let e : p + 8 ≡ p + 4 + 4 = omega arith in e)
        ∙ sym (window-append b address_space (p + 4) 4 4) in
      let ok = move_packet-IsPacket handle x y h (ap length both) in
      inl (move_packet handle x y, 8, inl (one, refl), rw one (rw (← both) ok), rw one)
  | no other ↦ elim (ℕ_discrete (id_at b p) 2) [
    | yes two ↦
        let message = window b address_space (p + 4) (size_at b p - 4) in
        let ok =
          chat_packet-IsPacket handle (size_at b p) message h lo hi
            (length-window b address_space (p + 4) (size_at b p - 4)) in
        inl (
          chat_packet handle (size_at b p) message,
          size_at b p - 4,
          inr (two, refl),
          rw two ok,
          rw two,
        )
    | no neither ↦ inr (other, neither, rw (≢→== _ _ other, ≢→== _ _ neither))
  ]
]
