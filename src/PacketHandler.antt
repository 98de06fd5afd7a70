-- ===== src/PacketHandler.antt =====
-- Network/Server/PacketHandler.cpp: what the packets of a client make the server broadcast.
pub mod Broadcasts
mod Tests
use server_study.Prelude.{
  ℕ, zero, suc, ◌+◌, ◌*◌, ◌-◌, ◌%◌, ◌^◌, Bool, true, false, Option, none, some, List, [], ◌∷◌, ◌++◌,
  Array, ◌==◌, if◌then◌else◌, window, to_bytes, memory,
}

abbrev pub address_space : ℕ
address_space = 2 ^ 64

-- The fields of a packet at an address.
unfoldable pub size_at : Array ℕ → ℕ → ℕ
size_at b p = b (p % address_space) + 256 * b ((p + 1) % address_space)

unfoldable pub id_at : Array ℕ → ℕ → ℕ
id_at b p = b ((p + 2) % address_space) + 256 * b ((p + 3) % address_space)

-- The bytes of an S2C_MOVE: its two floats are copied.
unfoldable pub move_packet : ℕ → (x y : List ℕ) → List ℕ
move_packet handle x y = to_bytes 2 20 ++ to_bytes 2 1 ++ to_bytes 8 handle ++ x ++ y

-- The bytes of an S2C_CHAT; `size` is that of the packet that came, and the new one has 16 bits.
unfoldable pub chat_packet : (handle size : ℕ) → List ℕ → List ℕ
chat_packet handle size message =
    to_bytes 2 ((size + 8) % 2 ^ 16) ++ to_bytes 2 2 ++ to_bytes 8 handle ++ message

-- SessionManager::Broadcast, which gets the address of the packet and the handle that it leaves out.
module _ {W : Type 0} (broadcast : W → Array ℕ → ℕ → Bool × W) where
  -- `b` and `p` are the address of the header, `handle` that of the session.
  unfoldable pub handle_move : W → (handle : ℕ) → Array ℕ → ℕ → Bool × W
  handle_move w handle b p =
      broadcast w
        (memory (
          move_packet handle (window b address_space (p + 4) 4) (window b address_space (p + 8) 4)))
        handle

  unfoldable pub handle_chat : W → (handle : ℕ) → Array ℕ → ℕ → Bool × W
  handle_chat w handle b p =
      let size = size_at b p in
      broadcast w (memory (chat_packet handle size (window b address_space (p + 4) (size - 4))))
        handle

  -- None where there is no handler: that of id 0 is an empty function, which throws, and an id of
  -- three or more is outside the array.
  unfoldable pub execute : W → (handle : ℕ) → Array ℕ → ℕ → Option (Bool × W)
  execute w handle b p =
      if id_at b p == 1
      then some (handle_move w handle b p)
      else (if id_at b p == 2 then some (handle_chat w handle b p) else none)
