-- ===== src/Client.antt =====
-- Network/Legacy/Client/Client.cpp: a client on a blocking socket. The loops of SendPacket and
-- ReceiveByte put packets together whatever parts the socket takes or gives.
pub mod Receiving
pub mod Sending
mod Tests
use server_study.Prelude.{
  ℕ, zero, suc, ◌+◌, ◌*◌, ◌-◌, ◌^◌, Bool, true, false, ◌||◌, ◌&&◌, not, Option, none, some, List,
  [], ◌∷◌, Array, ◌==◌, if◌then◌else◌, ltb, length, window, fill, drop,
}

abbrev pub client_buffer_size : ℕ
client_buffer_size = 65536

-- Addresses are 64-bit words.
abbrev pub address_space : ℕ
address_space = 2 ^ 64

-- The calls of the socket; W is the state of the connection. `recv` gets a length and `send` the
-- bytes; none is SOCKET_ERROR. The bytes that `recv` stored are part of its answer, and what it
-- returns is their number.
pub record Socket (W : Type 0) : Type 0 where
  pub recv : W → ℕ → Option (List ℕ) × W
  pub send : W → List ℕ → Option ℕ × W

-- The fields of PACKET_HEADER.
unfoldable pub size_field : Array ℕ → ℕ
size_field b = b 0 + 256 * b 1

unfoldable pub id_field : Array ℕ → ℕ
id_field b = b 2 + 256 * b 3

unfoldable pub handle_packet : Array ℕ → Bool
handle_packet header = (id_field header == 1) || (id_field header == 2)

module _ {W : Type 0} (socket : Socket W) where
  -- The loop of SendPacket over the bytes that are left. A round that goes on sends one at least.
  unfoldable pub send_rounds : ℕ → W → List ℕ → Bool × W
  send_rounds zero w left = (true, w)
  send_rounds (suc rounds) w left =
      let (result, w') = socket.send w left in
      if ltb 0 (length left)
      then (elim result [
        | none ↦ (false, w')
        | some n ↦
            (let rest = send_rounds rounds w' (drop n left) in if n == 0 then (false, w') else rest)
      ])
      else (true, w)

  unfoldable pub send_packet : W → Array ℕ → Bool × W
  send_packet w packet =
      let size = size_field packet in send_rounds size w (window packet address_space 0 size)

  -- The loop of ReceiveByte, `left` bytes before its end. A round that goes on gets one at least.
  unfoldable pub receive_rounds : ℕ → W → Array ℕ → (pos left : ℕ) → Bool × Array ℕ × W
  receive_rounds zero w b pos left = (true, b, w)
  receive_rounds (suc rounds) w b pos left =
      let (result, w') = socket.recv w left in
      if ltb 0 left
      then (elim result [
        | none ↦ (false, b, w')
        | some bytes ↦
            (let n = length bytes in
              let rest =
                receive_rounds rounds w' (fill b address_space pos bytes) (pos + n) (left - n) in
              if n == 0 then (false, b, w') else rest)
      ])
      else (true, b, w)

  unfoldable pub receive_byte : W → Array ℕ → (pos len : ℕ) → Bool × Array ℕ × W
  receive_byte w b pos len = receive_rounds len w b pos len

  -- True if a packet stands in the buffer; its address is that of the buffer.
  unfoldable pub receive_packet : W → Array ℕ → Bool × Array ℕ × W
  receive_packet w b =
      let (got_header, b', w') = receive_byte w b 0 4 in
      let size = size_field b' in
      let body = receive_byte w' b' 4 (size - 4) in
      if got_header
      then (if ltb size 4 || ltb client_buffer_size size then (false, b', w') else body)
      else (false, b', w')

  -- The loop of ThreadFunc: the rounds, the packet and the buffer of the answers.
  unfoldable pub exchange_rounds : ℕ → W → (packet b : Array ℕ) → Array ℕ × W
  exchange_rounds zero w packet b = (b, w)
  exchange_rounds (suc rounds) w packet b =
      let (sent, w1) = send_packet w packet in
      let (received, b', w2) = receive_packet w1 b in
      let rest = exchange_rounds rounds w2 packet b' in
      if not sent then (b, w1) else (if received && handle_packet b' then rest else (b', w2))

  unfoldable pub thread_func : W → (packet b : Array ℕ) → Array ℕ × W
  thread_func w packet b = exchange_rounds 3 w packet b
