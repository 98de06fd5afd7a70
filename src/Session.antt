-- ===== src/Session.antt =====
-- Network/Server/Session.cpp and OverlappedEx.hpp: the read and write buffers of a connection. A
-- magic buffer is an array that is indexed modulo its size, and positions are 64-bit words.
pub mod Contents
pub mod Stream
pub mod Process
pub mod Reading
pub mod Writing
pub mod Sends
pub mod Queue
pub mod Reset
mod Tests
use server_study.Prelude.{
  ℕ, zero, suc, ◌+◌, ◌*◌, ◌-◌, ◌%◌, ◌^◌, Bool, true, false, ◌&&◌, ◌||◌, not, Option, none, some,
  List, [], ◌∷◌, Array, update, ◌==◌, if◌then◌else◌, add64, sub64, ltb, leb, window, fill,
}

abbrev pub magic_buffer_size : ℕ
magic_buffer_size = 65536

abbrev pub wsa_io_pending : ℕ
wsa_io_pending = 997

pub data IoType : Type 0 where
  no_io : IoType
  recv : IoType
  send : IoType
  accept : IoType
  disconnect : IoType

-- `wsa_buf` is the position in the buffer that wsaBuf_.buf points to. P is the type of the pointers
-- to sessions.
pub record OverlappedEx (P : Type 0) : Type 0 where
  pub io_type : IoType
  pub wsa_buf : ℕ
  pub wsa_len : ℕ
  pub buffer : Array ℕ
  pub session_ptr : P
  pub read_pos : ℕ
  pub write_pos : ℕ

pub record Session (P : Type 0) : Type 0 where
  pub handle : ℕ
  pub read_ov : OverlappedEx P
  pub write_ov : OverlappedEx P
  pub is_sending : Bool

-- What a session uses: the session manager, Winsock and the packet handlers. W is the state of all
-- these. A socket call gets a buffer, a position and a length, and answers with an error code if it
-- fails; a handler gets the address of the packet's header in the read buffer.
pub record Env (W P : Type 0) : Type 0 where
  pub hold : W → ℕ → P → P × W
  pub reset : W → P → P × W
  pub wsa_recv : W → ℕ → ℕ → Option ℕ × W
  pub wsa_send : W → Array ℕ → ℕ → ℕ → Option ℕ × W
  pub execute : W → Array ℕ → ℕ → Bool × W

-- The size field of a packet header, a little-endian word of two bytes.
unfoldable pub header_size : Array ℕ → ℕ → ℕ
header_size b p = b (p % magic_buffer_size) + 256 * b ((p + 1) % magic_buffer_size)

-- What an error of a socket call means to Register*.
unfoldable pub is_posted : Option ℕ → Bool
is_posted none = true
is_posted (some error) = error == wsa_io_pending

module _ {P : Type 0} where
  -- Both positions step back by the size once the first has passed it.
  unfoldable pub wrap_positions : OverlappedEx P → OverlappedEx P
  wrap_positions ov =
      if leb magic_buffer_size ov.read_pos
      then record ov {
        read_pos = sub64 ov.read_pos magic_buffer_size;
        write_pos = sub64 ov.write_pos magic_buffer_size;
      }
      else ov

module _ {W P : Type 0} (env : Env W P) where
  -- The loop of OnRead. A round that goes on takes at least four bytes, so as many rounds as there
  -- are bytes are enough.
  unfoldable pub process : ℕ → OverlappedEx P → W → Bool × OverlappedEx P × W
  process zero ov w = (true, ov, w)
  process (suc rounds) ov w =
      let available = sub64 ov.write_pos ov.read_pos in
      let size = header_size ov.buffer ov.read_pos in
      let (done, w') = env.execute w ov.buffer ov.read_pos in
      let rest = process rounds (record ov { read_pos = add64 ov.read_pos size }) w' in
      if ltb available 4
      then (true, ov, w)
      else (if ltb size 4 || leb magic_buffer_size size
          then (false, ov, w)
          else (if ltb available size
              then (true, ov, w)
              else (if done then rest else (false, ov, w'))))

  unfoldable pub register_read : Session P → W → Bool × Session P × W
  register_read s w =
      let len = add64 (sub64 magic_buffer_size s.read_ov.write_pos) s.read_ov.read_pos % 2 ^ 32 in
      let (ptr, w1) = env.hold w s.handle s.read_ov.session_ptr in
      let (error, w2) = env.wsa_recv w1 s.read_ov.write_pos len in
      let (dropped, w3) = env.reset w2 ptr in
      let ov = record s.read_ov {
        io_type = recv;
        wsa_buf = s.read_ov.write_pos;
        wsa_len = len;
        session_ptr = ptr;
      } in
      if len == 0
      then (false, record s { read_ov = record s.read_ov { wsa_len = len } }, w)
      else (if is_posted error
          then (true, record s { read_ov = ov }, w2)
          else (false, record s { read_ov = record ov { session_ptr = dropped } }, w3))

  unfoldable pub on_read : Session P → W → ℕ → Bool × Session P × W
  unfolding wrap_positions
  on_read s w transferred =
      let ov = record s.read_ov { write_pos = add64 s.read_ov.write_pos transferred } in
      let (done, ov', w') = process (sub64 ov.write_pos ov.read_pos) ov w in
      if done
      then register_read (record s { read_ov = wrap_positions ov' }) w'
      else (false, record s { read_ov = ov' }, w')

  unfoldable pub register_write : Session P → W → Bool × Session P × W
  register_write s w =
      let len = sub64 s.write_ov.write_pos s.write_ov.read_pos % 2 ^ 32 in
      let (ptr, w1) = env.hold w s.handle s.write_ov.session_ptr in
      let (error, w2) = env.wsa_send w1 s.write_ov.buffer s.write_ov.read_pos len in
      let (dropped, w3) = env.reset w2 ptr in
      let ov = record s.write_ov {
        io_type = send;
        wsa_buf = s.write_ov.read_pos;
        wsa_len = len;
        session_ptr = ptr;
      } in
      if is_posted error
      then (true, record s { write_ov = ov }, w2)
      else (false, record s { write_ov = record ov { session_ptr = dropped } }, w3)

  unfoldable pub on_write : Session P → W → ℕ → Bool × Session P × W
  on_write s w transferred =
      let ov =
        wrap_positions (record s.write_ov { read_pos = add64 s.write_ov.read_pos transferred }) in
      if ov.read_pos == ov.write_pos
      then (true, record s { write_ov = ov; is_sending = false }, w)
      else register_write (record s { write_ov = ov }) w

  -- `packet` is the memory from the header on.
  unfoldable pub send_packet : Session P → W → Array ℕ → Bool × Session P × W
  send_packet s w packet =
      let size = header_size packet 0 in
      let ov = record s.write_ov {
        buffer =
            fill s.write_ov.buffer magic_buffer_size s.write_ov.write_pos
              (window packet magic_buffer_size 0 size);
        write_pos = add64 s.write_ov.write_pos size;
      } in
      if ltb magic_buffer_size (add64 (sub64 s.write_ov.write_pos s.write_ov.read_pos) size)
      then (false, s, w)
      else (if s.is_sending
          then (true, record s { write_ov = ov }, w)
          else register_write (record s { write_ov = ov; is_sending = true }) w)

  unfoldable pub handle_io : Session P → W → IoType → ℕ → Bool × Session P × W
  handle_io s w recv transferred = on_read s w transferred
  handle_io s w send transferred = on_write s w transferred
  handle_io s w _ transferred = (false, s, w)
