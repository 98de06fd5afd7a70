-- ===== src/Connection.antt =====
-- Network/Server/Session.cpp, Listener.cpp and IocpCore.cpp: a connection from its accept to its end,
-- as the completions of its operations drive it.
mod Alive
pub mod Rounds
pub mod Welcome
mod Tests
use server_study.Prelude.{
  ℕ, zero, suc, ◌+◌, ◌-◌, ◌*◌, ◌/◌, ◌%◌, ◌^◌, Bool, true, false, ◌&&◌, ◌||◌, not, Option, none,
  some, List, [], ◌∷◌, ◌++◌, Array, ◌==◌, if◌then◌else◌, ltb, length, to_bytes, memory,
}
use server_study.SparseSet.{SparseSet}
use server_study.Session.{
  IoType, OverlappedEx, Session, Env, send_packet, register_read, handle_io, wsa_io_pending,
}
use server_study.SessionState.{begin_connect, begin_disconnect}

-- SOCKET_ERROR, which is -1.
abbrev pub socket_error : ℕ
socket_error = 2 ^ 32 - 1

-- The calls that Session.cpp and Listener.cpp make beside those of `Env`. DisconnectEx and AcceptEx
-- answer with a word of 32 bits, and `setsockopt` whether it succeeds. `copy` copies a pointer to a
-- session and `release` resets or destroys one, which may give the session back; `disconnect_session`
-- is that of the session manager, and `decrement_pending_accepts` that of the listener. These three
-- may change the states of sessions.
pub record System (W P : Type 0) : Type 0 where
  pub env : Env W P
  pub disconnect_ex : W → ℕ × W
  pub accept_ex : W → ℕ × W
  pub last_error : W → ℕ
  pub set_sock_opt : W → Bool × W
  pub copy : W → P → P × W
  pub release : SparseSet → W → P → P × SparseSet × W
  pub disconnect_session : SparseSet → W → ℕ → SparseSet × W
  pub decrement_pending_accepts : SparseSet → W → SparseSet × W

-- A session, with the states of all sessions.
pub record Connection (W P : Type 0) : Type 0 where
  pub sessions : SparseSet
  pub session : Session P
  pub disconnect_ov : OverlappedEx P
  pub world : W

-- The digits of a number, in decimal. A round takes one digit, so as many rounds as the number has
-- bits are enough.
unfoldable pub digits : ℕ → ℕ → List ℕ
digits zero n = []
digits (suc rounds) n =
    let rest = digits rounds (n / 10) in
    if ltb n 10 then (48 + n) ∷ [] else rest ++ (48 + n % 10) ∷ []

-- `sprintf` of a handle with `%lld`: a word of 2^63 or more is a negative number.
unfoldable pub print_handle : ℕ → List ℕ
print_handle handle =
    if ltb handle (2 ^ 63) then digits 64 handle else 45 ∷ digits 64 (2 ^ 64 - handle)

-- The bytes of the welcome packet, as far as its size says that they go; `sessionHandle` is 0, and the
-- message ends with a zero byte, as does what follows it.
unfoldable pub welcome_packet : ℕ → List ℕ
welcome_packet handle =
    let message = print_handle handle in
    to_bytes 2 (4 + length message + 1) ++ to_bytes 2 2 ++ to_bytes 8 0 ++ message

-- The overlapped structure of an operation, of which the pointer is read or written.
unfoldable pub ptr_of : {W P : Type 0} → Connection W P → IoType → P
ptr_of c IoType.send = c.session.write_ov.session_ptr
ptr_of c IoType.disconnect = c.disconnect_ov.session_ptr
ptr_of c _ = c.session.read_ov.session_ptr

unfoldable pub set_ptr : {W P : Type 0} → Connection W P → IoType → P → Connection W P
set_ptr c IoType.send ptr = record c {
  session = record c.session { write_ov = record c.session.write_ov { session_ptr = ptr } };
}
set_ptr c IoType.disconnect ptr = record c {
  disconnect_ov = record c.disconnect_ov { session_ptr = ptr };
}
set_ptr c _ ptr = record c {
  session = record c.session { read_ov = record c.session.read_ov { session_ptr = ptr } };
}

unfoldable pub is_disconnect : IoType → Bool
is_disconnect IoType.disconnect = true
is_disconnect _ = false

module _ {W P : Type 0} (sys : System W P) where
  unfoldable pub connect : Connection W P → Bool × Connection W P
  connect c =
      let (go, sessions) = begin_connect c.sessions c.session.handle in
      let (sent, s1, w1) =
        send_packet sys.env c.session c.world (memory (welcome_packet c.session.handle)) in
      let (reading, s2, w2) = register_read sys.env s1 w1 in
      if go
      then (if sent
          then (reading, record c { sessions = sessions; session = s2; world = w2 })
          else (false, record c { sessions = sessions; session = s1; world = w1 }))
      else (false, record c { sessions = sessions })

  unfoldable pub disconnect : Connection W P → Bool × Connection W P
  disconnect c =
      let (answer, sessions) = begin_disconnect c.sessions c.session.handle in
      let (ptr, w1) = sys.env.hold c.world c.session.handle c.disconnect_ov.session_ptr in
      let (result, w2) = sys.disconnect_ex w1 in
      let posted = not (result == socket_error) || (sys.last_error w2 == wsa_io_pending) in
      elim answer [
        | some b ↦ (b, record c { sessions = sessions })
        | none ↦ (
          posted,
          record c {
            sessions = sessions;
            disconnect_ov = record c.disconnect_ov {
              io_type = IoType.disconnect;
              session_ptr = ptr;
            };
            world = w2;
          },
        )
      ]

  unfoldable pub clear : Connection W P → Bool × Connection W P
  clear c =
      let (sessions, w) = sys.disconnect_session c.sessions c.world c.session.handle in
      (true, record c { sessions = sessions; world = w })

  -- Listener::HandleAccept
  unfoldable pub handle_accept : Connection W P → Bool × Connection W P
  handle_accept c =
      let (updated, w1) = sys.set_sock_opt c.world in
      let (no_delay, w2) = sys.set_sock_opt w1 in
      let r = connect (record c { world = w2 }) in
      if updated
      then (if no_delay then r else (false, record c { world = w2 }))
      else (false, record c { world = w1 })

  -- Listener::RegisterAccept. `ptr` is the pointer to the session.
  unfoldable pub register_accept : Connection W P → P → Bool × Connection W P
  register_accept c ptr =
      let (result, w) = sys.accept_ex c.world in
      let ov = record c.session.read_ov {
        io_type = IoType.accept;
        wsa_buf = 0;
        wsa_len = 65536;
        session_ptr = ptr;
      } in
      (
        not (result == socket_error) || (sys.last_error w == wsa_io_pending),
        record c { session = record c.session { read_ov = ov }; world = w },
      )

  -- `SharedPoolPtr<Session> sessionPtr = overlappedEx.sessionPtr_`
  unfoldable pub copy_ptr : Connection W P → IoType → P × Connection W P
  copy_ptr c io = let (ptr, w) = sys.copy c.world (ptr_of c io) in (ptr, record c { world = w })

  -- `overlappedEx.sessionPtr_.Reset()`
  unfoldable pub reset_ptr : Connection W P → IoType → Connection W P
  reset_ptr c io =
      let (ptr, sessions, w) = sys.release c.sessions c.world (ptr_of c io) in
      set_ptr (record c { sessions = sessions; world = w }) io ptr

  -- The end of a local pointer.
  unfoldable pub destroy_ptr : Connection W P → P → Connection W P
  destroy_ptr c ptr =
      let (gone, sessions, w) = sys.release c.sessions c.world ptr in
      record c { sessions = sessions; world = w }

  -- What Dispatch tries on a completion; where it fails, Dispatch disconnects.
  unfoldable pub attempt : Connection W P → IoType → ℕ → Bool × Connection W P
  attempt c IoType.accept transferred = handle_accept c
  attempt c IoType.disconnect transferred = clear c
  attempt c IoType.no_io transferred = (false, c)
  attempt c io transferred =
      let (done, s, w) = handle_io sys.env c.session c.world io transferred in
      if transferred == 0 then (false, c) else (done, record c { session = s; world = w })

  unfoldable pub dispatch : Connection W P → IoType → ℕ → Connection W P
  dispatch c io transferred =
      let (ptr, c1) = copy_ptr c io in
      let (done, c2) = attempt (reset_ptr c1 io) io transferred in
      destroy_ptr (if done then c2 else (disconnect c2).1) ptr

  unfoldable pub handle_error : Connection W P → IoType → Connection W P
  handle_error c io =
      let (ptr, c1) = copy_ptr c io in
      destroy_ptr (if is_disconnect io then (clear c1).1 else (disconnect (reset_ptr c1 io)).1) ptr

  unfoldable pub accepted : Connection W P → IoType → Connection W P
  accepted c IoType.accept =
      let (sessions, w) = sys.decrement_pending_accepts c.sessions c.world in
      record c { sessions = sessions; world = w }
  accepted c _ = c

  -- A round of WorkerThread, for a completion that is not the signal to stop.
  unfoldable pub worker_round : Connection W P → (result : Bool) → IoType → ℕ → Connection W P
  worker_round c result io transferred =
      let (ptr, c1) = copy_ptr c io in
      let c2 = accepted c1 io in
      destroy_ptr (if result then dispatch c2 io transferred else handle_error c2 io) ptr
