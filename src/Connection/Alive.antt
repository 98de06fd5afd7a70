-- ===== src/Connection/Alive.antt =====
-- What the parts of a round of WorkerThread do to the state of the session.
use server_study.Prelude.{
  ℕ, ◌<◌, ◌≡◌, refl, ap, sym, subst, ◌∙◌, ◌⊎◌, inl, inr, Bool, true, false, Option, Array, ◌==◌,
  memory, arith, Bool-cases,
}
use server_study.SparseSet.{SparseSet, who_of, is_valid}
use server_study.SparseSet.Invariant.{Inv}
use server_study.Session.{
  IoType, Session, Env, register_read, register_write, on_read, on_write, send_packet, handle_io,
}
use server_study.SessionState.{pool_size, state_count, pending, connected, disconnecting}
use server_study.SessionState.Transitions.{
  InState, InState-get_state, Moves, begin_connect_lem, begin_disconnect_lem,
}
use server_study.SessionState.Once.{valid_kept}
use server_study.Connection.{
  Connection, System, welcome_packet, connect, disconnect, handle_accept, attempt, is_disconnect,
}

-- The session of a handle is in a state that is not idle, and the states are in order.
pub record Alive {W P : Type 0} (c : Connection W P) (handle j : ℕ) : Type 0 where
  pub inv : Inv pool_size state_count c.sessions
  pub named : c.session.handle ≡ handle
  pub used : 0 < j
  pub there : InState c.sessions c.session.handle j

-- The state in which an operation is under way.
abbrev pub awaited : IoType → ℕ
awaited IoType.accept = pending
awaited _ = connected

-- A change of the states that is not about the session of the handle; other sessions may be taken from the pool or
-- given back to it.
pub record Keeps (handle : ℕ) (set set' : SparseSet) : Type 0 where
  pub inv : Inv pool_size state_count set → Inv pool_size state_count set'
  pub there :
      (j : ℕ) → Inv pool_size state_count set → 0 < j → InState set handle j → InState set' handle j

-- While the manager's table holds a reference to the session, releasing another pointer does not give it back; and
-- DecrementPendingAccepts, which takes idle sessions for new accepts, does not take it.
pub record IsSteady {W P : Type 0} (sys : System W P) (handle : ℕ) : Type 0 where
  pub released : (set : SparseSet) (w : W) (ptr : P) → Keeps handle set (sys.release set w ptr).1
  pub counted_down :
      (set : SparseSet) (w : W) → Keeps handle set (sys.decrement_pending_accepts set w).0

module _ {W P : Type 0} (env : Env W P) where
  register_write-handle : (s : Session P) (w : W) → (register_write env s w).1.handle ≡ s.handle
  unfolding register_write
  register_write-handle s w = ground arith

  register_read-handle : (s : Session P) (w : W) → (register_read env s w).1.handle ≡ s.handle
  unfolding register_read
  register_read-handle s w = ground arith

  send_packet-handle :
      (s : Session P) (w : W) (p : Array ℕ) → (send_packet env s w p).1.handle ≡ s.handle
  unfolding send_packet
  send_packet-handle s w p = grind (arith, register_write-handle)

  on_read-handle : (s : Session P) (w : W) (n : ℕ) → (on_read env s w n).1.handle ≡ s.handle
  unfolding on_read
  on_read-handle s w n = grind (arith, register_read-handle)

  on_write-handle : (s : Session P) (w : W) (n : ℕ) → (on_write env s w n).1.handle ≡ s.handle
  unfolding on_write
  on_write-handle s w n = grind (arith, register_write-handle)

  handle_io-handle :
      (s : Session P) (w : W) (io : IoType) (n : ℕ) → (handle_io env s w io n).1.handle ≡ s.handle
  unfolding handle_io
  handle_io-handle s w IoType.recv n = on_read-handle s w n
  handle_io-handle s w IoType.send n = on_write-handle s w n
  handle_io-handle s w IoType.accept n = refl
  handle_io-handle s w IoType.disconnect n = refl
  handle_io-handle s w IoType.no_io n = refl

module _ {W P : Type 0} {handle : ℕ} where
  pub Alive-same :
      {c c' : Connection W P} {j : ℕ}
      → c'.sessions ≡ c.sessions
      → c'.session.handle ≡ c.session.handle
      → Alive c handle j
      → Alive c' handle j
  Alive-same {j = j} e f a = record {
    inv = subst (Inv pool_size state_count) (sym e) a.inv;
    named = f ∙ a.named;
    used = a.used;
    there = rw (e, f) a.there;
  }

  moved-Alive :
      (c c' : Connection W P) (j : ℕ)
      → c'.session.handle ≡ c.session.handle
      → Moves c.sessions c.session.handle j c'.sessions
      → is_valid pool_size c.sessions c.session.handle ≡ true
      → c.session.handle ≡ handle
      → 0 < j
      → Alive c' handle j
  moved-Alive c c' j e m ok name lt = record {
    inv = m.reaches.inv;
    named = e ∙ name;
    used = lt;
    there = rw e (
      valid_kept c.sessions c'.sessions c.session.handle
          (m.reaches.generations (who_of c.session.handle)) ok,
      m.reaches.arrived,
    );
  }

module _ {W P : Type 0} (sys : System W P) {handle : ℕ} where
  -- Disconnect leaves a session that was pending, connected or disconnecting disconnecting.
  pub disconnect-Alive :
      (c : Connection W P) (j : ℕ)
      → Alive c handle j
      → Alive (disconnect sys c).1 handle disconnecting
  unfolding disconnect
  disconnect-Alive c j a = elim (begin_disconnect_lem c.sessions c.session.handle a.inv) [
    | inl (go, was, m) ↦
        rw (disconnect, go) (moved-Alive c _ disconnecting refl m a.there.0 a.named (omega arith))
    | inr (not_pending, not_connected, e) ↦
        let now = InState-get_state c.sessions c.session.handle j a.inv a.there in
        let lt = a.used in
        let late : j ≡ disconnecting =
          grind (arith, lt, now.0, now.1, not_pending, not_connected) in
        rw (disconnect, e)
          (Alive-same {c = c} (ap (λ (r : Option Bool × SparseSet). r.1) e) refl (record {
            inv = a.inv;
            named = a.named;
            used = omega arith;
            there = (a.there.0, a.there.1 ∙ late);
          }))
  ]

  connect-Alive :
      (c : Connection W P) → Alive c handle pending → Alive (connect sys c).1 handle connected
  unfolding connect
  connect-Alive c a = elim (begin_connect_lem c.sessions c.session.handle a.inv) [
    | inr (other, e) ↦
        absurd (other (InState-get_state c.sessions c.session.handle pending a.inv a.there).0)
    | inl (go, was, m) ↦
        let welcome = memory (welcome_packet c.session.handle) in
        let r = send_packet sys.env c.session c.world welcome in
        let same = send_packet-handle sys.env c.session c.world welcome in
        elim (Bool-cases r.0) [
          | inl sent ↦
              rw (go, sent)
                (moved-Alive c _ connected (register_read-handle sys.env r.1 r.2 ∙ same) m a.there.0
                  a.named (omega arith))
          | inr unsent ↦
              rw (go, unsent) (moved-Alive c _ connected same m a.there.0 a.named (omega arith))
        ]
  ]

  -- HandleAccept answers true only with the session connected.
  handle_accept-Alive :
      (c : Connection W P)
      → Alive c handle pending
      → (j : ℕ) × Alive (handle_accept sys c).1 handle j
        × (((handle_accept sys c).0 ≡ false) ⊎ (j ≡ connected))
  unfolding handle_accept
  handle_accept-Alive c a =
      let (updated, w1) = sys.set_sock_opt c.world in
      let (no_delay, w2) = sys.set_sock_opt w1 in
      elim (Bool-cases updated) [
        | inr bad ↦ rw bad (pending, Alive-same refl refl a, inl refl)
        | inl ok ↦ elim (Bool-cases no_delay) [
          | inr bad ↦ rw (ok, bad) (pending, Alive-same refl refl a, inl refl)
          | inl ok' ↦
              rw (ok, ok')
                (
                  connected,
                  connect-Alive (record c { world = w2 }) (Alive-same refl refl a),
                  inr refl,
                )
        ]
      ]

  -- What Dispatch tries, in the state that it expects: it leaves the session in some state that is not
  -- idle, and connected if it succeeds.
  pub attempt-Alive :
      (c : Connection W P) (io : IoType) (transferred : ℕ)
      → is_disconnect io ≡ false
      → Alive c handle (awaited io)
      → (j : ℕ) × Alive (attempt sys c io transferred).1 handle j
        × (((attempt sys c io transferred).0 ≡ false) ⊎ (j ≡ connected))
  unfolding attempt is_disconnect
  attempt-Alive c IoType.accept transferred h a = handle_accept-Alive c a
  attempt-Alive c IoType.disconnect transferred h a = ground arith
  attempt-Alive c IoType.no_io transferred h a = (connected, a, inl refl)
  attempt-Alive c IoType.recv transferred h a = elim (Bool-cases (transferred == 0)) [
    | inl closed ↦ rw closed (connected, a, inl refl)
    | inr open_yet ↦ rw open_yet (
      connected,
      Alive-same refl (handle_io-handle sys.env c.session c.world IoType.recv transferred) a,
      inr refl,
    )
  ]
  attempt-Alive c IoType.send transferred h a = elim (Bool-cases (transferred == 0)) [
    | inl closed ↦ rw closed (connected, a, inl refl)
    | inr open_yet ↦ rw open_yet (
      connected,
      Alive-same refl (handle_io-handle sys.env c.session c.world IoType.send transferred) a,
      inr refl,
    )
  ]
