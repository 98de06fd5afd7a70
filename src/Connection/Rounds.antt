-- ===== src/Connection/Rounds.antt =====
-- IocpCore.cpp: what a completion does to the state of the session.
use server_study.Prelude.{
  ℕ, ◌≡◌, refl, sym, subst, ◌∙◌, inl, inr, Bool, true, false, ◌&&◌, if◌then◌else◌, arith,
  Bool-cases,
}
use server_study.Session.{IoType}
use server_study.SessionState.{connected, disconnecting}
use server_study.SessionState.Transitions.{InState}
use server_study.Connection.{
  Connection, System, ptr_of, set_ptr, disconnect, copy_ptr, reset_ptr, destroy_ptr, attempt,
  dispatch, is_disconnect, handle_error, accepted, worker_round,
}
use server_study.Connection.Alive.{
  Alive, awaited, Keeps, IsSteady, Alive-same, disconnect-Alive, attempt-Alive,
}

module _ {W P : Type 0} {sys : System W P} {handle : ℕ} (steady : IsSteady sys handle) where
  kept-Alive :
      {c c' : Connection W P} {j : ℕ}
      → Keeps handle c.sessions c'.sessions
      → c'.session.handle ≡ c.session.handle
      → Alive c handle j
      → Alive c' handle j
  kept-Alive {c} {c'} {j} k e a = record {
    inv = k.inv a.inv;
    named = e ∙ a.named;
    used = a.used;
    there =
        subst (λ x. InState c'.sessions x j) (sym (e ∙ a.named))
          (k.there j a.inv a.used (subst (λ x. InState c.sessions x j) a.named a.there));
  }

  set_ptr-Alive :
      (c : Connection W P) (io : IoType) (ptr : P) (j : ℕ)
      → Alive c handle j
      → Alive (set_ptr c io ptr) handle j
  unfolding set_ptr
  set_ptr-Alive c IoType.send ptr j a = Alive-same refl refl a
  set_ptr-Alive c IoType.disconnect ptr j a = Alive-same refl refl a
  set_ptr-Alive c IoType.recv ptr j a = Alive-same refl refl a
  set_ptr-Alive c IoType.accept ptr j a = Alive-same refl refl a
  set_ptr-Alive c IoType.no_io ptr j a = Alive-same refl refl a

  reset_ptr-Alive :
      (c : Connection W P) (io : IoType) (j : ℕ)
      → Alive c handle j
      → Alive (reset_ptr sys c io) handle j
  unfolding reset_ptr
  reset_ptr-Alive c io j a =
      set_ptr-Alive _ io _ j
        (kept-Alive {c = c} (steady.released c.sessions c.world (ptr_of c io)) refl a)

  destroy_ptr-Alive :
      (c : Connection W P) (ptr : P) (j : ℕ)
      → Alive c handle j
      → Alive (destroy_ptr sys c ptr) handle j
  unfolding destroy_ptr
  destroy_ptr-Alive c ptr j a = kept-Alive {c = c} (steady.released c.sessions c.world ptr) refl a

  copy_ptr-Alive :
      (c : Connection W P) (io : IoType) (j : ℕ)
      → Alive c handle j
      → Alive (copy_ptr sys c io).1 handle j
  unfolding copy_ptr
  copy_ptr-Alive c io j a = Alive-same refl refl a

  accepted-Alive :
      (c : Connection W P) (io : IoType) (j : ℕ)
      → Alive c handle j
      → Alive (accepted sys c io) handle j
  unfolding accepted
  accepted-Alive c IoType.accept j a =
      kept-Alive {c = c} (steady.counted_down c.sessions c.world) refl a
  accepted-Alive c IoType.send j a = a
  accepted-Alive c IoType.disconnect j a = a
  accepted-Alive c IoType.recv j a = a
  accepted-Alive c IoType.no_io j a = a

  dispatch-Alive :
      (c : Connection W P) (io : IoType) (transferred : ℕ)
      → is_disconnect io ≡ false
      → Alive c handle (awaited io)
      → let c' = reset_ptr sys (copy_ptr sys c io).1 io in
        Alive
          (dispatch sys c io transferred)
          handle
          (if (attempt sys c' io transferred).0 then connected else disconnecting)
  unfolding dispatch
  dispatch-Alive c io transferred h a =
      let c' = reset_ptr sys (copy_ptr sys c io).1 io in
      let r = attempt sys c' io transferred in
      let (j, now, ended) = attempt-Alive sys c' io transferred h (
        reset_ptr-Alive (copy_ptr sys c io).1 io (awaited io)
          (copy_ptr-Alive c io (awaited io) a)) in
      elim (Bool-cases r.0) [
        | inl done ↦
            let here : j ≡ connected = elim ended [
              | inl e ↦ absurd (let f : true ≡ false = sym done ∙ e in ground (arith, f))
              | inr e ↦ e
            ] in
            rw done (destroy_ptr-Alive r.1 _ connected (subst (Alive r.1 handle) here now))
        | inr not_done ↦ rw not_done (
            destroy_ptr-Alive (disconnect sys r.1).1 _ disconnecting
              (disconnect-Alive sys r.1 j now))
      ]

  handle_error-Alive :
      (c : Connection W P) (io : IoType)
      → is_disconnect io ≡ false
      → Alive c handle (awaited io)
      → Alive (handle_error sys c io) handle disconnecting
  unfolding handle_error
  handle_error-Alive c io h a =
      let c' = reset_ptr sys (copy_ptr sys c io).1 io in
      rw h (
        destroy_ptr-Alive (disconnect sys c').1 _ disconnecting (
          disconnect-Alive sys c' (awaited io) (
            reset_ptr-Alive (copy_ptr sys c io).1 io (awaited io)
              (copy_ptr-Alive c io (awaited io) a))))

  -- If the manager's table still holds its reference to the session, so that releasing other pointers and counting
  -- an accept down leave it alone, whatever they do to other sessions, and its operation, which is not a
  -- disconnect, completes in the state that it belongs to, pending for an accept and connected otherwise, then after
  -- the round of WorkerThread the session has its handle, and is connected, if the operation succeeded and
  -- Dispatch could handle it, and disconnecting if not.
  pub worker_round-Alive :
      (c : Connection W P) (result : Bool) (io : IoType) (transferred : ℕ)
      → is_disconnect io ≡ false
      → Alive c handle (awaited io)
      → let c1 = accepted sys (copy_ptr sys c io).1 io in
        let c2 = reset_ptr sys (copy_ptr sys c1 io).1 io in
        Alive
          (worker_round sys c result io transferred)
          handle
          (if result && (attempt sys c2 io transferred).0 then connected else disconnecting)
  unfolding worker_round
  worker_round-Alive c true io transferred h a =
      let c1 = accepted sys (copy_ptr sys c io).1 io in
      destroy_ptr-Alive (dispatch sys c1 io transferred) _ _ (
        dispatch-Alive c1 io transferred h
          (accepted-Alive _ io (awaited io) (copy_ptr-Alive c io (awaited io) a)))
  worker_round-Alive c false io transferred h a =
      let c1 = accepted sys (copy_ptr sys c io).1 io in
      destroy_ptr-Alive (handle_error sys c1 io) _ disconnecting (
        handle_error-Alive c1 io h
          (accepted-Alive _ io (awaited io) (copy_ptr-Alive c io (awaited io) a)))
