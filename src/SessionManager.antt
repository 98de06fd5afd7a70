-- ===== src/SessionManager.antt =====
-- Network/Server/SessionManager.cpp: the table that holds each live session, over the session pool.
-- T is the type of the sessions, W the state of the rest of the server.
pub mod Table
pub mod Broadcasting
pub mod Delivery
pub mod Startup
mod Tests
use server_study.Prelude.{
  ℕ, Bool, true, false, Option, none, some, List, [], ◌∷◌, Array, update, ◌==◌, if◌then◌else◌,
}
use server_study.SparseSet.{who_of, get_indices_in_state}
use server_study.SparsePool.{Slot, Pool, Ptr, Options, null_ptr, is_valid, acquire}
use server_study.SharedPoolPtr.{copy, move_assign, is_valid_ptr, reset}
use server_study.SessionState.{pending, connected}

pub record SessionManager (T : Type 0) : Type 0 where
  pub session_pool : Pool T
  pub session_ptrs : Array Ptr

module _ {T : Type 0} (o : Options T) where
  -- Writes an object where it stands.
  unfoldable pub set_obj : Pool T → ℕ → T → Pool T
  set_obj p i obj = record p { slots = update p.slots i (record (p.slots i) { obj = obj }) }

  -- `claim` writes `sessionManager_` and `handle_`. The local pointer is empty at the end: it was moved
  -- from, or was null.
  unfoldable pub create_session :
      (claim : ℕ → T → T) → SessionManager T → T → Ptr × SessionManager T
  create_session claim m made =
      let (ptr, p) = acquire o m.session_pool pending made in
      let idx = who_of ptr.handle in
      let q = set_obj p idx (claim ptr.handle (p.slots idx).obj) in
      let (stored, gone, r) = move_assign o q false (m.session_ptrs idx) ptr in
      let (result, t) = copy o r stored in
      if is_valid_ptr o p ptr
      then (result, record { session_pool = t; session_ptrs = update m.session_ptrs idx stored })
      else (null_ptr, record m { session_pool = p })

  unfoldable pub disconnect_session : SessionManager T → ℕ → SessionManager T
  disconnect_session m handle =
      let idx = who_of handle in
      let (last, ptr, p) = reset o m.session_pool (m.session_ptrs idx) in
      if is_valid o m.session_pool handle
      then record { session_pool = p; session_ptrs = update m.session_ptrs idx ptr }
      else m

  unfoldable pub get_session : SessionManager T → ℕ → Ptr × SessionManager T
  get_session m handle =
      let (ptr, p) = copy o m.session_pool (m.session_ptrs (who_of handle)) in
      if is_valid o m.session_pool handle
      then (ptr, record m { session_pool = p })
      else (null_ptr, m)

  module _ {W : Type 0} (send_packet : T → W → Array ℕ → Bool × T × W) where
    -- The body of the loop of Broadcast: SendPacket on the session that stands in the table.
    unfoldable pub send_to :
        (packet : Array ℕ) → (session_handle handle : ℕ) → Array Ptr → Pool T → W → Pool T × W
    send_to packet session_handle handle ptrs p w =
        let ptr = ptrs (who_of handle) in
        let i = who_of ptr.handle in
        let (sent, obj, w') = send_packet (p.slots i).obj w packet in
        if handle == session_handle
        then (p, w)
        else (if is_valid_ptr o p ptr then (set_obj p i obj, w') else (p, w))

    unfoldable pub send_all :
        (packet : Array ℕ) → (session_handle : ℕ) → List ℕ → Array Ptr → Pool T → W → Pool T × W
    send_all packet session_handle [] ptrs p w = (p, w)
    send_all packet session_handle (handle ∷ handles) ptrs p w =
        let (p', w') = send_to packet session_handle handle ptrs p w in
        send_all packet session_handle handles ptrs p' w'

    unfoldable pub broadcast : SessionManager T → W → Array ℕ → ℕ → Bool × SessionManager T × W
    broadcast m w packet session_handle =
        let handles = get_indices_in_state o.state_count m.session_pool.set connected in
        let (p, w') = send_all packet session_handle handles m.session_ptrs m.session_pool w in
        (true, record m { session_pool = p }, w')
