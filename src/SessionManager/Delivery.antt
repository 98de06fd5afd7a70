-- ===== src/SessionManager/Delivery.antt =====
-- Broadcast over real sessions: what their write buffers hold after it.
use server_study.Prelude.{ℕ, ◌^◌, ◌<◌, ◌≡◌, ◌≢◌, ap, sym, subst, ◌∙◌, ◌⊎◌, inl, inr, Array}
use server_study.SparseSet.{state_of, get_handle}
use server_study.SparseSet.Invariant.{Config}
use server_study.SparsePool.{Slot, Options}
use server_study.Session.{Session, Env, header_size, send_packet}
use server_study.Session.Contents.{contents}
use server_study.Session.Sends.{packet, next}
use server_study.Session.Queue.{Inv, packet-Inv}
use server_study.SessionState.{connected}
use server_study.SessionManager.{SessionManager, broadcast}
use server_study.SessionManager.Table.{Table}
use server_study.SessionManager.Broadcasting.{broadcast_lem}

-- With the table in order and a packet whose size has 16 bits, Broadcast puts the packet once at the
-- end of the write buffer of every connected session but the one that is left out, if it has room
-- there, and leaves the other buffers as they are.
pub broadcast-contents :
    {W P : Type 0} (env : Env W P) (o : Options (Session P)) (m : SessionManager (Session P))
    (w : W) (p : Array ℕ) (session_handle i : ℕ)
    → Config o.size o.state_count
    → Table o m.session_pool.set m.session_ptrs
    → connected < o.state_count
    → i < o.size
    → header_size p 0 < 2 ^ 16
    → Inv (m.session_pool.slots i).obj
    → let (ok, m', w') = broadcast o (send_packet env) m w p session_handle in
      let before = contents (m.session_pool.slots i).obj.write_ov in
      let after = contents (m'.session_pool.slots i).obj.write_ov in
      Inv (m'.session_pool.slots i).obj
      × (((state_of m.session_pool.set i ≡ connected)
            × (get_handle m.session_pool.set i ≢ session_handle)
            × (after ≡ next before (packet p)))
          ⊎ (((state_of m.session_pool.set i ≢ connected)
                ⊎ (get_handle m.session_pool.set i ≡ session_handle))
              × (after ≡ before)))
broadcast-contents {P = P} env o m w p session_handle i c v exists hi small inv =
    elim (broadcast_lem o (send_packet env) p session_handle m w i c v exists hi).3 [
      | inl (here, ne, w1, e) ↦
          let sent = packet-Inv env (m.session_pool.slots i).obj w1 p inv small in
          (
            subst Inv (sym e) sent.0,
            inl (here, ne, ap (λ (s : Session P). contents s.write_ov) e ∙ sent.1),
          )
      | inr (out, e) ↦ (
        subst (λ (x : Slot (Session P)). Inv x.obj) (sym e) inv,
        inr (out, ap (λ (x : Slot (Session P)). contents x.obj.write_ov) e),
      )
    ]
