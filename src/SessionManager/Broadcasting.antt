-- ===== src/SessionManager/Broadcasting.antt =====
-- Broadcast: which sessions a packet is sent to.
use server_study.Prelude.{
  ℕ, ◌<◌, ◌≡◌, ◌≢◌, refl, ap, sym, subst, ◌∙◌, ◌⊎◌, inl, inr, Bool, true, List, [], ◌∷◌, In,
  Distinct, Array, ℕ_discrete, ==_iff, ≢→==,
}
use server_study.SparseSet.{SparseSet, who_of, state_of, get_handle, get_indices_in_state}
use server_study.SparseSet
use server_study.SparseSet.Invariant.{Config}
use server_study.SparseSet.Handles.{get_handle_unpacks, get_handle_word, get_handle-is_valid}
use server_study.SparseSet.Listing.{
  listed-In, In-listed, listed_handle, get_indices_in_state-Distinct,
}
use server_study.SparsePool.{Slot, Pool, Ptr, Options, is_valid}
use server_study.SparsePool.Counted.{ptr}
use server_study.SharedPoolPtr.{is_valid_ptr}
use server_study.SessionState.{connected}
use server_study.SessionManager.{SessionManager, set_obj, send_to, send_all, broadcast}
use server_study.SessionManager.Table.{Table}

module _ {T W : Type 0} (o : Options T) (send_packet : T → W → Array ℕ → Bool × T × W)
    (packet : Array ℕ) (session_handle : ℕ) where
  -- What the loop does to the objects: each of the handles but the one left out gets the packet once.
  record Sends (handles : List ℕ) (p p' : Pool T) : Type 0 where
    set : p'.set ≡ p.set
    sent :
        (h : ℕ)
        → In h handles
        → h ≢ session_handle
        → (w : W) × ((p'.slots (who_of h)).obj ≡ (send_packet (p.slots (who_of h)).obj w packet).1)
    kept :
        (i : ℕ)
        → ((h : ℕ) → In h handles → h ≢ session_handle → who_of h ≢ i)
        → p'.slots i ≡ p.slots i

  -- The table holds the handles, which are valid.
  abbrev Held : List ℕ → Array Ptr → SparseSet → Type 0
  Held handles ptrs set =
      (h : ℕ) → In h handles → (ptrs (who_of h) ≡ ptr h) × (SparseSet.is_valid o.size set h ≡ true)

  send_to_other :
      (h : ℕ) (ptrs : Array Ptr) (p : Pool T) (w : W)
      → ptrs (who_of h) ≡ ptr h
      → SparseSet.is_valid o.size p.set h ≡ true
      → h ≢ session_handle
      → let (sent, obj, w') = send_packet (p.slots (who_of h)).obj w packet in
        send_to o send_packet packet session_handle h ptrs p w ≡ (set_obj o p (who_of h) obj, w')
  unfolding send_to is_valid_ptr is_valid
  send_to_other h ptrs p w e ok ne = rw (≢→== h session_handle ne, e, ok)

  -- Two handles of the table with the same index are the same.
  apart :
      (h h' : ℕ) (ptrs : Array Ptr)
      → ptrs (who_of h) ≡ ptr h
      → ptrs (who_of h') ≡ ptr h'
      → h ≢ h'
      → who_of h ≢ who_of h'
  apart h h' ptrs e e' ne same = ne (ap (λ (x : Ptr). x.handle) (sym e ∙ ap ptrs same ∙ e'))

  send_to_self :
      (h : ℕ) (ptrs : Array Ptr) (p : Pool T) (w : W)
      → h ≡ session_handle
      → send_to o send_packet packet session_handle h ptrs p w ≡ (p, w)
  unfolding send_to
  send_to_self h ptrs p w e = rw ((==_iff h session_handle).1 e)

  set_obj_here :
      (p : Pool T) (i : ℕ) (obj : T)
      → (set_obj o p i obj).slots i ≡ record (p.slots i) { obj = obj }
  unfolding set_obj
  set_obj_here p i obj = rw ((==_iff i i).1 refl)

  set_obj_away : (p : Pool T) (i j : ℕ) (obj : T) → j ≢ i → (set_obj o p i obj).slots j ≡ p.slots j
  unfolding set_obj
  set_obj_away p i j obj ne = rw (≢→== j i ne)

  send_all-Sends :
      (handles : List ℕ) (ptrs : Array Ptr) (p : Pool T) (w : W)
      → Held handles ptrs p.set
      → Distinct handles
      → Sends handles p (send_all o send_packet packet session_handle handles ptrs p w).0
  unfolding send_all set_obj
  send_all-Sends [] ptrs p w held d = record {
    set = refl;
    sent = λ h m ne. elim m [ ];
    kept = λ i out. refl;
  }
  send_all-Sends (h ∷ handles) ptrs p w held d = elim (ℕ_discrete h session_handle) [
    | yes same ↦
        let rest = send_all-Sends handles ptrs p w (λ h' m. held h' (inr m)) d.1 in
        subst (λ (r : Pool T × W). Sends (h ∷ handles) p (go r))
          (sym (send_to_self h ptrs p w same))
          (record {
            set = rest.set;
            sent =
                λ h' m ne. elim m [ inl e ↦ absurd (ne (e ∙ same)) | inr m' ↦ rest.sent h' m' ne ];
            kept = λ i out. rest.kept i (λ h' m. out h' (inr m));
          })
    | no other ↦
        let here = held h (inl refl) in
        let (sent, obj, w1) = send_packet (p.slots (who_of h)).obj w packet in
        let p1 = set_obj o p (who_of h) obj in
        let rest = send_all-Sends handles ptrs p1 w1 (λ h' m. held h' (inr m)) d.1 in
        let away = λ (h' : ℕ) (m : In h' handles).
          apart h h' ptrs here.0 (held h' (inr m)).0
            (λ e. d.0 (subst (λ x. In x handles) (sym e) m)) in
        subst (λ (r : Pool T × W). Sends (h ∷ handles) p (go r))
          (sym (send_to_other h ptrs p w here.0 here.1 other))
          (record {
            set = rest.set;
            sent = λ h' m ne. elim m [
              | inl e ↦ (
                w,
                ap (λ (x : Slot T). x.obj)
                      (ap (go (p1, w1)).slots (ap who_of e)
                        ∙ rest.kept (who_of h) (λ h'' m' ne' same. away h'' m' (sym same))
                        ∙ set_obj_here p (who_of h) obj)
                    ∙ ap (λ i. (send_packet (p.slots i).obj w packet).1) (sym (ap who_of e)),
              )
              | inr m' ↦
                  let (w', e) = rest.sent h' m' ne in
                  (
                    w',
                    e
                        ∙ ap (λ (x : Slot T). (send_packet x.obj w' packet).1)
                            (set_obj_away p (who_of h) (who_of h') obj (λ x. away h' m' (sym x))),
                  )
            ];
            kept = λ i out.
                rest.kept i (λ h' m. out h' (inr m))
                ∙ set_obj_away p (who_of h) i obj (λ x. out h (inl refl) other (sym x));
          })
  ]
    where
      go : Pool T × W → Pool T
      go r = (send_all o send_packet packet session_handle handles ptrs r.0 r.1).0

  -- One session after a Broadcast.
  abbrev pub Gets : (set : SparseSet) → ℕ → (slot slot' : Slot T) → Type 0
  Gets set i slot slot' =
      ((state_of set i ≡ connected)
        × (get_handle set i ≢ session_handle)
        × (w : W) × (slot'.obj ≡ (send_packet slot.obj w packet).1))
      ⊎ (((state_of set i ≢ connected) ⊎ (get_handle set i ≡ session_handle)) × (slot' ≡ slot))

  -- With the table in order, Broadcast answers true, and calls SendPacket once on every connected
  -- session but the one with the handle that is left out, and on no other.
  pub broadcast_lem :
      (m : SessionManager T) (w : W) (i : ℕ)
      → Config o.size o.state_count
      → Table o m.session_pool.set m.session_ptrs
      → connected < o.state_count
      → i < o.size
      → let (ok, m', w') = broadcast o send_packet m w packet session_handle in
        (ok ≡ true)
        × (m'.session_ptrs ≡ m.session_ptrs)
        × (m'.session_pool.set ≡ m.session_pool.set)
        × Gets m.session_pool.set i (m.session_pool.slots i) (m'.session_pool.slots i)
  unfolding broadcast
  broadcast_lem m w i c v exists hi =
      let set = m.session_pool.set in
      let handles = get_indices_in_state o.state_count set connected in
      let held : Held handles m.session_ptrs set = λ h in_list.
        (let (lt, own) = listed_handle c v.inv connected exists h in_list in
          let (ok, state) = listed-In c v.inv connected exists h in_list in
          (v.held (who_of h) lt (inr state) ∙ ap ptr (sym own), ok)) in
      let all =
        send_all-Sends handles m.session_ptrs m.session_pool w held
          (get_indices_in_state-Distinct c v.inv connected exists) in
      let h = get_handle set i in
      let who_lem : who_of h ≡ i = (get_handle_unpacks i c v.inv hi).0 in
      (
        refl,
        refl,
        all.set,
        elim (ℕ_discrete (state_of set i) connected) [
          | no other ↦ inr (
            inl other,
            all.kept i (λ h' m' ne at.
                other (ap (state_of set) (sym at) ∙ (listed-In c v.inv connected exists h' m').1)),
          )
          | yes here ↦ elim (ℕ_discrete h session_handle) [
            | yes left_out ↦ inr (
              inr left_out,
              all.kept i (λ h' m' ne at. ne (
                  (listed_handle c v.inv connected exists h' m').1
                  ∙ ap (get_handle set) at
                  ∙ left_out)),
            )
            | no ne ↦
                let listed =
                  In-listed c v.inv connected exists h (get_handle_word i c v.inv hi)
                    (get_handle-is_valid i c v.inv hi) (ap (state_of set) who_lem ∙ here) in
                let (w1, e) = all.sent h listed ne in inl (here, ne, w1, rw who_lem at e)
          ]
        ],
      )
