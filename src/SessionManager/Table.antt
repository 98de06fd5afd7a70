-- ===== src/SessionManager/Table.antt =====
-- The invariant of the table of pointers, and CreateSession.
use server_study.Prelude.{
  ℕ, ◌<◌, ◌≡◌, refl, ap, sym, ◌∙◌, ◌⊎◌, inl, true, false, ◌&&◌, Array, update, arith, ℕ_discrete,
  ==_iff, ≢→==,
}
use server_study.SparseSet.{SparseSet, who_of, state_of, generation_at, get_handle}
use server_study.SparseSet
use server_study.SparseSet.Invariant.{Config, Inv, init-Inv}
use server_study.SparseSet.Move.{Reaches}
use server_study.SparseSet.Handles.{valid-get_handle, who_lt}
use server_study.SparseSet.Calls.{Popped, pop-Popped, is_valid-generations}
use server_study.SparsePool.{
  Pool, Ptr, Options, null_ptr, is_valid, acquire, occupy, add_ref, release_ref,
}
use server_study.SparsePool.Counted.{ptr, get_handle-generation}
use server_study.SparsePool.Acquire.{acquired, set-add_ref, set-occupy}
use server_study.SharedPoolPtr.{copy, move_assign, is_valid_ptr}
use server_study.SessionState.{pending, connected}
use server_study.SessionManager.{SessionManager, set_obj, create_session}

-- The table holds every session that is pending or connected, by its handle. What it has for an idle
-- index is not valid.
pub record Table {T : Type 0} (o : Options T) (set : SparseSet) (ptrs : Array Ptr) : Type 0 where
  pub inv : Inv o.size o.state_count set
  pub held :
      (i : ℕ)
      → i < o.size
      → (state_of set i ≡ pending) ⊎ (state_of set i ≡ connected)
      → ptrs i ≡ ptr (get_handle set i)
  pub stale :
      (i : ℕ)
      → i < o.size
      → state_of set i ≡ 0
      → ((ptrs i).pool && SparseSet.is_valid o.size set (ptrs i).handle) ≡ false

module _ {T : Type 0} (o : Options T) (c : Config o.size o.state_count) where
  -- A popped index takes its place in the table.
  Popped-Table :
      (s t : SparseSet) (h : ℕ) (ptrs : Array Ptr)
      → Table o s ptrs
      → Popped o.size o.state_count s pending (h, t)
      → Table o t (update ptrs (who_of h) (ptr h))
  Popped-Table s t h ptrs v popped =
      let kept = popped.moved.generations in
      record {
        inv = popped.moved.inv;
        held = λ i hi e. elim (ℕ_discrete i (who_of h)) [
          | yes same ↦
              rw (same, (==_iff (who_of h) (who_of h)).1 refl)
                (ap ptr (valid-get_handle o.size t h popped.word popped.still_valid))
          | no other ↦ rw (≢→== i (who_of h) other) (
              v.held i hi (rw (popped.moved.others i other) at e)
              ∙ ap ptr (sym (get_handle-generation s t i (kept i))))
        ];
        stale = λ i hi e. elim (ℕ_discrete i (who_of h)) [
          | yes same ↦ absurd (omega (arith, e, ap (state_of t) same, popped.moved.arrived))
          | no other ↦ rw (≢→== i (who_of h) other) (
              ap (λ b. (ptrs i).pool && b)
                (is_valid-generations o.size s t (ptrs i).handle (kept (who_of (ptrs i).handle)))
              ∙ v.stale i hi (sym (popped.moved.others i other) ∙ e))
        ];
      }

  -- Move assignment over a pointer that is not valid changes nothing in the pool.
  over_stale :
      (q : Pool T) (old new : Ptr)
      → (old.pool && is_valid o q old.handle) ≡ false
      → move_assign o q false old new ≡ (new, null_ptr, q)
  unfolding move_assign release_ref is_valid
  over_stale q old new h = ground (arith, h)

  created :
      (claim : ℕ → T → T) (m : SessionManager T) (made : T) (h : ℕ) (p : Pool T)
      → acquire o m.session_pool pending made ≡ (ptr h, p)
      → is_valid o p h ≡ true
      → ((m.session_ptrs (who_of h)).pool && is_valid o p (m.session_ptrs (who_of h)).handle)
        ≡ false
      → let q = set_obj o p (who_of h) (claim h (p.slots (who_of h)).obj) in
        create_session o claim m made ≡ (
          ptr h,
          record {
            session_pool = (add_ref o q h).1;
            session_ptrs = update m.session_ptrs (who_of h) (ptr h);
          },
        )
  unfolding create_session copy is_valid_ptr
  created claim m made h p e ok stale =
      let q = set_obj o p (who_of h) (claim h (p.slots (who_of h)).obj) in
      let over =
        over_stale q (m.session_ptrs (who_of h)) (ptr h) (unfold set_obj is_valid in stale) in
      rw (e, ok, over)

  -- With the table in order and an idle index, CreateSession returns a pointer to a session that was
  -- idle and is now pending, and the table is in order and holds it.
  pub create_session_lem :
      (claim : ℕ → T → T) (m : SessionManager T) (made : T) (i : ℕ)
      → Table o m.session_pool.set m.session_ptrs
      → pending < o.state_count
      → i < o.size
      → state_of m.session_pool.set i ≡ 0
      → let (new, m') = create_session o claim m made in
        Table o m'.session_pool.set m'.session_ptrs
        × (new.pool ≡ true)
        × (is_valid o m'.session_pool new.handle ≡ true)
        × (state_of m.session_pool.set (who_of new.handle) ≡ 0)
        × (state_of m'.session_pool.set (who_of new.handle) ≡ pending)
        × (m'.session_ptrs (who_of new.handle) ≡ new)
  unfolding is_valid
  create_session_lem claim m made i v exists hi e =
      let popped = pop-Popped c v.inv pending i exists hi e in
      let (h, s) = SparseSet.pop o.size o.state_count m.session_pool.set pending in
      let p = (add_ref o (occupy o (record m.session_pool { set = s }) made h) h).1 in
      let set_lem : p.set ≡ s = set-add_ref o _ h ∙ set-occupy o _ made h in
      let ok : SparseSet.is_valid o.size p.set h ≡ true =
        ap (λ t. SparseSet.is_valid o.size t h) set_lem ∙ popped.still_valid in
      let old = m.session_ptrs (who_of h) in
      let stale =
        v.stale (who_of h) (who_lt o.size m.session_pool.set h popped.fresh) popped.was_idle in
      let stale_after : (old.pool && SparseSet.is_valid o.size p.set old.handle) ≡ false =
        ap (λ t. old.pool && SparseSet.is_valid o.size t old.handle) set_lem
        ∙ ap (λ b. old.pool && b)
            (is_valid-generations o.size m.session_pool.set s old.handle
              (popped.moved.generations (who_of old.handle)))
        ∙ stale in
      let q = set_obj o p (who_of h) (claim h (p.slots (who_of h)).obj) in
      let q_set : (add_ref o q h).1.set ≡ s = set-add_ref o q h ∙ (unfold set_obj in set_lem) in
      rw
        (
          created claim m made h p (acquired o m.session_pool pending made popped.still_valid) ok
              stale_after,
          q_set,
        )
        (
          Popped-Table m.session_pool.set s h m.session_ptrs v popped,
          refl,
          popped.still_valid,
          popped.was_idle,
          popped.moved.arrived,
          rw ((==_iff (who_of h) (who_of h)).1 refl),
        )

  -- With no sessions yet.
  pub init-Table : Table o (SparseSet.init o.size) (λ i. null_ptr)
  unfolding SparseSet.init
  init-Table = record {
    inv = init-Inv c;
    held = λ i h e. absurd (omega (arith, e));
    stale = λ i h e. refl;
  }

  -- ConnectSession keeps the table in order.
  pub connected-Table :
      (s t : SparseSet) (who : ℕ) (ptrs : Array Ptr)
      → Table o s ptrs
      → state_of s who ≡ pending
      → Reaches o.size o.state_count s who connected (true, t)
      → Table o t ptrs
  connected-Table s t who ptrs v e r = record {
    inv = r.inv;
    held = λ i hi now.
        (let was : (state_of s i ≡ pending) ⊎ (state_of s i ≡ connected) = elim (ℕ_discrete i who) [
          | yes same ↦ inl (ap (state_of s) same ∙ e)
          | no other ↦ rw (r.others i other) at now
        ] in
          v.held i hi was ∙ ap ptr (sym (get_handle-generation s t i (r.generations i))));
    stale = λ i hi now. elim (ℕ_discrete i who) [
      | yes same ↦ absurd (omega (arith, now, ap (state_of t) same, r.arrived))
      | no other ↦
          ap (λ b. (ptrs i).pool && b)
            (is_valid-generations o.size s t (ptrs i).handle
              (r.generations (who_of (ptrs i).handle)))
          ∙ v.stale i hi (sym (r.others i other) ∙ now)
    ];
  }
