-- ===== src/SparsePool/Acquire.antt =====
-- Acquire and MoveToState keep the reference counts.
use server_study.Prelude.{
  ℕ, ◌+◌, ◌^◌, ◌≤◌, ◌<◌, ◌≡◌, ◌≢◌, ◌⊎◌, refl, sym, ap, ◌∙◌, true, List, ◌∷◌, length, arith,
  ℕ_discrete,
}
use server_study.SparseSet.{SparseSet, who_of, state_of, generation_at, get_handle, invalid_handle}
use server_study.SparseSet
use server_study.SparseSet.Invariant.{Config}
use server_study.SparseSet.Handles.{who_lt, invalid_handle_lem}
use server_study.SparseSet.Move.{move_to_state-Reaches}
use server_study.SparseSet.Calls.{Popped, pop-Popped, pop_refused}
use server_study.SparsePool.{
  Pool, Ptr, Options, null_ptr, ref_count_of, is_valid, add_ref, occupy, acquire, move_to_state,
}
use server_study.SparsePool.Counted.{refs, ptr, Counted, get_handle-generation}
use server_study.SparsePool.Refs.{add_ref-Counted}

count-occupy :
    {T : Type 0} (o : Options T) (p : Pool T) (made : T) (h i : ℕ)
    → ref_count_of o p (who_of h) ≡ 0
    → ref_count_of o (occupy o p made h) i ≡ ref_count_of o p i
unfolding occupy
count-occupy o p made h i e = ground arith

pub acquired :
    {T : Type 0} (o : Options T) (p : Pool T) (state : ℕ) (made : T)
    → let (h, s) = SparseSet.pop o.size o.state_count p.set state in
      SparseSet.is_valid o.size s h ≡ true
      → acquire o p state made ≡ (ptr h, (add_ref o (occupy o (record p { set = s }) made h) h).1)
unfolding acquire
acquired o p state made ok = rw ok

pub set-add_ref : {T : Type 0} (o : Options T) (p : Pool T) (h : ℕ) → (add_ref o p h).1.set ≡ p.set
unfolding add_ref
set-add_ref o p h = ground arith

pub set-occupy :
    {T : Type 0} (o : Options T) (p : Pool T) (made : T) (h : ℕ) → (occupy o p made h).set ≡ p.set
unfolding occupy
set-occupy o p made h = refl

module _ {T : Type 0} {o : Options T} (c : Config o.size o.state_count) where
  occupied-Counted :
      {p : Pool T} {ps : List Ptr} (state : ℕ) (r : ℕ × SparseSet) (made : T)
      → Counted o p ps
      → state ≢ 0
      → Popped o.size o.state_count p.set state r
      → Counted o (occupy o (record p { set = r.1 }) made r.0) ps
  unfolding occupy
  occupied-Counted {p} {ps} state (h, s) made v ne popped =
      let at_zero = v.idle (who_of h) (who_lt o.size p.set h popped.fresh) popped.was_idle in
      let same = λ (i : ℕ). count-occupy o (record p { set = s }) made h i at_zero in
      record {
        inv = popped.moved.inv;
        counts = λ i hi.
            same i
            ∙ (v.counts i hi
                ∙ ap (λ g. refs g ps)
                    (sym (get_handle-generation p.set s i (popped.moved.generations i))));
        idle = λ i hi e. same i ∙ elim (ℕ_discrete i (who_of h)) [
          | yes at ↦ absurd (ne (sym popped.moved.arrived ∙ (ap (state_of s) (sym at) ∙ e)))
          | no other ↦ v.idle i hi (sym (popped.moved.others i other) ∙ e)
        ];
        words = v.words;
        few = v.few;
      }

  -- While some index is idle, Acquire to a state that exists and is not the idle one returns a valid
  -- pointer to an index that was idle and is now in that state; the counts are right for the
  -- pointers with the new one.
  pub acquire-Counted :
      (p : Pool T) (ps : List Ptr) (state i : ℕ) (made : T)
      → Counted o p ps
      → length ps + 1 < 2 ^ 64
      → state ≢ 0
      → state < o.state_count
      → i < o.size
      → state_of p.set i ≡ 0
      → let (new, q) = acquire o p state made in
        Counted o q (new ∷ ps)
        × (new.pool ≡ true)
        × (is_valid o q new.handle ≡ true)
        × (state_of p.set (who_of new.handle) ≡ 0)
        × (state_of q.set (who_of new.handle) ≡ state)
  unfolding is_valid
  acquire-Counted p ps state i made v room ne exists hi e =
      let popped = pop-Popped c v.inv state i exists hi e in
      let (h, s) = SparseSet.pop o.size o.state_count p.set state in
      let q = occupy o (record p { set = s }) made h in
      let same = set-occupy o (record p { set = s }) made h in
      let arrived = ap (λ t. state_of t (who_of h)) same ∙ popped.moved.arrived in
      let valid = ap (λ t. SparseSet.is_valid o.size t h) same ∙ popped.still_valid in
      let set_after = set-add_ref o q h in
      rw (acquired o p state made popped.still_valid) (
        add_ref-Counted c (occupied-Counted state (h, s) made v ne popped) h popped.word
            (λ ok zero. ne (sym arrived ∙ zero)) room,
        refl,
        ap (λ t. SparseSet.is_valid o.size t h) set_after ∙ valid,
        popped.was_idle,
        ap (λ t. state_of t (who_of h)) set_after ∙ arrived,
      )

  -- Where no index is idle, or the state does not exist, Acquire returns the null pointer and
  -- changes nothing.
  acquire_refused :
      (p : Pool T) (ps : List Ptr) (state : ℕ) (made : T)
      → Counted o p ps
      → ((i : ℕ) → i < o.size → state_of p.set i ≢ 0) ⊎ (o.state_count ≤ state)
      → acquire o p state made ≡ (null_ptr, p)
  unfolding acquire
  acquire_refused p ps state made v h = rw (pop_refused c v.inv state h, invalid_handle_lem p.set c)

  -- MoveToState on a valid handle and a state that exists and is not the idle one leaves the counts
  -- right.
  pub move_to_state-Counted :
      (p : Pool T) (ps : List Ptr) (handle new_state : ℕ)
      → Counted o p ps
      → is_valid o p handle ≡ true
      → new_state ≢ 0
      → new_state < o.state_count
      → let (done, q) = move_to_state o p handle new_state in
        (done ≡ true) × Counted o q ps × (state_of q.set (who_of handle) ≡ new_state)
  unfolding move_to_state is_valid
  move_to_state-Counted p ps handle new_state v ok ne exists =
      let t = (SparseSet.move_to_state o.size o.state_count p.set handle new_state).1 in
      let moved = move_to_state-Reaches c handle new_state v.inv ok exists in
      (
        moved.done,
        record {
          inv = moved.inv;
          counts = λ i hi.
              v.counts i hi
              ∙ ap (λ g. refs g ps) (sym (get_handle-generation p.set t i (moved.generations i)));
          idle = λ i hi e. elim (ℕ_discrete i (who_of handle)) [
            | yes at ↦ absurd (ne (sym moved.arrived ∙ (ap (state_of t) (sym at) ∙ e)))
            | no other ↦ v.idle i hi (sym (moved.others i other) ∙ e)
          ];
          words = v.words;
          few = v.few;
        },
        moved.arrived,
      )
