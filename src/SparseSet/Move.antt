-- ===== src/SparseSet/Move.antt =====
-- MoveToState: its loops end, reach the state that was asked for, and disturb nothing else.
use server_study.Prelude.{
  ℕ, zero, suc, ◌+◌, ◌-◌, ◌≤◌, ◌<◌, ◌≡◌, ◌≢◌, refl, ◌∙◌, arith, Bool, true, inl, inr, Bool-cases,
  ltb, max, min, ltb→lt, lt→leb,
}
use server_study.SparseSet.{
  SparseSet, who_of, state_of, generation_at, raise, lower, increment_state, decrement_state, climb,
  descend, move_loops, move_to_state, is_valid,
}
use server_study.SparseSet.Invariant.{Config, Inv}
use server_study.SparseSet.Handles.{who_lt}
use server_study.SparseSet.Raise.{raise-Inv, state-raise, generation-raise}
use server_study.SparseSet.Lower.{lower-Inv, state-lower, generation-lower}

-- A call on index `who` of `s` that succeeded: the invariant holds, `who` is in state `j`, no other
-- index changed its state, and no generation changed.
pub record Reaches (n k : ℕ) (s : SparseSet) (who j : ℕ) (r : Bool × SparseSet) : Type 0 where
  pub done : r.0 ≡ true
  pub inv : Inv n k r.1
  pub arrived : state_of r.1 who ≡ j
  pub others : (i : ℕ) → i ≢ who → state_of r.1 i ≡ state_of s i
  pub generations : (i : ℕ) → generation_at r.1 i ≡ generation_at s i

module _ {n k : ℕ} where
  pub Reaches-here :
      {s : SparseSet} (who : ℕ) → Inv n k s → Reaches n k s who (state_of s who) (true, s)
  Reaches-here who v = record {
    done = refl;
    inv = v;
    arrived = refl;
    others = λ i h. refl;
    generations = λ i. refl;
  }

  pub Reaches-trans :
      {s : SparseSet} {who j l : ℕ} {q r : Bool × SparseSet}
      → Reaches n k s who j q
      → Reaches n k q.1 who l r
      → Reaches n k s who l r
  Reaches-trans a b = record {
    done = b.done;
    inv = b.inv;
    arrived = b.arrived;
    others = λ i h. b.others i h ∙ a.others i h;
    generations = λ i. b.generations i ∙ a.generations i;
  }

  pub Reaches-target :
      {s : SparseSet} {who j l : ℕ} {r : Bool × SparseSet}
      → j ≡ l
      → Reaches n k s who j r
      → Reaches n k s who l r
  Reaches-target e a = rw (← e) a

module _ {n k : ℕ} (c : Config n k) where
  pub increment-raise :
      (s : SparseSet) (handle : ℕ)
      → state_of s (who_of handle) + 1 < k
      → increment_state k s handle ≡ (true, raise s (who_of handle))
  unfolding increment_state
  increment-raise s handle h = ground (arith, c.some_states, c.states_fit)

  pub decrement-lower :
      (s : SparseSet) (handle : ℕ)
      → state_of s (who_of handle) ≢ 0
      → decrement_state s handle ≡ (true, lower s (who_of handle))
  unfolding decrement_state
  decrement-lower s handle h = ground arith

  pub raise-Reaches :
      {s : SparseSet} (v : Inv n k s) (who : ℕ)
      → who < n
      → state_of s who + 1 < k
      → Reaches n k s who (state_of s who + 1) (true, raise s who)
  raise-Reaches {s} v who hw h = record {
    done = refl;
    inv = raise-Inv c v who hw h;
    arrived = ground (arith, state-raise s who who);
    others = λ i ne. ground (arith, state-raise s who i);
    generations = generation-raise s who;
  }

  pub lower-Reaches :
      {s : SparseSet} (v : Inv n k s) (who : ℕ)
      → who < n
      → state_of s who ≢ 0
      → Reaches n k s who (state_of s who - 1) (true, lower s who)
  lower-Reaches {s} v who hw h = record {
    done = refl;
    inv = lower-Inv c v who hw h;
    arrived = ground (arith, state-lower s who who);
    others = λ i ne. ground (arith, state-lower s who i);
    generations = generation-lower s who;
  }

  module _ (handle new_state : ℕ) (hw : who_of handle < n) (hj : new_state < k) where
    climb-Reaches :
        (rounds : ℕ) {s : SparseSet} (v : Inv n k s)
        → new_state ≤ state_of s (who_of handle) + rounds
        → Reaches n k s
            (who_of handle)
            (max (state_of s (who_of handle)) new_state)
            (climb k rounds s handle new_state)
    unfolding climb
    climb-Reaches zero {s} v h = Reaches-target (omega arith) (Reaches-here (who_of handle) v)
    climb-Reaches (suc rounds) {s} v h =
        elim (Bool-cases (ltb (state_of s (who_of handle)) new_state)) [
          | inl more ↦
              let lt = ltb→lt _ _ more in
              let step = raise-Reaches v (who_of handle) hw (omega arith) in
              rw (more, increment-raise s handle (omega arith))
                (Reaches-target (omega (arith, step.arrived)) (
                  Reaches-trans step (climb-Reaches rounds step.inv (omega (arith, step.arrived)))))
          | inr enough ↦ rw enough (Reaches-target (ground arith) (Reaches-here (who_of handle) v))
        ]

    descend-Reaches :
        (rounds : ℕ) {s : SparseSet} (v : Inv n k s)
        → state_of s (who_of handle) ≤ new_state + rounds
        → Reaches n k s
            (who_of handle)
            (min (state_of s (who_of handle)) new_state)
            (descend rounds s handle new_state)
    unfolding descend
    descend-Reaches zero {s} v h = Reaches-target (omega arith) (Reaches-here (who_of handle) v)
    descend-Reaches (suc rounds) {s} v h =
        elim (Bool-cases (ltb new_state (state_of s (who_of handle)))) [
          | inl more ↦
              let lt = ltb→lt _ _ more in
              let step = lower-Reaches v (who_of handle) hw (omega arith) in
              rw (more, decrement-lower s handle (omega arith))
                (Reaches-target (omega (arith, step.arrived)) (
                  Reaches-trans step
                    (descend-Reaches rounds step.inv (omega (arith, step.arrived)))))
          | inr enough ↦ rw enough (Reaches-target (ground arith) (Reaches-here (who_of handle) v))
        ]

    move_loops-Reaches :
        {s : SparseSet}
        → Inv n k s
        → Reaches n k s (who_of handle) new_state (move_loops k s handle new_state)
    unfolding move_loops
    move_loops-Reaches {s} v =
        let up = climb-Reaches new_state v (omega arith) in
        let down =
          descend-Reaches (state_of (climb k new_state s handle new_state).1 (who_of handle)) up.inv
            (omega arith) in
        rw up.done (Reaches-target (omega (arith, up.arrived)) (Reaches-trans up down))

  -- MoveToState on a valid handle and a state that exists ends with the handle in that state.
  pub move_to_state-Reaches :
      {s : SparseSet} (handle new_state : ℕ)
      → Inv n k s
      → is_valid n s handle ≡ true
      → new_state < k
      → Reaches n k s (who_of handle) new_state (move_to_state n k s handle new_state)
  unfolding move_to_state
  move_to_state-Reaches {s} handle new_state v ok h =
      rw (lt→leb new_state k h, ok) (move_loops-Reaches handle new_state (who_lt n s handle ok) h v)
