-- ===== src/SparseSet/Calls.antt =====
-- Pop, Push and MoveToState as calls: what each returns and leaves behind, on every branch.
use server_study.Prelude.{
  ℕ, ◌^◌, ◌+◌, ◌≤◌, ◌<◌, ◌≡◌, ◌≢◌, refl, arith, true, false, Bool, ◌||◌, Bool-cases, leb, ◌==◌,
  if◌then◌else◌, add32, inl, inr, ◌⊎◌, ◌∙◌,
}
use server_study.SparseSet.{
  SparseSet, who_of, where_of, state_of, generation_at, get_handle, is_valid, invalid_handle, pop,
  push, move_to_state, bump_generation,
}
use server_study.SparseSet.Invariant.{Config, Inv, state_of_segment}
use server_study.SparseSet.Handles.{get_handle_unpacks, get_handle-is_valid, get_handle_word}
use server_study.SparseSet.Move.{Reaches, move_to_state-Reaches}

-- Validity is about the generations only.
pub is_valid-generations :
    (n : ℕ) (s t : SparseSet) (handle : ℕ)
    → generation_at t (who_of handle) ≡ generation_at s (who_of handle)
    → is_valid n t handle ≡ is_valid n s handle
unfolding is_valid
is_valid-generations n s t handle e = rw e

-- MoveToState to a state that does not exist, or on a handle that is not valid, fails and changes
-- nothing.
pub move_to_state_refused :
    (n k : ℕ) (s : SparseSet) (handle new_state : ℕ)
    → (k ≤ new_state) ⊎ (is_valid n s handle ≡ false)
    → move_to_state n k s handle new_state ≡ (false, s)
unfolding move_to_state
move_to_state_refused n k s handle new_state h = ground arith

-- A call of Pop that took `r.0` out of the idle state.
pub record Popped (n k : ℕ) (s : SparseSet) (state : ℕ) (r : ℕ × SparseSet) : Type 0 where
  pub word : r.0 < 2 ^ 64
  pub fresh : is_valid n s r.0 ≡ true
  pub was_idle : state_of s (who_of r.0) ≡ 0
  pub moved : Reaches n k s (who_of r.0) state (true, r.1)
  pub still_valid : is_valid n r.1 r.0 ≡ true

-- A call of Push that gave `handle` back.
pub record Pushed (n k : ℕ) (s : SparseSet) (handle : ℕ) (r : Bool × SparseSet) : Type 0 where
  pub done : r.0 ≡ true
  pub inv : Inv n k r.1
  pub idle : state_of r.1 (who_of handle) ≡ 0
  pub bumped : generation_at r.1 (who_of handle) ≡ add32 (generation_at s (who_of handle)) 1
  pub stale : is_valid n r.1 handle ≡ false
  pub other_states : (i : ℕ) → i ≢ who_of handle → state_of r.1 i ≡ state_of s i
  pub other_generations : (i : ℕ) → i ≢ who_of handle → generation_at r.1 i ≡ generation_at s i

bump_generation-Inv :
    {n k : ℕ} {s : SparseSet} (who : ℕ) → Inv n k s → Inv n k (bump_generation s who)
unfolding bump_generation
bump_generation-Inv {s = s} who v = record {
  where_lt = λ i h. ground (arith, v.where_lt i h);
  dense_where = λ i h. ground (arith, v.dense_where i h);
  dense_lt = v.dense_lt;
  where_dense = λ p h. ground (arith, v.where_dense p h);
  state_lt = λ i h. ground (arith, v.state_lt i h);
  above = λ i h. ground (arith, v.above i h);
  below = λ i h. ground (arith, v.below i h);
  first = v.first;
  last = v.last;
  generation_lt = λ i h. ground (arith, v.generation_lt i h);
  mono = v.mono;
}

state-bump_generation :
    (s : SparseSet) (who i : ℕ) → state_of (bump_generation s who) i ≡ state_of s i
unfolding bump_generation
state-bump_generation s who i = ground arith

generation-bump_generation :
    (s : SparseSet) (who i : ℕ)
    → generation_at (bump_generation s who) i
      ≡ (if i == who then add32 (generation_at s who) 1 else generation_at s i)
unfolding bump_generation
generation-bump_generation s who i = ground arith

bumped_invalid :
    (n : ℕ) (s t : SparseSet) (handle : ℕ)
    → is_valid n s handle ≡ true
    → generation_at t (who_of handle) ≡ add32 (generation_at s (who_of handle)) 1
    → is_valid n t handle ≡ false
unfolding is_valid
bumped_invalid n s t handle ok e = ground arith

-- Push on a handle that is not valid fails and changes nothing.
pub push_refused :
    (n k : ℕ) (s : SparseSet) (handle : ℕ)
    → is_valid n s handle ≡ false
    → push n k s handle ≡ (false, s)
unfolding push
push_refused n k s handle h = rw h

module _ {n k : ℕ} (c : Config n k) {s : SparseSet} (v : Inv n k s) where
  first_idle : s.cursor 0 ≢ s.cursor 1 → (s.dense 0 < n) × (state_of s (s.dense 0) ≡ 0)
  first_idle h = (
    v.dense_lt 0 c.some_slots,
    state_of_segment v (s.dense 0) 0 (v.dense_lt 0 c.some_slots) c.some_states
        (omega (arith, v.first))
        (omega (arith, v.where_dense 0 c.some_slots, v.first, v.mono 0 c.some_states)),
  )

  -- Some index is idle exactly when the first two cursors differ.
  idle_cursors : (i : ℕ) → i < n → state_of s i ≡ 0 → s.cursor 0 ≢ s.cursor 1
  idle_cursors i h e =
      let a : s.cursor 0 ≤ where_of s i = rw e at (v.above i h) in
      let b : where_of s i < s.cursor (0 + 1) = rw e at (v.below i h) in omega arith

  -- While some index is idle and the state exists, Pop returns a valid handle of an index that was idle, and not of
  -- one in the state, as the comment above Pop has it; it takes that index alone to the state, the handle is
  -- valid after, and the invariant holds.
  pub pop-Popped :
      (state i : ℕ) → state < k → i < n → state_of s i ≡ 0 → Popped n k s state (pop n k s state)
  pop-Popped state i h hi e =
      let ne = idle_cursors i hi e in
      let fact = first_idle ne in
      let parts = get_handle_unpacks (s.dense 0) c v fact.0 in
      let valid = get_handle-is_valid (s.dense 0) c v fact.0 in
      let moves = move_to_state-Reaches c (get_handle s (s.dense 0)) state v valid h in
      rw (popped_handle state h ne) (record {
        word = get_handle_word (s.dense 0) c v fact.0;
        fresh = valid;
        was_idle = rw parts.0 fact.1;
        moved = record {
          done = refl;
          inv = moves.inv;
          arrived = moves.arrived;
          others = moves.others;
          generations = moves.generations;
        };
        still_valid =
            is_valid-generations n s _ (get_handle s (s.dense 0)) (moves.generations _) ∙ valid;
      })
    where
      popped_handle :
          (state : ℕ)
          → state < k
          → s.cursor 0 ≢ s.cursor 1
          → pop n k s state
            ≡ (get_handle s (s.dense 0), (move_to_state n k s (get_handle s (s.dense 0)) state).1)
      popped_handle state h ne = unfold pop in ground (arith, v.first)

  pub pop_cases :
      (state : ℕ) → (pop n k s state ≡ (invalid_handle, s)) ⊎ Popped n k s state (pop n k s state)
  pop_cases state = elim (Bool-cases (leb k state || s.cursor 0 == s.cursor 1)) [
    | inl refused ↦ inl (unfold pop in ground arith)
    | inr passed ↦
        let fact = first_idle (λ e. ground arith) in
        inr (pop-Popped state (s.dense 0) (ground arith) fact.0 fact.1)
  ]

  -- Where no index is idle, or the state does not exist, Pop returns kInvalidHandle and changes
  -- nothing.
  pub pop_refused :
      (state : ℕ)
      → ((i : ℕ) → i < n → state_of s i ≢ 0) ⊎ (k ≤ state)
      → pop n k s state ≡ (invalid_handle, s)
  unfolding pop
  pop_refused state (inl none_idle) = elim (Bool-cases (s.cursor 0 == s.cursor 1)) [
    | inl same ↦ ground arith
    | inr differ ↦
        let fact = first_idle (λ e. ground arith) in absurd (none_idle (s.dense 0) fact.0 fact.1)
  ]
  pop_refused state (inr none_such) = ground arith

  -- Push on a valid handle makes its index idle and the handle stale.
  pub push-Pushed :
      (handle : ℕ) → is_valid n s handle ≡ true → Pushed n k s handle (push n k s handle)
  unfolding push
  push-Pushed handle ok =
      let moves = move_to_state-Reaches c handle 0 v ok c.some_states in
      let t = (move_to_state n k s handle 0).1 in
      let who = who_of handle in
      let bumped : generation_at (bump_generation t who) who ≡ add32 (generation_at s who) 1 =
        ground (arith, generation-bump_generation t who who, moves.generations who) in
      rw ok (record {
        done = refl;
        inv = bump_generation-Inv who moves.inv;
        idle = state-bump_generation t who who ∙ moves.arrived;
        bumped = bumped;
        stale = bumped_invalid n s (bump_generation t who) handle ok bumped;
        other_states = λ i ne. state-bump_generation t who i ∙ moves.others i ne;
        other_generations =
            λ i ne. ground (arith, generation-bump_generation t who i, moves.generations i);
      })
