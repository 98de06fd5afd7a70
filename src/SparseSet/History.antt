-- ===== src/SparseSet/History.antt =====
-- Any sequence of calls on a set: the invariant, and how long a returned handle stays stale.
use server_study.Prelude.{
  ℕ, ◌+◌, ◌-◌, ◌%◌, ◌^◌, ◌≤◌, ◌<◌, ◌≡◌, refl, arith, true, false, inl, inr, ◌⊎◌, ap, ◌∙◌, List, [],
  ◌∷◌, length, Bool-cases, add32, compare_cases, leb,
}
use server_study.SparseSet.{
  SparseSet, who_of, generation_of, generation_at, is_valid, pop, push, move_to_state, init,
}
use server_study.SparseSet.Invariant.{Config, Inv, init-Inv}
use server_study.SparseSet.Handles.{valid_generation}
use server_study.SparseSet.Move.{Reaches, move_to_state-Reaches}
use server_study.SparseSet.Calls.{pop_cases, push-Pushed, push_refused, move_to_state_refused}

-- The calls that change a set.
pub data Call : Type 0 where
  pops pushes : ℕ → Call
  moves : ℕ → ℕ → Call

module _ (n k : ℕ) where
  unfoldable pub step : SparseSet → Call → SparseSet
  step s (pops state) = (pop n k s state).1
  step s (pushes handle) = (push n k s handle).1
  step s (moves handle new_state) = (move_to_state n k s handle new_state).1

  unfoldable pub run : SparseSet → List Call → SparseSet
  unfolding step
  run s [] = s
  run s (call ∷ calls) = run (step s call) calls

-- What one call does to the generations: at most one index goes up by one.
record Steps (n k : ℕ) (s t : SparseSet) : Type 0 where
  inv : Inv n k t
  ages :
      (i : ℕ)
      → (generation_at t i ≡ generation_at s i) ⊎ (generation_at t i ≡ add32 (generation_at s i) 1)

module _ {n k : ℕ} (c : Config n k) where
  same-Steps : {s t : SparseSet} → Inv n k s → t ≡ s → Steps n k s t
  same-Steps v e = rw e (record { inv = v; ages = λ i. inl refl })

  Reaches-Steps : {s : SparseSet} {who j : ℕ} {r : _} → Reaches n k s who j r → Steps n k s r.1
  Reaches-Steps moved = record { inv = moved.inv; ages = λ i. inl (moved.generations i) }

  step-Steps : (s : SparseSet) (call : Call) → Inv n k s → Steps n k s (step n k s call)
  unfolding step
  step-Steps s (pops state) v = elim (pop_cases c v state) [
    | inl refused ↦ same-Steps v (ap (λ (r : ℕ × SparseSet). r.1) refused)
    | inr popped ↦ Reaches-Steps popped.moved
  ]
  step-Steps s (pushes handle) v = elim (Bool-cases (is_valid n s handle)) [
    | inl ok ↦
        let pushed = push-Pushed c v handle ok in
        record {
          inv = pushed.inv;
          ages = λ i. elim (compare_cases i (who_of handle)) [
            | inl less ↦ inl (pushed.other_generations i (omega arith))
            | inr (inl same) ↦ inr (rw same pushed.bumped)
            | inr (inr more) ↦ inl (pushed.other_generations i (omega arith))
          ];
        }
    | inr bad ↦ same-Steps v (ap (λ (r : _ × SparseSet). r.1) (push_refused n k s handle bad))
  ]
  step-Steps s (moves handle new_state) v = elim (Bool-cases (is_valid n s handle)) [
    | inl ok ↦ elim (Bool-cases (leb k new_state)) [
      | inl none_such ↦ same-Steps v (
          ap (λ (r : _ × SparseSet). r.1)
            (move_to_state_refused n k s handle new_state (inl (ground arith))))
      | inr exists ↦ Reaches-Steps (move_to_state-Reaches c handle new_state v ok (ground arith))
    ]
    | inr bad ↦
        same-Steps v
          (ap (λ (r : _ × SparseSet). r.1) (move_to_state_refused n k s handle new_state (inr bad)))
  ]

  run-Inv : (s : SparseSet) (calls : List Call) → Inv n k s → Inv n k (run n k s calls)
  unfolding run
  run-Inv s [] v = v
  run-Inv s (call ∷ calls) v = run-Inv (step n k s call) calls (step-Steps s call v).inv

  -- From the constructor on, every sequence of Pop, Push and MoveToState calls keeps the invariant.
  pub run-init-Inv : (calls : List Call) → Inv n k (run n k (init n) calls)
  run-init-Inv calls = run-Inv (init n) calls (init-Inv c)

  -- `d` generations past `g`, counted in 32 bits
  aged :
      (s : SparseSet) (calls : List Call) (i g d : ℕ)
      → Inv n k s
      → generation_at s i ≡ (g + d) % 2 ^ 32
      → (m : ℕ) × (m ≤ length calls) × (generation_at (run n k s calls) i ≡ (g + d + m) % 2 ^ 32)
  unfolding run
  aged s [] i g d v e = (0, omega arith, omega arith)
  aged s (call ∷ calls) i g d v e = elim ((step-Steps s call v).ages i) [
    | inl kept ↦
        let (m, le, at_end) =
          aged (step n k s call) calls i g d (step-Steps s call v).inv (kept ∙ e) in
        (m, omega arith, at_end)
    | inr older ↦
        let (m, le, at_end) =
          aged (step n k s call) calls i g (d + 1) (step-Steps s call v).inv (omega arith) in
        (m + 1, omega arith, omega arith)
  ]

  not_valid :
      (s : SparseSet) (handle m : ℕ)
      → generation_at s (who_of handle) ≡ (generation_of handle + 1 + m) % 2 ^ 32
      → m + 1 < 2 ^ 32
      → is_valid n s handle ≡ false
  unfolding is_valid
  not_valid s handle m e h = ground arith

  -- A handle given back by Push stays invalid through any further calls, as long as they are fewer
  -- than 2 ^ 32 - 1.
  pub run_stale :
      (s : SparseSet) (handle : ℕ) (calls : List Call)
      → Inv n k s
      → is_valid n s handle ≡ true
      → length calls < 2 ^ 32 - 1
      → is_valid n (run n k (push n k s handle).1 calls) handle ≡ false
  run_stale s handle calls v ok few =
      let pushed = push-Pushed c v handle ok in
      let start : generation_at (push n k s handle).1 (who_of handle)
          ≡ (generation_of handle + 1) % 2 ^ 32 =
        omega (arith, pushed.bumped, valid_generation n s handle ok) in
      let (m, le, e) =
        aged (push n k s handle).1 calls (who_of handle) (generation_of handle) 1 pushed.inv
          start in
      not_valid _ handle m e (omega arith)
