-- ===== src/SparseSet/Tests.antt =====
-- SparseSet at small sizes: the unit test's run, and each theorem at a concrete set.
use server_study.Prelude.{
  zero, suc, ◌≢◌, ℕ, ◌<◌, ◌≡◌, ◌↔◌, refl, true, false, inl, [], ◌∷◌, In, arith,
}
use server_study.SparseSet.{
  SparseSet, state_of, get_handle, init, is_valid, increment_state, decrement_state, move_to_state,
  pop, push, bump_generation, get_indices_in_state,
}
use server_study.SparseSet.Invariant.{Config, Inv, init-Inv}
use server_study.SparseSet.Move.{Reaches, move_to_state-Reaches}
use server_study.SparseSet.Calls.{Popped, Pushed, pop-Popped, push-Pushed, move_to_state_refused}
use server_study.SparseSet.Listing.{get_indices_in_state_lem}
use server_study.SparseSet.History.{pops, pushes, moves, run, run-init-Inv, run_stale}

-- The set of Tests/Unit/SparseSet.cpp: ten handles in three states.
abbrev set : SparseSet
set = init 10

abbrev two_popped : SparseSet
two_popped = run 10 3 set (pops 1 ∷ pops 2 ∷ [])

ten-Config : Config 10 3
ten-Config = omega arith

set-Inv : Inv 10 3 set
set-Inv = init-Inv ten-Config

popped_in_order :
    ((pop 10 3 set 1).0 ≡ 0)
    × (get_indices_in_state 3 two_popped 1 ≡ 0 ∷ [])
    × (get_indices_in_state 3 two_popped 2 ≡ 9 ∷ [])
unfolding init run pop move_to_state is_valid increment_state decrement_state get_indices_in_state
popped_in_order = (refl, refl, refl)

-- "Transition" and "Release & Reuse" of the unit test.
released :
    (get_indices_in_state 3 (run 10 3 two_popped (moves 0 2 ∷ [])) 1 ≡ [])
    × (is_valid 10 (run 10 3 two_popped (moves 0 2 ∷ pushes 0 ∷ [])) 0 ≡ false)
    × ((pop 10 3 (run 10 3 two_popped (moves 0 2 ∷ pushes 0 ∷ [])) 2).0 ≡ 8)
unfolding init run pop push bump_generation move_to_state is_valid increment_state decrement_state
    get_handle get_indices_in_state
released = (refl, refl, refl)

set_valid : is_valid 10 set 4 ≡ true
unfolding init is_valid
set_valid = refl

move_to_state-Reaches_example : Reaches 10 3 set 4 2 (move_to_state 10 3 set 4 2)
move_to_state-Reaches_example = move_to_state-Reaches ten-Config 4 2 set-Inv set_valid (omega arith)

move_to_state_refused_example : move_to_state 10 3 set 4 3 ≡ (false, set)
move_to_state_refused_example = move_to_state_refused 10 3 set 4 3 (inl (omega arith))

pop-Popped_example : Popped 10 3 set 2 (pop 10 3 set 2)
unfolding init
pop-Popped_example = pop-Popped ten-Config set-Inv 2 7 (omega arith) (omega arith) refl

-- One slot, taken by the first Pop.
abbrev full : SparseSet
full = (pop 1 2 (init 1) 1).1

one-Config : Config 1 2
one-Config = omega arith

full-Inv : Inv 1 2 full
unfolding init
full-Inv =
    (pop-Popped one-Config (init-Inv one-Config) 1 0 (omega arith) (omega arith) refl).moved.inv

full_taken : (i : ℕ) → i < 1 → state_of full i ≢ 0
unfolding init pop move_to_state is_valid increment_state decrement_state get_handle
    get_indices_in_state
full_taken zero h = λ e. omega arith
full_taken (suc i) h = absurd (omega arith)

push-Pushed_example : Pushed 10 3 set 4 (push 10 3 set 4)
push-Pushed_example = push-Pushed ten-Config set-Inv 4 set_valid

get_indices_in_state_lem_example :
    In 4 (get_indices_in_state 3 set 0) ↔ ((is_valid 10 set 4 ≡ true) × (state_of set 4 ≡ 0))
get_indices_in_state_lem_example =
    get_indices_in_state_lem ten-Config set-Inv 0 (omega arith) 4 (omega arith)

run-init-Inv_example : Inv 10 3 (run 10 3 (init 10) (pops 1 ∷ moves 0 2 ∷ pushes 0 ∷ []))
run-init-Inv_example = run-init-Inv ten-Config (pops 1 ∷ moves 0 2 ∷ pushes 0 ∷ [])

run_stale_example : is_valid 10 (run 10 3 (push 10 3 set 4).1 (pops 1 ∷ pushes 4 ∷ [])) 4 ≡ false
run_stale_example =
    run_stale ten-Config set 4 (pops 1 ∷ pushes 4 ∷ []) set-Inv set_valid (omega arith)
