-- ===== src/SharedPoolPtr/Tests.antt =====
-- The pool and its pointers at two slots: runs of the code, and each theorem at concrete pointers.
use server_study.Prelude.{ℕ, ◌+◌, ◌≡◌, ◌≢◌, ◌⊎◌, refl, true, false, [], ◌∷◌, arith, some}
use server_study.SparseSet.{who_of, state_of}
use server_study.SparseSet
use server_study.SparseSet.Invariant.{Config}
use server_study.SparsePool.{
  null_ptr, Pool, Ptr, Options, init, is_valid, add_ref, release_ref, released, acquire,
  move_to_state,
}
use server_study.SparsePool.Counted.{Counted, refs, ptr, init-Counted}
use server_study.SparsePool.Refs.{Settled, release_ref_last, next_handle}
use server_study.SparsePool.Acquire.{acquire-Counted, move_to_state-Counted}
use server_study.SharedPoolPtr.{copy_assign, move_assign, destroy, move}
use server_study.SharedPoolPtr.Ownership.{
  move-Counted, copy_assign-Settled, move_assign-Settled, destroy-Settled,
}

-- Two slots, two states; the deleter writes 0 into the object.
abbrev options : Options ℕ
options = record {
  size = 2;
  state_count = 2;
  is_lazy = false;
  deleter = some (λ _. 0);
  post_release = λ p. p;
}

two-Config : Config 2 2
two-Config = omega arith

abbrev fresh : Pool ℕ
fresh = init options (λ i. i + 5)

fresh-Counted : Counted options fresh []
fresh-Counted = init-Counted options (λ i. i + 5) two-Config

abbrev first : Ptr × Pool ℕ
first = acquire options fresh 1 0

abbrev second : Ptr × Pool ℕ
second = acquire options first.1 1 0

fresh_idle : (state_of fresh.set 0 ≡ 0) × (state_of fresh.set 1 ≡ 0)
unfolding init SparseSet.init
fresh_idle = (refl, refl)

acquire-Counted_example :
    Counted options first.1 (first.0 ∷ [])
    × (first.0.pool ≡ true)
    × (is_valid options first.1 first.0.handle ≡ true)
    × (state_of fresh.set (who_of first.0.handle) ≡ 0)
    × (state_of first.1.set (who_of first.0.handle) ≡ 1)
acquire-Counted_example =
    acquire-Counted two-Config fresh [] 1 0 0 fresh-Counted (omega arith) (omega arith)
      (omega arith) (omega arith) fresh_idle.0

first-Counted : Counted options first.1 (first.0 ∷ [])
first-Counted =
    (acquire-Counted two-Config fresh [] 1 0 0 fresh-Counted (omega arith) (omega arith)
      (omega arith) (omega arith) fresh_idle.0).0

-- Index 0 goes first, then index 1.
handles : (first.0 ≡ ptr 0) × (second.0 ≡ ptr 1) × (state_of first.1.set 1 ≡ 0)
unfolding init acquire SparseSet.init SparseSet.pop SparseSet.move_to_state SparseSet.is_valid
    SparseSet.increment_state SparseSet.decrement_state SparseSet.get_handle add_ref
handles = (refl, refl, refl)

second-Counted : Counted options second.1 (second.0 ∷ first.0 ∷ [])
second-Counted =
    (acquire-Counted two-Config first.1 (first.0 ∷ []) 1 1 0 first-Counted (omega arith)
      (omega arith) (omega arith) (omega arith) handles.2).0

-- Destroying the only pointer runs the deleter and makes the handle stale.
destroyed :
    (((destroy options first.1 first.0).slots 0).obj ≡ 0)
    × (is_valid options (destroy options first.1 first.0) 0 ≡ false)
unfolding destroy release_ref SparseSet.push is_valid init acquire SparseSet.init SparseSet.pop
    SparseSet.move_to_state SparseSet.is_valid SparseSet.increment_state SparseSet.decrement_state
    SparseSet.get_handle add_ref SparseSet.bump_generation released
destroyed = (refl, refl)

first_free : refs (next_handle first.0.handle) [] ≡ 0
first_free = refl

second_free : refs (next_handle second.0.handle) (first.0 ∷ first.0 ∷ []) ≡ 0
second_free = rw (handles.0, handles.1) refl

second_free_once : refs (next_handle second.0.handle) (first.0 ∷ []) ≡ 0
second_free_once = rw (handles.0, handles.1) refl

first_valid : SparseSet.is_valid 2 first.1.set first.0.handle ≡ true
unfolding is_valid
first_valid = acquire-Counted_example.2

move_to_state-Counted_example :
    ((move_to_state options first.1 first.0.handle 1).0 ≡ true)
    × Counted options (move_to_state options first.1 first.0.handle 1).1 (first.0 ∷ [])
    × (state_of (move_to_state options first.1 first.0.handle 1).1.set (who_of first.0.handle) ≡ 1)
unfolding is_valid
move_to_state-Counted_example =
    move_to_state-Counted two-Config first.1 (first.0 ∷ []) first.0.handle 1 first-Counted
      first_valid (omega arith) (omega arith)

release_ref_last_example :
    ((refs 0 [] ≡ 0) × ((release_ref options first.1 0).0 ≡ true))
    ⊎ ((refs 0 [] ≢ 0)
        × ((release_ref options first.1 0).0 ≡ false)
        × ((release_ref options first.1 0).1.set ≡ first.1.set))
release_ref_last_example =
    release_ref_last two-Config 0 (rw (handles.0) at first-Counted) (rw (handles.0) at first_valid)

move-Counted_example : Counted options first.1 ((move first.0).0 ∷ (move first.0).1 ∷ [])
move-Counted_example = move-Counted two-Config first.1 first.0 [] first-Counted (omega arith)

copy_assign-Settled_example :
    ((copy_assign options second.1 false second.0 first.0).0 ≡ first.0)
    × Settled options
        (first.0 ∷ first.0 ∷ [])
        (copy_assign options second.1 false second.0 first.0).1
    × (copy_assign options second.1 true second.0 second.0 ≡ (second.0, second.1))
copy_assign-Settled_example =
    copy_assign-Settled two-Config second.1 second.0 first.0 [] second-Counted (omega arith)
      second_free

move_assign-Settled_example :
    let (new, left, q) = move_assign options second.1 false second.0 first.0 in
    (new ≡ first.0)
    × (left ≡ null_ptr)
    × Settled options (first.0 ∷ null_ptr ∷ []) q
    × (move_assign options second.1 true second.0 second.0 ≡ (second.0, second.0, second.1))
move_assign-Settled_example =
    move_assign-Settled two-Config second.1 second.0 first.0 [] second-Counted second_free_once

destroy-Settled_example : Settled options [] (destroy options first.1 first.0)
destroy-Settled_example = destroy-Settled two-Config first.1 first.0 [] first-Counted first_free
