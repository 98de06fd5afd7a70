-- ===== src/SessionState/Tests.antt =====
-- The first session of the pool, pending, and the theorems at it.
use server_study.Prelude.{◌≤◌, ◌≡◌, refl, true, List, [], ◌∷◌, arith}
use server_study.SparseSet.{
  SparseSet, state_of, who_of, is_valid, init, move_to_state, climb, descend, increment_state,
  decrement_state,
}
use server_study.SparseSet.Invariant.{Config, Inv, init-Inv}
use server_study.SparseSet.Move.{Reaches, move_to_state-Reaches}
use server_study.SessionState.{
  pool_size, pending, state_count, get_state, set_state, begin_connect, begin_disconnect,
}
use server_study.SessionState.Transitions.{InState}
use server_study.SessionState.Once.{Call, connects, disconnects, posts, posts_once}

abbrev pub set : SparseSet
set = (move_to_state pool_size state_count (init pool_size) 0 pending).1

sessions-Config : Config pool_size state_count
sessions-Config = omega arith

first_valid : is_valid pool_size (init pool_size) 0 ≡ true
unfolding init is_valid
first_valid = refl

first-Reaches :
    Reaches pool_size state_count
      (init pool_size)
      (who_of 0)
      pending
      (move_to_state pool_size state_count (init pool_size) 0 pending)
first-Reaches =
    move_to_state-Reaches sessions-Config 0 pending (init-Inv sessions-Config) first_valid
      (omega arith)

pub set-Inv : Inv pool_size state_count set
set-Inv = first-Reaches.inv

set_valid : is_valid pool_size set 0 ≡ true
unfolding init is_valid move_to_state increment_state decrement_state
set_valid = refl

pub set-InState : InState set 0 pending
set-InState = (set_valid, first-Reaches.arrived)

abbrev calls : List Call
calls = disconnects 0 ∷ connects 0 ∷ disconnects 0 ∷ []

one_post : posts set 0 calls ≡ 1
unfolding posts begin_connect begin_disconnect set_state get_state init is_valid move_to_state
    increment_state decrement_state server_study.SparseSet.get_state
one_post = refl

posts_once_example : posts set 0 calls ≤ 1
posts_once_example = posts_once set 0 calls set-Inv set_valid
