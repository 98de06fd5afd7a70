-- ===== src/SessionState/Transitions.antt =====
-- Which transitions Connect and Disconnect make.
use server_study.Prelude.{
  ℕ, ◌<◌, ◌≡◌, ◌≢◌, refl, ◌⊎◌, inl, inr, Bool, true, false, ◌||◌, none, some, ◌==◌, arith,
  Bool-cases, ℕ_discrete, ≢→==, ==_iff, sym, ◌∙◌,
}
use server_study.SparseSet.{SparseSet, state_of, who_of, is_valid}
use server_study.SparseSet.Invariant.{Config, Inv}
use server_study.SparseSet.Move.{Reaches, move_to_state-Reaches}
use server_study.SparseSet.Listing.{get_state_lem}
use server_study.SessionState.{
  pool_size, pending, connected, disconnecting, state_count, get_state, set_state, connect_session,
  begin_connect, begin_disconnect,
}

-- Whether a handle is that of a session in the state.
abbrev pub InState : SparseSet → ℕ → ℕ → Type 0
InState s handle j = (is_valid pool_size s handle ≡ true) × (state_of s (who_of handle) ≡ j)

config : Config pool_size state_count
config = omega arith

-- The answer of GetState tells that a handle is in the state.
get_state-InState :
    (s : SparseSet) (handle j : ℕ)
    → Inv pool_size state_count s
    → j < state_count
    → get_state s handle ≡ j
    → InState s handle j
unfolding get_state
get_state-InState s handle j v h e = elim (get_state_lem config v handle) [
  | inl (ok, same, lt) ↦ (ok, omega (arith, same, lt, e))
  | inr (bad, same) ↦ absurd (omega (arith, same, e))
]

-- And the other way round.
pub InState-get_state :
    (s : SparseSet) (handle j : ℕ)
    → Inv pool_size state_count s
    → InState s handle j
    → (get_state s handle ≡ j) × (j < state_count)
unfolding get_state
InState-get_state s handle j v here = elim (get_state_lem config v handle) [
  | inl (ok, same, lt) ↦ (omega (arith, same, lt, here.1), omega (arith, same, lt, here.1))
  | inr (bad, same) ↦ absurd (let f : true ≡ false = sym here.0 ∙ bad in ground (arith, f))
]

-- A call that moves a session which is not yet disconnecting, or changes nothing.
pub record Moves (s : SparseSet) (handle j : ℕ) (s' : SparseSet) : Type 0 where
  pub old : ℕ
  pub here : InState s handle old
  pub early : old < disconnecting
  pub reaches : Reaches pool_size state_count s (who_of handle) j (true, s')

moved_Reaches :
    {s s' : SparseSet} {who j : ℕ} {done : Bool}
    → Reaches pool_size state_count s who j (done, s')
    → Reaches pool_size state_count s who j (true, s')
moved_Reaches r = record {
  done = refl;
  inv = r.inv;
  arrived = r.arrived;
  others = r.others;
  generations = r.generations;
}

-- Connect goes on, and the session is connected, exactly if it was pending; otherwise it changes
-- nothing.
pub begin_connect_lem :
    (s : SparseSet) (handle : ℕ)
    → Inv pool_size state_count s
    → (((begin_connect s handle).0 ≡ true)
        × (get_state s handle ≡ pending)
        × Moves s handle connected (begin_connect s handle).1)
      ⊎ ((get_state s handle ≢ pending) × (begin_connect s handle ≡ (false, s)))
unfolding begin_connect connect_session
begin_connect_lem s handle v = elim (ℕ_discrete (get_state s handle) pending) [
  | yes same ↦
      let here = get_state-InState s handle pending v (omega arith) same in
      let r = move_to_state-Reaches config handle connected v here.0 (omega arith) in
      let e = (==_iff _ _).1 same in
      inl (
        rw e r.done,
        same,
        rw e
            (record { old = pending; here = here; early = omega arith; reaches = moved_Reaches r }),
      )
  | no differ ↦ inr (differ, rw (≢→== _ _ differ))
]

-- Disconnect goes on to DisconnectEx, and the session is disconnecting, exactly if it was pending or
-- connected. Otherwise it changes nothing, and answers whether it was disconnecting already.
pub begin_disconnect_lem :
    (s : SparseSet) (handle : ℕ)
    → Inv pool_size state_count s
    → (((begin_disconnect s handle).0 ≡ none)
        × ((get_state s handle ≡ pending) ⊎ (get_state s handle ≡ connected))
        × Moves s handle disconnecting (begin_disconnect s handle).1)
      ⊎ ((get_state s handle ≢ pending)
          × (get_state s handle ≢ connected)
          × (begin_disconnect s handle ≡ (some (get_state s handle == disconnecting), s)))
unfolding begin_disconnect set_state
begin_disconnect_lem s handle v =
    elim (Bool-cases ((get_state s handle == pending) || (get_state s handle == connected))) [
      | inl early ↦
          let which : (get_state s handle ≡ pending) ⊎ (get_state s handle ≡ connected) =
            ground arith in
          let here : (i : ℕ) × (InState s handle i) × (i < disconnecting) = elim which [
            | inl e ↦ (pending, get_state-InState s handle pending v (omega arith) e, omega arith)
            | inr e ↦
                (connected, get_state-InState s handle connected v (omega arith) e, omega arith)
          ] in
          let r = move_to_state-Reaches config handle disconnecting v here.1.0 (omega arith) in
          inl (
            rw (early, r.done),
            which,
            rw (early, r.done)
                (record { old = here.0; here = here.1; early = here.2; reaches = moved_Reaches r }),
          )
      | inr late ↦ inr (
        ground arith,
        ground arith,
        elim (Bool-cases (get_state s handle == disconnecting)) [
          | inl e ↦ rw (late, e)
          | inr e ↦ rw (late, e)
        ],
      )
    ]
