-- ===== src/SessionState/Once.antt =====
-- A session is disconnected once, however many threads ask for it.
use server_study.Prelude.{
  ℕ, ◌+◌, ◌≤◌, ◌≡◌, refl, ap, sym, ◌∙◌, subst, inl, inr, Bool, true, false, ◌&&◌, Option, none,
  some, List, [], ◌∷◌, ◌==◌, if◌then◌else◌, arith, Bool-cases, ℕ_discrete,
}
use server_study.SparseSet.{SparseSet, state_of, generation_at, who_of, is_valid}
use server_study.SparseSet.Invariant.{Inv}
use server_study.SessionState.{
  pool_size, connected, disconnecting, state_count, begin_connect, begin_disconnect,
}
use server_study.SessionState.Transitions.{InState, Moves, begin_connect_lem, begin_disconnect_lem}

-- Calls of Connect and Disconnect, with the handle of the session.
pub data Call : Type 0 where
  connects : ℕ → Call
  disconnects : ℕ → Call

abbrev pub is_none : Option Bool → Bool
is_none none = true
is_none (some b) = false

-- How often a Disconnect of the handle goes on to DisconnectEx.
unfoldable pub posts : SparseSet → ℕ → List Call → ℕ
posts s handle [] = 0
posts s handle (connects h ∷ calls) = posts (begin_connect s h).1 handle calls
posts s handle (disconnects h ∷ calls) =
    let (answer, s') = begin_disconnect s h in
    let rest = posts s' handle calls in if (h == handle) && is_none answer then rest + 1 else rest

-- A session that is in some state, and disconnecting if it was so before.
record Later (handle j : ℕ) (s' : SparseSet) : Type 0 where
  inv : Inv pool_size state_count s'
  new : ℕ
  there : InState s' handle new
  stays : j ≡ disconnecting → new ≡ disconnecting

pub valid_kept :
    (s s' : SparseSet) (handle : ℕ)
    → generation_at s' (who_of handle) ≡ generation_at s (who_of handle)
    → is_valid pool_size s handle ≡ true
    → is_valid pool_size s' handle ≡ true
unfolding is_valid
valid_kept s s' handle e h = rw e h

Moves-Later :
    (s s' : SparseSet) (handle j h t : ℕ) → InState s handle j → Moves s h t s' → Later handle j s'
Moves-Later s s' handle j h t here m =
    let valid = valid_kept s s' handle (m.reaches.generations (who_of handle)) here.0 in
    elim (ℕ_discrete (who_of handle) (who_of h)) [
      | yes same ↦ record {
        inv = m.reaches.inv;
        new = t;
        there = (valid, ap (state_of s') same ∙ m.reaches.arrived);
        stays = λ e. absurd (omega (arith, m.early, m.here.1, here.1, ap (state_of s) same, e));
      }
      | no differ ↦ record {
        inv = m.reaches.inv;
        new = j;
        there = (valid, m.reaches.others (who_of handle) differ ∙ here.1);
        stays = λ e. e;
      }
    ]

same-Later :
    (s s' : SparseSet) (handle j : ℕ)
    → Inv pool_size state_count s
    → InState s handle j
    → s' ≡ s
    → Later handle j s'
same-Later s s' handle j v here e =
    subst (Later handle j) (sym e) (record { inv = v; new = j; there = here; stays = λ x. x })

connect-Later :
    (s : SparseSet) (handle j h : ℕ)
    → Inv pool_size state_count s
    → InState s handle j
    → Later handle j (begin_connect s h).1
connect-Later s handle j h v here = elim (begin_connect_lem s h v) [
  | inl (go, was, m) ↦ Moves-Later s _ handle j h connected here m
  | inr (was, e) ↦ same-Later s _ handle j v here (ap (λ (r : Bool × SparseSet). r.1) e)
]

disconnect-Later :
    (s : SparseSet) (handle j h : ℕ)
    → Inv pool_size state_count s
    → InState s handle j
    → Later handle j (begin_disconnect s h).1
disconnect-Later s handle j h v here = elim (begin_disconnect_lem s h v) [
  | inl (go, was, m) ↦ Moves-Later s _ handle j h disconnecting here m
  | inr (not_pending, not_connected, e) ↦
      same-Later s _ handle j v here (ap (λ (r : Option Bool × SparseSet). r.1) e)
]

-- Once the session is disconnecting no Disconnect of it goes on, and before that one at most.
posts_bound :
    (s : SparseSet) (handle j : ℕ) (calls : List Call)
    → Inv pool_size state_count s
    → InState s handle j
    → (posts s handle calls ≤ 1) × ((j ≡ disconnecting) → posts s handle calls ≡ 0)
unfolding posts
posts_bound s handle j [] v here = (omega arith, λ e. refl)
posts_bound s handle j (connects h ∷ calls) v here =
    let l = connect-Later s handle j h v here in
    let rest = posts_bound (begin_connect s h).1 handle l.new calls l.inv l.there in
    (rest.0, λ e. rest.1 (l.stays e))
posts_bound s handle j (disconnects h ∷ calls) v here =
    let l = disconnect-Later s handle j h v here in
    let s' = (begin_disconnect s h).1 in
    let rest = posts_bound s' handle l.new calls l.inv l.there in
    elim (Bool-cases ((h == handle) && is_none (begin_disconnect s h).0)) [
      | inr other ↦ rw other (rest.0, λ e. rest.1 (l.stays e))
      | inl counted ↦ elim (begin_disconnect_lem s h v) [
        | inl (go, was, m) ↦
            let same : h ≡ handle = ground (arith, counted) in
            let who_same : who_of h ≡ who_of handle = ap (λ x. who_of x) same in
            let new : l.new ≡ disconnecting =
              sym l.there.1 ∙ (ap (state_of s') (sym who_same) ∙ m.reaches.arrived) in
            rw counted (
              omega (arith, rest.1 new),
              λ e. absurd (omega (arith, e, m.early, m.here.1, here.1, ap (state_of s) who_same)),
            )
        | inr (not_pending, not_connected, e) ↦
            let c = rw (ap (λ (r : Option Bool × SparseSet). r.0) e) at counted in ground (arith, c)
      ]
    ]

-- From a set of the invariant, through any sequence of Connect and Disconnect calls on any handles, at
-- most one Disconnect of a session goes on to DisconnectEx.
pub posts_once :
    (s : SparseSet) (handle : ℕ) (calls : List Call)
    → Inv pool_size state_count s
    → is_valid pool_size s handle ≡ true
    → posts s handle calls ≤ 1
posts_once s handle calls v ok =
    (posts_bound s handle (state_of s (who_of handle)) calls v (ok, refl)).0
