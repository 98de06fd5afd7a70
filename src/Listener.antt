-- ===== src/Listener.antt =====
-- Network/Server/Listener.cpp: the count of pending accepts. PostAccept and DecrementPendingAccepts as
-- one thread runs them, and their steps in any number of threads, between the accesses to the count.
pub mod Posting
pub mod Count
pub mod Full
mod Tests
use server_study.Prelude.{
  ℕ, zero, suc, ◌+◌, ◌-◌, ◌<◌, Bool, true, false, Option, none, some, Array, update, add64, sub64,
  ◌==◌, if◌then◌else◌, ltb, leb,
}

-- kAcceptCount
abbrev pub accept_count : ℕ
accept_count = 1000

-- What PostAccept calls. `create_session` answers with a pointer if it is valid; `register_accept`
-- whether the accept is posted.
pub record Calls (W P : Type 0) : Type 0 where
  pub create_session : W → Option P × W
  pub register_accept : W → P → Bool × W
  pub set_listener : W → P → W
  pub disconnect : W → P → W

module _ {W P : Type 0} (calls : Calls W P) where
  -- After the count has gone up: none is for the loop to go on.
  unfoldable pub post_one : ℕ → W → Option Bool × ℕ × W
  post_one pending w =
      let (created, w1) = calls.create_session w in
      elim created [
        | none ↦ (some false, sub64 pending 1, w1)
        | some ptr ↦
            let (posted, w2) = calls.register_accept w1 ptr in
            if posted
            then (none, pending, calls.set_listener w2 ptr)
            else (some false, sub64 pending 1, calls.disconnect w2 ptr)
      ]

  -- The loop of PostAccept in a thread that no other one disturbs, so that the exchange succeeds.
  unfoldable pub post_accept : ℕ → ℕ → W → Option (Bool × ℕ × W)
  post_accept zero pending w = none
  post_accept (suc rounds) pending w =
      let (answer, pending', w') = post_one (add64 pending 1) w in
      let rest = post_accept rounds pending' w' in
      if leb accept_count pending
      then some (true, pending, w)
      else elim answer [ some b ↦ some (b, pending', w') | none ↦ rest ]

  unfoldable pub decrement_pending_accepts : ℕ → ℕ → W → Option (Bool × ℕ × W)
  decrement_pending_accepts rounds pending w = post_accept rounds (sub64 pending 1) w

-- Where a thread is: outside the listener, before it loads the count, before it exchanges the count
-- that it has loaded, before it creates a session, before it posts the accept, and, with a completed
-- accept in its hands, before it counts down.
pub data Pc : Type 0 where
  idle : Pc
  loading : Pc
  comparing : ℕ → Pc
  creating : Pc
  registering : Pc
  completed : Pc

-- The count, the threads, and how many accepts RegisterAccept answered true for that have not been taken from the
-- completion port: those count as posted, although RegisterAccept answers true also where AcceptEx failed, since it
-- compares a BOOL with SOCKET_ERROR.
pub record Machine : Type 0 where
  pub pending_accepts : ℕ
  pub posted : ℕ
  pub at : Array Pc

-- The next step of a thread. `good` says whether a session can be created, or what
-- RegisterAccept answers; a thread
-- that is idle calls PostAccept if it is true, and takes a completion, if there is one, if it is not.
unfoldable pub step_at : Machine → ℕ → Bool → Pc → Machine
step_at m t true idle = record m { at = update m.at t loading }
step_at m t false idle =
    if ltb 0 m.posted then record m { posted = m.posted - 1; at = update m.at t completed } else m
step_at m t good loading =
    let next = if leb accept_count m.pending_accepts then idle else comparing m.pending_accepts in
    record m { at = update m.at t next }
step_at m t good (comparing current) =
    if m.pending_accepts == current
    then record m { pending_accepts = add64 current 1; at = update m.at t creating }
    else record m { at = update m.at t loading }
step_at m t good creating =
    if good
    then record m { at = update m.at t registering }
    else record m { pending_accepts = sub64 m.pending_accepts 1; at = update m.at t idle }
step_at m t good registering =
    if good
    then record m { posted = m.posted + 1; at = update m.at t loading }
    else record m { pending_accepts = sub64 m.pending_accepts 1; at = update m.at t idle }
step_at m t good completed = record m {
  pending_accepts = sub64 m.pending_accepts 1;
  at = update m.at t loading;
}

unfoldable pub step : Machine → ℕ → Bool → Machine
step m t good = step_at m t good (m.at t)

-- The first thread calls PostAccept; the others are idle.
abbrev pub initial : Machine
initial = record { pending_accepts = 0; posted = 0; at = update (λ t. idle) 0 loading }
