-- ===== src/Connection/Tests.antt =====
-- The first session, pending, in a system in which every call succeeds: a pointer that is released is the last to
-- the second session, which goes back to the pool, and counting an accept down takes an idle session for the next.
use server_study.Prelude.{
  ℕ, ◌+◌, ◌≡◌, ◌≢◌, refl, ap, ◌∙◌, inl, inr, Bool-cases, true, false, Bool, none, ◌++◌, ◌&&◌,
  if◌then◌else◌, length, take, window, memory, to_bytes, arith,
}
use server_study.Session.{IoType, OverlappedEx, header_size}
use server_study.SparseSet.{SparseSet, who_of, state_of, is_valid, pop, push}
use server_study.SparseSet.Invariant.{Config}
use server_study.SparseSet.Calls.{pop_cases, push-Pushed, is_valid-generations}
use server_study.SessionState.{pool_size, state_count, pending, connected, disconnecting}
use server_study.SessionState.Tests.{set, set-Inv, set-InState}
use server_study.Connection.{
  Connection, System, print_handle, welcome_packet, is_disconnect, copy_ptr, reset_ptr, accepted,
  attempt, worker_round,
}
use server_study.Connection.Alive.{Alive, Keeps, IsSteady}
use server_study.Connection.Rounds.{worker_round-Alive}
use server_study.Connection.Welcome.{read_handle, welcome_packet_lem}

abbrev sys : System ℕ Bool
sys = record {
  env = record {
    hold = λ w handle ptr. (true, w);
    reset = λ w ptr. (false, w);
    wsa_recv = λ w pos len. (none, w);
    wsa_send = λ w b pos len. (none, w + len);
    execute = λ w b p. (true, w);
  };
  disconnect_ex = λ w. (1, w);
  accept_ex = λ w. (1, w);
  last_error = λ w. 0;
  set_sock_opt = λ w. (true, w);
  copy = λ w ptr. (ptr, w);
  release = λ set w ptr. (false, (push pool_size state_count set 1).1, w);
  disconnect_session = λ set w handle. (set, w);
  decrement_pending_accepts = λ set w. ((pop pool_size state_count set pending).1, w);
}

sessions-Config : Config pool_size state_count
sessions-Config = omega arith

taken-Keeps : (set : SparseSet) → Keeps 0 set (pop pool_size state_count set pending).1
taken-Keeps set = record {
  inv = λ v. elim (pop_cases sessions-Config v pending) [
    | inl nothing ↦ rw (ap (λ (r : ℕ × SparseSet). r.1) nothing) v
    | inr popped ↦ popped.moved.inv
  ];
  there = λ j v lt here. elim (pop_cases sessions-Config v pending) [
    | inl nothing ↦ rw (ap (λ (r : ℕ × SparseSet). r.1) nothing) here
    | inr popped ↦
        let taken = who_of (pop pool_size state_count set pending).0 in
        let apart : who_of 0 ≢ taken =
          λ e. let f = ap (state_of set) e in omega (arith, f, here.1, popped.was_idle, lt) in
        (
          is_valid-generations pool_size set (pop pool_size state_count set pending).1 0
                (popped.moved.generations (who_of 0))
              ∙ here.0,
          popped.moved.others (who_of 0) apart ∙ here.1,
        )
  ];
}

push_refused :
    (set : SparseSet)
    → is_valid pool_size set 1 ≡ false
    → push pool_size state_count set 1 ≡ (false, set)
unfolding push
push_refused set bad = ground (arith, bad)

given_back-Keeps : (set : SparseSet) → Keeps 0 set (push pool_size state_count set 1).1
given_back-Keeps set = record {
  inv = λ v. elim (Bool-cases (is_valid pool_size set 1)) [
    | inl ok ↦ (push-Pushed sessions-Config v 1 ok).inv
    | inr bad ↦ rw (push_refused set bad) v
  ];
  there = λ j v lt here. elim (Bool-cases (is_valid pool_size set 1)) [
    | inl ok ↦
        let p = push-Pushed sessions-Config v 1 ok in
        let apart : who_of 0 ≢ who_of 1 = omega arith in
        (
          is_valid-generations pool_size set (push pool_size state_count set 1).1 0
                (p.other_generations (who_of 0) apart)
              ∙ here.0,
          p.other_states (who_of 0) apart ∙ here.1,
        )
    | inr bad ↦ rw (push_refused set bad) here
  ];
}

sys-IsSteady : IsSteady sys 0
sys-IsSteady = record {
  released = λ set w ptr. given_back-Keeps set;
  counted_down = λ set w. taken-Keeps set;
}

abbrev ov : OverlappedEx Bool
ov = record {
  io_type = IoType.accept;
  wsa_buf = 0;
  wsa_len = 65536;
  buffer = λ i. 0;
  session_ptr = true;
  read_pos = 0;
  write_pos = 0;
}

abbrev c : Connection ℕ Bool
c = record {
  sessions = set;
  session = record { handle = 0; read_ov = ov; write_ov = ov; is_sending = false };
  disconnect_ov = ov;
  world = 0;
}

c-Alive : Alive c 0 pending
c-Alive = record { inv = set-Inv; named = refl; used = omega arith; there = set-InState }

worker_round-Alive_example :
    let c1 = accepted sys (copy_ptr sys c IoType.accept).1 IoType.accept in
    let c2 = reset_ptr sys (copy_ptr sys c1 IoType.accept).1 IoType.accept in
    Alive
      (worker_round sys c true IoType.accept 0)
      0
      (if true && (attempt sys c2 IoType.accept 0).0 then connected else disconnecting)
unfolding is_disconnect
worker_round-Alive_example = worker_round-Alive sys-IsSteady c true IoType.accept 0 refl c-Alive

welcome_packet_lem_example :
    let message = print_handle 4294967297 in
    let bytes = memory (welcome_packet 4294967297) in
    (read_handle message ≡ 4294967297)
    × (window bytes 65536 0 (header_size bytes 0)
        ≡ to_bytes 2 (5 + length message)
          ++ to_bytes 2 2
          ++ take (1 + length message) (to_bytes 8 0 ++ message))
welcome_packet_lem_example = welcome_packet_lem 4294967297 (omega arith)
