-- ===== src/Listener/Tests.antt =====
-- Two threads that post accepts, with a session for each.
use server_study.Prelude.{
  total, ℕ, ◌+◌, ◌<◌, ◌≡◌, ◌⊎◌, refl, Bool, true, false, some, if◌then◌else◌, arith,
}
use server_study.Listener.{
  accept_count, Calls, Pc, Machine, step_at, step, initial, post_accept, post_one,
}
use server_study.Listener.Posting.{Counts, post_accept_lem}
use server_study.Listener.Count.{Reachable, Counted, Reachable-Counted}
use server_study.Listener.Full.{Smooth, busy, fails, Smooth_full}

-- The world is the number of accepts posted.
abbrev calls : Calls ℕ ℕ
calls = record {
  create_session = λ w. (some w, w);
  register_accept = λ w ptr. (true, w + 1);
  set_listener = λ w ptr. w;
  disconnect = λ w ptr. w;
}

calls-Counts : Counts calls (λ w. w)
calls-Counts = record {
  created = λ w. refl;
  registered = λ w ptr. refl;
  listened = λ w ptr. refl;
  disconnected = λ w ptr. refl;
}

two_more : post_accept calls 3 998 0 ≡ some (true, 1000, 2)
unfolding post_accept post_one
two_more = refl

post_accept_lem_example :
    (ok : Bool) × (pending' : ℕ) × (w' : ℕ) × (post_accept calls 3 998 0 ≡ some (ok, pending', w'))
    × (pending' + 0 ≡ 998 + w')
    × (if ok then pending' ≡ accept_count else (pending' < accept_count))
post_accept_lem_example = post_accept_lem calls-Counts 3 998 0 (omega arith) (omega arith)

-- Both load the count, the second exchanges it, and the exchange of the first fails.
abbrev raced : Machine
raced = step (step (step (step (step initial 1 true) 0 true) 1 true) 1 true) 0 true

raced_runs : (raced.pending_accepts ≡ 1) × (raced.at 0 ≡ Pc.loading) × (raced.at 1 ≡ Pc.creating)
unfolding step step_at
raced_runs = (refl, refl, refl)

raced-Smooth : Smooth 2 raced
unfolding step step_at fails
raced-Smooth = Smooth.next 0 true (omega arith) refl (
    Smooth.next 1 true (omega arith) refl (
      Smooth.next 1 true (omega arith) refl (
        Smooth.next 0 true (omega arith) refl
          (Smooth.next 1 true (omega arith) refl Smooth.start))))

-- Now the second cannot create a session.
abbrev failed : Machine
failed = step raced 1 false

failed-Reachable : Reachable 2 failed
failed-Reachable = Reachable.next 1 false (omega arith) (
    Reachable.next 0 true (omega arith) (
      Reachable.next 1 true (omega arith) (
        Reachable.next 1 true (omega arith) (
          Reachable.next 0 true (omega arith)
            (Reachable.next 1 true (omega arith) Reachable.start)))))

Reachable-Counted_example : Counted 2 failed
Reachable-Counted_example = Reachable-Counted failed-Reachable

Smooth_full_example : (0 < total busy raced.at 2) ⊎ (raced.posted ≡ accept_count)
Smooth_full_example = Smooth_full (omega arith) raced-Smooth
