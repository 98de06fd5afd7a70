-- ===== src/Scheduler/Runs/Tests.antt =====
-- Two workers and their tasks, named by numbers.
use server_study.Prelude.{one, weigh, ℕ, ◌≡◌, refl, true, false, List, [], ◌∷◌, Array, total, arith}
use server_study.Scheduler.{
  Worker, get_next_task, fill_buffer, fill_rounds, try_fetch_global, fetch_rounds, fetch_count, put,
}
use server_study.Scheduler.Runs.{
  Pc, Pool, Outcome, widen, report, step_at, step_with, step, legacy_step, main_step, cleared,
  start_pool,
}
use server_study.Scheduler.Runs.Holds.{holding}
use server_study.Scheduler.Runs.Reports.{Reports}
use server_study.Scheduler.Runs.Finish.{Reachable, Reachable-Reports, Reachable-executed}

abbrev workers : Array (Worker ℕ)
workers i = record {
  queue = λ k. 0;
  queue_head = 3;
  queue_tail = 5;
  buffer = λ k. 0;
  buffer_head = 0;
  buffer_tail = 0;
  task_did = 9;
}

abbrev tasks : List ℕ
tasks = 7 ∷ []

abbrev free : Outcome
free = record { owns_lock = true; owns_local = true; victim = 1 }

-- RunSimple in the legacy version: the first worker runs the task and reports it, and main goes on.
abbrev ended : Pool ℕ
ended = main_step (legacy_step 2 (legacy_step 2 (start_pool workers false tasks) 0 free) 0 free)

ended-Reachable : Reachable true 2 tasks ended
unfolding legacy_step step_with step_at start_pool cleared report widen
ended-Reachable = Reachable.waits (
    Reachable.works 0 free (omega arith) (omega arith) (omega arith) (omega arith) (
      Reachable.works 0 free (omega arith) (omega arith) (omega arith) (omega arith)
        (Reachable.start workers false)))

ended_runs : (ended.stop ≡ true) × (ended.notified ≡ 1) × (ended.executed ≡ tasks)
unfolding legacy_step step_with step_at start_pool cleared report widen main_step
ended_runs = (refl, refl, refl)

Reachable-executed_example :
    (weigh (λ t. t) ended.executed ≡ weigh (λ t. t) tasks)
    × (ended.global ≡ [])
    × (total (holding one) ended.workers 2 ≡ 0)
Reachable-executed_example =
    Reachable-executed (λ t. t) (omega arith) (omega arith) (omega arith) ended-Reachable
      ended_runs.0

-- RunComplex: the first worker finds its buffer and its ring empty, fetches the task, takes it to its
-- buffer and runs it.
abbrev fetched : Pool ℕ
fetched = step 2 (step 2 (step 2 (start_pool workers true tasks) 0 free) 0 free) 0 free

fetched_runs :
    (fetched.at 0 ≡ Pc.taking) × (fetched.global ≡ []) × ((fetched.workers 0).queue_tail ≡ 1)
unfolding step step_with step_at start_pool cleared get_next_task fill_buffer fill_rounds
    try_fetch_global fetch_rounds fetch_count put
fetched_runs = (refl, refl, refl)

fetched-Reachable : Reachable false 2 tasks fetched
unfolding step step_with step_at start_pool cleared get_next_task fill_buffer fill_rounds
    try_fetch_global fetch_rounds fetch_count put
fetched-Reachable = Reachable.works 0 free (omega arith) (omega arith) (omega arith) (omega arith) (
    Reachable.works 0 free (omega arith) (omega arith) (omega arith) (omega arith) (
      Reachable.works 0 free (omega arith) (omega arith) (omega arith) (omega arith)
        (Reachable.start workers true)))

Reachable-Reports_example : Reports 2 tasks fetched
Reachable-Reports_example =
    Reachable-Reports (omega arith) (omega arith) (omega arith) fetched-Reachable
