-- ===== src/Scheduler/Runs.antt =====
-- Scheduler/Worker.cpp and Main.cpp: the loops of the workers, RunComplex and RunSimple, and that of
-- main, as steps that come in any order.
mod Holds
mod Steps
mod Kept
mod Reports
mod Told
pub mod Finish
mod Tests
use server_study.Prelude.{
  ℕ, zero, suc, ◌+◌, ◌-◌, ◌%◌, ◌^◌, ◌<◌, Bool, true, false, none, some, List, [], ◌∷◌, ◌++◌, Array,
  update, ◌==◌, if◌then◌else◌, add64, sub64, sub32, ltb, length,
}
use server_study.Scheduler.{
  queue_size, max_buffer_size, Worker, get_next_task, fill_buffer, try_fetch_global, try_steal_from,
}

-- Where a worker is: in RunComplex before GetNextTask, FillBuffer, TryFetchGlobal, one of the rounds
-- of TryStealAny with some to come, the test of stop_ and the report of what it did; in RunSimple before
-- it takes a task and before it reports it; or at the end.
pub data Pc : Type 0 where
  taking : Pc
  filling : Pc
  fetching : Pc
  stealing : ℕ → Pc
  stopping : Pc
  reporting : Pc
  simple : Pc
  simple_did : Pc
  done : Pc

-- The workers and the context. `executed` lists the tasks that have run, and `notified` counts the calls
-- of notify_one.
pub record Pool (T : Type 0) : Type 0 where
  pub workers : Array (Worker T)
  pub at : Array Pc
  pub global : List T
  pub pending_tasks : ℕ
  pub notified : ℕ
  pub stop : Bool
  pub executed : List T

-- Which try_lock succeeds, and the victim that the generator draws.
pub record Outcome : Type 0 where
  pub owns_lock : Bool
  pub owns_local : Bool
  pub victim : ℕ

-- An int as a size_t.
unfoldable pub widen : ℕ → ℕ
widen n = if ltb n (2 ^ 31) then n else n + 2 ^ 64 - 2 ^ 32

module _ {T : Type 0} where
  -- `pending_tasks_.fetch_sub(did)`, and the notification if that was all that was pending.
  unfoldable pub report : Pool T → ℕ → Pool T
  report p did = record p {
    pending_tasks = sub32 p.pending_tasks (did % 2 ^ 32);
    notified = if widen p.pending_tasks == did then p.notified + 1 else p.notified;
  }

  unfoldable pub step_at : ℕ → ℕ → Pool T → ℕ → Outcome → Pc → Pool T
  step_at attempts threads p i o Pc.taking =
      let (task, w) = get_next_task (p.workers i) in
      elim task [
        | none ↦ record p { at = update p.at i Pc.filling }
        | some t ↦ record p {
          workers = update p.workers i (record w { task_did = add64 w.task_did 1 });
          executed = p.executed ++ t ∷ [];
        }
      ]
  step_at attempts threads p i o Pc.filling =
      let (cnt, w) = fill_buffer (p.workers i) 64 in
      record p {
        workers = update p.workers i w;
        at = update p.at i (if ltb 0 cnt then Pc.taking else Pc.fetching);
      }
  step_at attempts threads p i o Pc.fetching =
      let (cnt, w, global) =
        try_fetch_global threads o.owns_lock o.owns_local (p.workers i) p.global 256 in
      record p {
        workers = update p.workers i w;
        at = update p.at i (if ltb 0 cnt then Pc.taking else Pc.stealing attempts);
        global = global;
      }
  step_at attempts threads p i o (Pc.stealing zero) = record p { at = update p.at i Pc.stopping }
  step_at attempts threads p i o (Pc.stealing (suc rounds)) =
      let (cnt, w, victim) =
        try_steal_from o.owns_lock o.owns_local (p.workers i) (p.workers o.victim) 256 in
      record p {
        workers = update (update p.workers i w) o.victim victim;
        at = update p.at i (if ltb 0 cnt then Pc.taking else Pc.stealing rounds);
      }
  step_at attempts threads p i o Pc.stopping = record p {
    at = update p.at i (if p.stop then Pc.done else Pc.reporting);
  }
  step_at attempts threads p i o Pc.reporting =
      let w = p.workers i in
      let r = report p w.task_did in
      if ltb 0 w.task_did
      then record r {
        workers = update p.workers i (record w { task_did = 0 });
        at = update p.at i Pc.taking;
      }
      else record p { at = update p.at i Pc.taking }
  step_at attempts threads p i o Pc.simple = elim p.global [
    | [] ↦ record p { at = update p.at i (if p.stop then Pc.done else Pc.simple) }
    | t ∷ global ↦ record p {
      at = update p.at i Pc.simple_did;
      global = global;
      executed = p.executed ++ t ∷ [];
    }
  ]
  step_at attempts threads p i o Pc.simple_did = record (report p 1) {
    at = update p.at i Pc.simple;
  }
  step_at attempts threads p i o Pc.done = p

  -- A worker's next step, where TryStealAny makes so many attempts.
  unfoldable pub step_with : ℕ → ℕ → Pool T → ℕ → Outcome → Pool T
  step_with attempts threads p i o = step_at attempts threads p i o (p.at i)

  -- As many as there are threads.
  unfoldable pub step : ℕ → Pool T → ℕ → Outcome → Pool T
  step threads p i o = step_with threads threads p i o

  -- Five, in Scheduler/Legacy/Worker.cpp, which is the same program otherwise.
  unfoldable pub legacy_step : ℕ → Pool T → ℕ → Outcome → Pool T
  legacy_step threads p i o = step_with 5 threads p i o

  -- The wait of RunTasks, which ends when nothing is pending.
  unfoldable pub main_step : Pool T → Pool T
  main_step p = if p.pending_tasks == 0 then record p { stop = true } else p

  unfoldable pub cleared : Worker T → Worker T
  cleared w = record w {
    queue_head = 0;
    queue_tail = 0;
    buffer_head = 0;
    buffer_tail = 0;
    task_did = 0;
  }

  -- What main leaves to the threads: the tasks, the cleared workers, and where Run sends them.
  unfoldable pub start_pool : Array (Worker T) → Bool → List T → Pool T
  start_pool workers use_complex tasks = record {
    workers = λ i. cleared (workers i);
    at = λ i. if use_complex then Pc.taking else Pc.simple;
    global = tasks;
    pending_tasks = length tasks;
    notified = 0;
    stop = false;
    executed = [];
  }
