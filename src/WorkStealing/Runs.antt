-- ===== src/WorkStealing/Runs.antt =====
-- Scheduler/WorkStealing.cpp: the loops of the workers and RunTasks, as steps that come in any order.
mod Holds
mod Steps
mod Reports
pub mod Finish
mod Tests
use server_study.Prelude.{
  ℕ, zero, suc, ◌+◌, ◌-◌, Bool, true, false, ◌&&◌, not, Option, none, some, List, [], ◌∷◌, ◌++◌,
  min, Array, update, ◌==◌, if◌then◌else◌, sub32, length,
}
use server_study.WorkStealing.{WorkerQueue, Pools, push, try_pop, try_steal}

-- Where a worker is: before it pops a task, before it reports that it ran one, in a round of Steal with
-- some to come, with a stolen task before it pushes that to its own queue, before Try_pop_global takes g_m, in its
-- loop with g_m and some tasks to move, before the test of g_stop, or at the end.
pub data Pc (T : Type 0) : Type 0 where
  popping : Pc T
  reporting : Pc T
  stealing : ℕ → Pc T
  pushing : T → Pc T
  fetching : Pc T
  moving : ℕ → Pc T
  stopping : Pc T
  done : Pc T

-- The queues, the workers and the globals. `filled` says whether RunTasks has put the tasks in the
-- global queue, `locked` whether a worker holds g_m, `executed` lists the tasks that have run, and `notified` counts
-- the calls of notify_one.
pub record Crew (T : Type 0) : Type 0 where
  pub pools : Pools T
  pub at : Array (Pc T)
  pub pending_tasks : ℕ
  pub filled : Bool
  pub locked : Bool
  pub notified : ℕ
  pub stop : Bool
  pub executed : List T

module _ {T : Type 0} where
  abbrev pub set_queue : Crew T → ℕ → WorkerQueue T → Pools T
  set_queue c id q = record c.pools { local_queues = update c.pools.local_queues id q }

  -- The next step of a worker; `victim_id` is what its generator draws.
  unfoldable pub step_at : ℕ → Crew T → ℕ → ℕ → Pc T → Crew T
  step_at threads c id victim_id Pc.popping =
      let (task, q) = try_pop (c.pools.local_queues id) in
      elim task [
        | none ↦ record c { at = update c.at id (Pc.stealing threads) }
        | some t ↦ record c {
          pools = set_queue c id q;
          at = update c.at id Pc.reporting;
          executed = c.executed ++ t ∷ [];
        }
      ]
  step_at threads c id victim_id Pc.reporting = record c {
    pending_tasks = sub32 c.pending_tasks 1;
    notified = if c.pending_tasks == 1 then c.notified + 1 else c.notified;
    at = update c.at id Pc.popping;
  }
  step_at threads c id victim_id (Pc.stealing zero) = record c { at = update c.at id Pc.fetching }
  step_at threads c id victim_id (Pc.stealing (suc rounds)) =
      let (task, q) = try_steal (c.pools.local_queues victim_id) in
      if victim_id == id
      then record c { at = update c.at id (Pc.stealing rounds) }
      else (elim task [
        | none ↦ record c { at = update c.at id (Pc.stealing rounds) }
        | some t ↦ record c { pools = set_queue c victim_id q; at = update c.at id (Pc.pushing t) }
      ])
  step_at threads c id victim_id (Pc.pushing t) = record c {
    pools = set_queue c id (push (c.pools.local_queues id) t);
    at = update c.at id Pc.popping;
  }
  step_at threads c id victim_id Pc.fetching =
      let cnt = min (length c.pools.global_queue) 512 in
      if c.locked
      then c
      else (if cnt == 0
          then record c { at = update c.at id Pc.stopping }
          else record c { locked = true; at = update c.at id (Pc.moving cnt) })
  step_at threads c id victim_id (Pc.moving zero) = record c {
    locked = false;
    at = update c.at id Pc.popping;
  }
  step_at threads c id victim_id (Pc.moving (suc rounds)) = elim c.pools.global_queue [
    | [] ↦ record c { locked = false; at = update c.at id Pc.popping }
    | t ∷ global ↦ record c {
      pools = record {
        global_queue = global;
        local_queues = update c.pools.local_queues id (push (c.pools.local_queues id) t);
      };
      at = update c.at id (Pc.moving rounds);
    }
  ]
  step_at threads c id victim_id Pc.stopping = record c {
    at = update c.at id (if c.stop then Pc.done else Pc.popping);
  }
  step_at threads c id victim_id Pc.done = c

  unfoldable pub step : ℕ → Crew T → ℕ → ℕ → Crew T
  step threads c id victim_id = step_at threads c id victim_id (c.at id)

  -- The tasks go to the back of the global vector one by one.
  unfoldable pub push_back_all : List T → List T → List T
  push_back_all [] global = global
  push_back_all (t ∷ ts) global = push_back_all ts (t ∷ global)

  -- What RunTasks does once the threads run: it sets the count and fills the vector under g_m, and then
  -- waits for the count to be 0, which it tests with g_m.
  unfoldable pub main_step : List T → Crew T → Crew T
  main_step tasks c =
      if c.locked
      then c
      else (if c.filled
          then (if c.pending_tasks == 0 then record c { stop = true } else c)
          else record c {
            pools = record c.pools { global_queue = push_back_all tasks c.pools.global_queue };
            pending_tasks = length tasks;
            filled = true;
          })

  -- The start of RunTasks: new queues, no tasks, and the workers at the head of their loops.
  unfoldable pub start_crew : Array (Array T) → Crew T
  start_crew cells = record {
    pools = record {
      global_queue = [];
      local_queues = λ i. record { tasks = cells i; head = 0; tail = 0 };
    };
    at = λ i. Pc.popping;
    pending_tasks = 0;
    filled = false;
    locked = false;
    notified = 0;
    stop = false;
    executed = [];
  }
