-- ===== src/WorkStealing.antt =====
-- Scheduler/WorkStealing.cpp: a queue for each worker, from whose end the worker takes and from
-- whose front the others steal, and the global stack. Each call runs as a whole under its mutex.
pub mod Contents
pub mod Runs
mod Tests
use server_study.Prelude.{
  ℕ, zero, suc, ◌+◌, ◌-◌, ◌%◌, ◌≤◌, Bool, true, false, Option, none, some, List, [], ◌∷◌, Array,
  update, ◌==◌, if◌then◌else◌, add64, sub64, min, length, window,
}

abbrev pub capacity : ℕ
capacity = 1024

pub record WorkerQueue (T : Type 0) : Type 0 where
  pub tasks : Array T
  pub head : ℕ
  pub tail : ℕ

-- The queues of all workers, and the global vector with its back at the head of the list.
pub record Pools (T : Type 0) : Type 0 where
  pub global_queue : List T
  pub local_queues : Array (WorkerQueue T)

module _ {T : Type 0} where
  unfoldable pub push : WorkerQueue T → T → WorkerQueue T
  push q task = record q { tasks = update q.tasks (q.tail % capacity) task; tail = add64 q.tail 1 }

  -- The task, unless the answer is false.
  unfoldable pub try_pop : WorkerQueue T → Option T × WorkerQueue T
  try_pop q =
      let tail' = sub64 q.tail 1 in
      if q.head == q.tail
      then (none, q)
      else (some (q.tasks (tail' % capacity)), record q { tail = tail' })

  unfoldable pub try_steal : WorkerQueue T → Option T × WorkerQueue T
  try_steal q =
      if q.head == q.tail
      then (none, q)
      else (some (q.tasks (q.head % capacity)), record q { head = add64 q.head 1 })
