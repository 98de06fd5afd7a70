-- ===== src/Scheduler.antt =====
-- Scheduler/Worker.hpp and Worker.cpp: a worker's ring of tasks, which others may steal from, and its
-- private buffer, behind a global queue. Each call runs as a whole; whether a try_lock succeeds is an
-- argument.
pub mod Contents
pub mod Transfer
pub mod Runs
mod Tests
use server_study.Prelude.{
  ℕ, zero, suc, ◌+◌, ◌-◌, ◌/◌, ◌%◌, Bool, true, false, ◌&&◌, Option, none, some, List, [], ◌∷◌,
  Array, update, ◌==◌, if◌then◌else◌, add64, sub64, ltb, min, length, not,
}

abbrev pub queue_size : ℕ
queue_size = 512

abbrev pub max_buffer_size : ℕ
max_buffer_size = 64

-- T is the type of the pointers to tasks.
pub record Worker (T : Type 0) : Type 0 where
  pub queue : Array T
  pub queue_head : ℕ
  pub queue_tail : ℕ
  pub buffer : Array T
  pub buffer_head : ℕ
  pub buffer_tail : ℕ
  pub task_did : ℕ

module _ {T : Type 0} where
  unfoldable pub get_next_task : Worker T → Option T × Worker T
  get_next_task w =
      if ltb 0 (sub64 w.buffer_tail w.buffer_head)
      then (
        some (w.buffer (w.buffer_head % max_buffer_size)),
        record w { buffer_head = add64 w.buffer_head 1 },
      )
      else (none, w)

  -- `queue_[queue_tail_ % kQueueSize_] = task; queue_tail_++`
  unfoldable pub put : Worker T → T → Worker T
  put w task = record w {
    queue = update w.queue (w.queue_tail % queue_size) task;
    queue_tail = add64 w.queue_tail 1;
  }

  -- The loop of FillBuffer.
  unfoldable pub fill_rounds : ℕ → Worker T → Worker T
  fill_rounds zero w = w
  fill_rounds (suc rounds) w = fill_rounds rounds (record w {
    buffer =
        update w.buffer (w.buffer_tail % max_buffer_size) (w.queue (w.queue_head % queue_size));
    buffer_tail = add64 w.buffer_tail 1;
    queue_head = add64 w.queue_head 1;
  })

  unfoldable pub fill_buffer : Worker T → ℕ → ℕ × Worker T
  fill_buffer w batch_size =
      let cnt = min (sub64 w.queue_tail w.queue_head) batch_size in (cnt, fill_rounds cnt w)

  -- The loop of TryFetchGlobal. The front of an empty deque is undefined: here the loop stops.
  unfoldable pub fetch_rounds : ℕ → Worker T → List T → Worker T × List T
  unfolding put
  fetch_rounds zero w global = (w, global)
  fetch_rounds (suc rounds) w [] = (w, [])
  fetch_rounds (suc rounds) w (task ∷ global) = fetch_rounds rounds (put w task) global

  -- The number of tasks that TryFetchGlobal takes.
  unfoldable pub fetch_count : ℕ → Worker T → List T → ℕ → ℕ
  fetch_count num_threads w global batch_size =
      min (length global / num_threads + 1)
        (min (sub64 queue_size (sub64 w.queue_tail w.queue_head)) batch_size)

  unfoldable pub try_fetch_global :
      (num_threads : ℕ) (owns_lock owns_local : Bool)
      → Worker T
      → List T
      → ℕ
      → ℕ × Worker T × List T
  unfolding fetch_rounds fetch_count
  try_fetch_global num_threads owns_lock owns_local w global batch_size =
      let cnt = fetch_count num_threads w global batch_size in
      let (w', global') = fetch_rounds cnt w global in
      if owns_lock && ltb 0 (length global) && owns_local
      then (cnt, w', global')
      else (0, w, global)

  -- The loop of TryStealFrom: the thief and its victim.
  unfoldable pub steal_rounds : ℕ → Worker T → Worker T → Worker T × Worker T
  unfolding put
  steal_rounds zero w victim = (w, victim)
  steal_rounds (suc rounds) w victim =
      steal_rounds rounds (put w (victim.queue (victim.queue_head % queue_size)))
        (record victim { queue_head = add64 victim.queue_head 1 })

  unfoldable pub steal_count : Worker T → Worker T → ℕ → ℕ
  steal_count w victim batch_size =
      min (add64 (sub64 victim.queue_tail victim.queue_head) 1 / 2)
        (min (sub64 queue_size (sub64 w.queue_tail w.queue_head)) batch_size)

  -- For two different workers: the lock of the victim, then the thief's own.
  unfoldable pub try_steal_from :
      (owns_lock owns_local : Bool) → Worker T → Worker T → ℕ → ℕ × Worker T × Worker T
  unfolding steal_rounds steal_count
  try_steal_from owns_lock owns_local w victim batch_size =
      let cnt = steal_count w victim batch_size in
      let (w', victim') = steal_rounds cnt w victim in
      if not (sub64 victim.queue_tail victim.queue_head == 0) && owns_lock && owns_local
      then (cnt, w', victim')
      else (0, w, victim)
