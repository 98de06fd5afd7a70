-- ===== src/Scheduler/Runs/Finish.antt =====
-- RunTasks: every run of the workers and of main.
use server_study.Prelude.{
  total-none, none_left, one, weigh, weigh-one, ℕ, ◌<◌, ◌≤◌, ◌^◌, ◌≡◌, refl, ap, Bool, true, false,
  List, [], Array, ◌==◌, if◌then◌else◌, length, total, total-zero, arith, Bool-cases, inl, inr,
}
use server_study.Scheduler.{Worker}
use server_study.Scheduler.Contents.{queued, buffered}
use server_study.Scheduler.Runs.{
  Pc, Pool, Outcome, step_with, step, legacy_step, main_step, cleared, start_pool,
}
use server_study.Scheduler.Runs.Holds.{holding, Calm, Holds, Small}
use server_study.Scheduler.Runs.Steps.{step_at-Holds}
use server_study.Scheduler.Runs.Reports.{did, did_here, Reports}
use server_study.Scheduler.Runs.Told.{step_at-Reports}

-- What `n` workers and main can come to, of Scheduler/Worker.cpp or of Scheduler/Legacy/Worker.cpp, in any order of their steps and with any outcome of each, while
-- the indices of those that move are not near 2^64.
pub data Reachable {T : Type 0} (legacy : Bool) (n : ℕ) (tasks : List T) : Pool T → Type 0 where
  start :
      (ws : Array (Worker T)) (use_complex : Bool)
      → Reachable legacy n tasks (start_pool ws use_complex tasks)
  works :
      {p : Pool T} (i : ℕ) (o : Outcome)
      → i < n
      → o.victim < n
      → Small (p.workers i)
      → Small (p.workers o.victim)
      → Reachable legacy n tasks p
      → Reachable legacy n tasks (if legacy then legacy_step n p i o else step n p i o)
  waits : {p : Pool T} → Reachable legacy n tasks p → Reachable legacy n tasks (main_step p)

start_did : (use_complex : Bool) → did (if use_complex then Pc.taking else Pc.simple) ≡ 0
unfolding did
start_did true = refl
start_did false = refl

module _ {T : Type 0} where
  start-Holds :
      (n : ℕ) (ws : Array (Worker T)) (use_complex : Bool) (tasks : List T)
      → Holds n tasks (start_pool ws use_complex tasks)
  unfolding start_pool cleared
  start-Holds n ws use_complex tasks = record {
    valid = λ i. record {
      ordered = omega arith;
      fits = omega arith;
      buffer_ordered = omega arith;
      buffer_fits = omega arith;
    };
    calm = λ i.
        elim use_complex as (λ b. Calm (if b then Pc.taking else Pc.simple) (cleared (ws i))) [
          | true ↦ refl
          | false ↦ refl
        ];
    all_tasks = λ f.
        let e = total-zero (holding f) (start_pool ws use_complex tasks).workers n (λ i. refl) in
        omega (arith, e);
  }

  start-Reports :
      (n : ℕ) (ws : Array (Worker T)) (use_complex : Bool) (tasks : List T)
      → 0 < length tasks
      → Reports n tasks (start_pool ws use_complex tasks)
  unfolding start_pool cleared
  start-Reports n ws use_complex tasks some_tasks =
      let p = start_pool ws use_complex tasks in
      let a = total-zero did_here p.workers n (λ i. refl) in
      let b = total-zero did p.at n (λ i. start_did use_complex) in
      record {
        counted = omega (arith, a, b);
        few = omega (arith, a, b);
        notified = ground arith;
        stopped = λ z. absurd (ground (arith, z));
      }

  main_step-Holds :
      {n : ℕ} {tasks : List T} (p : Pool T) → Holds n tasks p → Holds n tasks (main_step p)
  unfolding main_step
  main_step-Holds p h = elim (Bool-cases (p.pending_tasks == 0)) [
    | inl none_left ↦
        rw none_left (record { valid = h.valid; calm = h.calm; all_tasks = h.all_tasks })
    | inr some_left ↦ rw some_left h
  ]

  main_step-Reports :
      {n : ℕ} {tasks : List T} (p : Pool T) → Reports n tasks p → Reports n tasks (main_step p)
  unfolding main_step
  main_step-Reports p r = elim (Bool-cases (p.pending_tasks == 0)) [
    | inl none_left ↦ rw none_left (record {
      counted = r.counted;
      few = r.few;
      notified = r.notified;
      stopped = λ z. ground arith;
    })
    | inr some_left ↦ rw some_left r
  ]

  step_with-both :
      {n : ℕ} {tasks : List T} {p : Pool T} (attempts i : ℕ) (o : Outcome)
      → 2 ≤ n
      → length tasks < 2 ^ 31
      → i < n
      → o.victim < n
      → Small (p.workers i)
      → Small (p.workers o.victim)
      → Holds n tasks p
      → Reports n tasks p
      → Holds n tasks (step_with attempts n p i o) × Reports n tasks (step_with attempts n p i o)
  unfolding step_with
  step_with-both {p = p} attempts i o two few lt vt small v_small h r = (
    step_at-Holds attempts i o (p.at i) two lt vt small v_small refl h,
    step_at-Reports attempts i o (p.at i) few lt refl h r,
  )

  Reachable-both :
      {legacy : Bool} {n : ℕ} {tasks : List T} {p : Pool T}
      → 2 ≤ n
      → 0 < length tasks
      → length tasks < 2 ^ 31
      → Reachable legacy n tasks p
      → Holds n tasks p × Reports n tasks p
  unfolding step legacy_step
  Reachable-both {n = n} {tasks} two some_tasks few (start ws use_complex) =
      (start-Holds n ws use_complex tasks, start-Reports n ws use_complex tasks some_tasks)
  Reachable-both {legacy = true} two some_tasks few (works {p} i o lt vt small v_small before) =
      let (h, r) = Reachable-both two some_tasks few before in
      step_with-both 5 i o two few lt vt small v_small h r
  Reachable-both {legacy = false} {n} two some_tasks few
        (works {p} i o lt vt small v_small before) =
      let (h, r) = Reachable-both two some_tasks few before in
      step_with-both n i o two few lt vt small v_small h r
  Reachable-both two some_tasks few (waits {p} before) =
      let (h, r) = Reachable-both two some_tasks few before in
      (main_step-Holds p h, main_step-Reports p r)

  -- In both versions of the scheduler, with two workers or more, and from one task to 2^31 - 1, pending_tasks_ is at all times the number of
  -- the tasks that have not run and of those that have and are not yet reported; notify_one is called
  -- once, when it gets to 0, and main stops the workers only then.
  pub Reachable-Reports :
      {legacy : Bool} {n : ℕ} {tasks : List T} {p : Pool T}
      → 2 ≤ n
      → 0 < length tasks
      → length tasks < 2 ^ 31
      → Reachable legacy n tasks p
      → Reports n tasks p
  Reachable-Reports two some_tasks few s = (Reachable-both two some_tasks few s).1

  empty_holds : (f : T → ℕ) (w : Worker T) → holding one w ≡ 0 → holding f w ≡ 0
  empty_holds f w e =
      let ring = ap (weigh f) (none_left (queued w) (omega (arith, e))) in
      let buffer = ap (weigh f) (none_left (buffered w) (omega (arith, e))) in
      omega (arith, ring, buffer)

  -- In both versions of the scheduler, with two workers or more, and from one task to 2^31 - 1: once main has stopped the workers,
  -- whichever loop they run, whatever they stole from each other and in whatever order, every task has run once and nothing else has, as every way to count tasks shows,
  -- and no worker holds a task.
  pub Reachable-executed :
      {legacy : Bool} {n : ℕ} {tasks : List T} {p : Pool T} (f : T → ℕ)
      → 2 ≤ n
      → 0 < length tasks
      → length tasks < 2 ^ 31
      → Reachable legacy n tasks p
      → p.stop ≡ true
      → (weigh f p.executed ≡ weigh f tasks)
        × (p.global ≡ [])
        × (total (holding one) p.workers n ≡ 0)
  Reachable-executed {n} {tasks} {p} f two some_tasks few s stop =
      let (h, r) = Reachable-both two some_tasks few s in
      let nothing = r.stopped stop in
      let all = h.all_tasks one in
      let len = weigh-one tasks in
      let count = r.counted in
      let reported = r.few in
      let none_global : weigh one p.global ≡ 0 = omega (arith, nothing, all, len, count) in
      let none_held : total (holding one) p.workers n ≡ 0 =
        omega (arith, nothing, all, len, count) in
      let sum = h.all_tasks f in
      let global_lem = none_left p.global none_global in
      let held_lem = total-none (holding one) (holding f) p.workers n (empty_holds f) none_held in
      (omega (arith, sum, ap (weigh f) global_lem, held_lem), global_lem, none_held)
