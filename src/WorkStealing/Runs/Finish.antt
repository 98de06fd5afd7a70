-- ===== src/WorkStealing/Runs/Finish.antt =====
-- RunTasks: every run of the workers.
use server_study.Prelude.{
  ℕ, ◌+◌, ◌<◌, ◌^◌, ◌≡◌, refl, ap, sym, ◌∙◌, true, List, [], ◌∷◌, Array, ◌==◌, if◌then◌else◌,
  length, weigh, weigh-one, one, none_left, total, total-zero, total-none, arith,
}
use server_study.WorkStealing.{WorkerQueue}
use server_study.WorkStealing.Contents.{contents}
use server_study.WorkStealing.Runs.{Pc, Crew, step, push_back_all, main_step, start_crew}
use server_study.WorkStealing.Runs.Holds.{holding, carried, Holds, Small, by_cases}
use server_study.WorkStealing.Runs.Steps.{step_at-Holds}
use server_study.WorkStealing.Runs.Reports.{did, Reports, step_at-Reports}

-- What `n` workers and RunTasks can come to, in any order of their steps and with any victims, while the
-- tail of the queue of the one that moves is not near 2^64.
pub data Reachable {T : Type 0} (n : ℕ) (tasks : List T) : Crew T → Type 0 where
  start : (cells : Array (Array T)) → Reachable n tasks (start_crew cells)
  works :
      {c : Crew T} (i victim : ℕ)
      → i < n
      → victim < n
      → Small (c.pools.local_queues i)
      → Reachable n tasks c
      → Reachable n tasks (step n c i victim)
  waits : {c : Crew T} → Reachable n tasks c → Reachable n tasks (main_step tasks c)

module _ {T : Type 0} where
  weigh-push_back_all :
      (f : T → ℕ) (ts global : List T)
      → weigh f (push_back_all ts global) ≡ weigh f ts + weigh f global
  unfolding push_back_all
  weigh-push_back_all f [] global = omega arith
  weigh-push_back_all f (t ∷ ts) global = omega (arith, weigh-push_back_all f ts (t ∷ global))

  start-Holds :
      (n : ℕ) (tasks : List T) (cells : Array (Array T)) → Holds n tasks (start_crew cells)
  unfolding start_crew carried
  start-Holds n tasks cells = record {
    valid = λ i. record { ordered = omega arith; fits = omega arith; no_wrap = omega arith };
    calm = λ i. refl;
    all_tasks = λ f.
        let c = start_crew cells in
        let a = total-zero (holding f) c.pools.local_queues n (λ i. refl) in
        let b = total-zero (carried f) c.at n (λ i. refl) in omega (arith, a, b);
  }

  start-Reports :
      (n : ℕ) (tasks : List T) (cells : Array (Array T)) → Reports n tasks (start_crew cells)
  unfolding start_crew did
  start-Reports n tasks cells =
      let a = total-zero did (start_crew cells).at n (λ i. refl) in
      record {
        counted = omega (arith, a);
        few = omega (arith, a);
        notified = refl;
        stopped = λ s. absurd (ground (arith, s));
      }

  main_step-Holds :
      {n : ℕ} {tasks : List T} (c : Crew T) → Holds n tasks c → Holds n tasks (main_step tasks c)
  unfolding main_step
  main_step-Holds {n} {tasks} c h =
      by_cases (Holds n tasks) c.locked c _ (λ blocked. h)
        (λ not_blocked.
          by_cases (Holds n tasks) c.filled _ _
            (λ full.
              by_cases (Holds n tasks) (c.pending_tasks == 0) _ c
                (λ over. record { valid = h.valid; calm = h.calm; all_tasks = h.all_tasks })
                (λ not_over. h))
            (λ not_yet. record {
              valid = h.valid;
              calm = h.calm;
              all_tasks = λ f.
                  let old = h.all_tasks f in
                  let g = ap (λ b. weigh f (if b then tasks else [])) not_yet in
                  let p = weigh-push_back_all f tasks c.pools.global_queue in
                  omega (arith, old, g, p);
            }))

  main_step-Reports :
      {n : ℕ} {tasks : List T} (c : Crew T)
      → 0 < length tasks
      → Holds n tasks c
      → Reports n tasks c
      → Reports n tasks (main_step tasks c)
  unfolding main_step
  main_step-Reports {n} {tasks} c some_tasks h r =
      by_cases (Reports n tasks) c.locked c _ (λ blocked. r)
        (λ not_blocked.
          by_cases (Reports n tasks) c.filled _ _
            (λ full.
              by_cases (Reports n tasks) (c.pending_tasks == 0) _ c
                (λ over. record {
                  counted = r.counted;
                  few = r.few;
                  notified = r.notified;
                  stopped = λ s. (full, ground (arith, over));
                })
                (λ not_over. r))
            (λ not_yet.
              let all = h.all_tasks one in
              let g = ap (λ b. weigh one (if b then tasks else [])) not_yet in
              let few = r.few in
              let told = r.notified in
              let before = rw not_yet at told in
              record {
                counted = omega (arith, all, g, few);
                few = few;
                notified = ground (arith, before, some_tasks);
                stopped = λ s. absurd (let f = sym (r.stopped s).0 ∙ not_yet in ground (arith, f));
              }))

  Reachable-both :
      {n : ℕ} {tasks : List T} {c : Crew T}
      → 0 < length tasks
      → length tasks < 2 ^ 31
      → Reachable n tasks c
      → Holds n tasks c × Reports n tasks c
  unfolding step
  Reachable-both {n} {tasks} some_tasks few (start cells) =
      (start-Holds n tasks cells, start-Reports n tasks cells)
  Reachable-both some_tasks few (works {c} i victim lt vt small before) =
      let (h, r) = Reachable-both some_tasks few before in
      (
        step_at-Holds i victim (c.at i) lt vt small refl h,
        step_at-Reports i victim (c.at i) few lt refl h r,
      )
  Reachable-both some_tasks few (waits {c} before) =
      let (h, r) = Reachable-both some_tasks few before in
      (main_step-Holds c h, main_step-Reports c some_tasks h r)

  empty_holds : (f : T → ℕ) (q : WorkerQueue T) → holding one q ≡ 0 → holding f q ≡ 0
  empty_holds f q e = ap (weigh f) (none_left (contents q) e)

  free_carries : (f : T → ℕ) (pc : Pc T) → carried one pc ≡ 0 → carried f pc ≡ 0
  unfolding carried
  free_carries f Pc.popping e = refl
  free_carries f Pc.reporting e = refl
  free_carries f (Pc.stealing rounds) e = refl
  free_carries f (Pc.pushing t) e = absurd (omega (arith, e))
  free_carries f Pc.fetching e = refl
  free_carries f (Pc.moving rounds) e = refl
  free_carries f Pc.stopping e = refl
  free_carries f Pc.done e = refl

  -- With from one task to 2^31 - 1, and while no tail of a queue is near 2^64: once RunTasks has stopped the workers,
  -- whatever they stole from each other and in whatever order, also while another one moved tasks from the
  -- global queue to its own, every task has run once and nothing else has, as every way to count tasks shows, no
  -- queue and no worker holds a task, and notify_one has been called once.
  pub Reachable-stopped :
      {n : ℕ} {tasks : List T} {c : Crew T} (f : T → ℕ)
      → 0 < length tasks
      → length tasks < 2 ^ 31
      → Reachable n tasks c
      → c.stop ≡ true
      → (weigh f c.executed ≡ weigh f tasks)
        × (c.pools.global_queue ≡ [])
        × (total (holding one) c.pools.local_queues n ≡ 0)
        × (total (carried one) c.at n ≡ 0)
        × (c.notified ≡ 1)
  Reachable-stopped {n} {tasks} {c} f some_tasks few s stop =
      let (h, r) = Reachable-both some_tasks few s in
      let (full, over) = r.stopped stop in
      let all = h.all_tasks one in
      let len = weigh-one tasks in
      let g = ap (λ b. weigh one (if b then tasks else [])) full in
      let k = ap (λ b. length (if b then tasks else [])) full in
      let count = r.counted in
      let reported = r.few in
      let global_none : weigh one c.pools.global_queue ≡ 0 =
        omega (arith, over, all, len, g, k, count) in
      let queues_none : total (holding one) c.pools.local_queues n ≡ 0 =
        omega (arith, over, all, len, g, k, count) in
      let hands_none : total (carried one) c.at n ≡ 0 =
        omega (arith, over, all, len, g, k, count) in
      let sum = h.all_tasks f in
      let gf = ap (λ b. weigh f (if b then tasks else [])) full in
      let empty = none_left c.pools.global_queue global_none in
      let first = ap (weigh f) empty in
      let queues =
        total-none (holding one) (holding f) c.pools.local_queues n (empty_holds f) queues_none in
      let hands = total-none (carried one) (carried f) c.at n (free_carries f) hands_none in
      let told = r.notified in
      let said = rw (full, over) at told in
      (omega (arith, sum, gf, first, queues, hands), empty, queues_none, hands_none, said)
