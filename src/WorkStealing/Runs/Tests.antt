-- ===== src/WorkStealing/Runs/Tests.antt =====
-- Two workers and a task, named by a number.
use server_study.Prelude.{ℕ, ◌≡◌, refl, true, List, [], ◌∷◌, total, weigh, one, arith}
use server_study.WorkStealing.{push, try_pop, try_steal}
use server_study.WorkStealing.Runs.{Crew, step_at, step, push_back_all, main_step, start_crew}
use server_study.WorkStealing.Runs.Holds.{holding, carried}
use server_study.WorkStealing.Runs.Finish.{Reachable, Reachable-stopped}

abbrev tasks : List ℕ
tasks = 7 ∷ []

-- The first worker finds its queue empty, and so that of the second and its own again; it takes g_m and moves the
-- task to its queue.
abbrev fetched : Crew ℕ
fetched =
    step 2
      (step 2
        (step 2 (step 2 (step 2 (step 2 (main_step tasks (start_crew (λ i k. 0))) 0 1) 0 1) 0 0) 0
          0)
        0 0)
      0 0

-- Before the first one gives g_m back, the second one steals the task.
abbrev stolen : Crew ℕ
stolen = step 2 (step 2 (step 2 fetched 1 0) 1 0) 1 0

-- It runs it and reports it; the first one gives g_m back, and RunTasks goes on.
abbrev ended : Crew ℕ
ended = main_step tasks (step 2 (step 2 (step 2 stolen 1 0) 1 0) 0 0)

fetched-Reachable : Reachable 2 tasks fetched
unfolding step step_at push_back_all main_step start_crew try_pop try_steal push
fetched-Reachable = Reachable.works 0 0 (omega arith) (omega arith) (omega arith) (
    Reachable.works 0 0 (omega arith) (omega arith) (omega arith) (
      Reachable.works 0 0 (omega arith) (omega arith) (omega arith) (
        Reachable.works 0 0 (omega arith) (omega arith) (omega arith) (
          Reachable.works 0 1 (omega arith) (omega arith) (omega arith) (
            Reachable.works 0 1 (omega arith) (omega arith) (omega arith)
              (Reachable.waits (Reachable.start (λ i k. 0))))))))

ended-Reachable : Reachable 2 tasks ended
unfolding step step_at push_back_all main_step start_crew try_pop try_steal push
ended-Reachable = Reachable.waits (
    Reachable.works 0 0 (omega arith) (omega arith) (omega arith) (
      Reachable.works 1 0 (omega arith) (omega arith) (omega arith) (
        Reachable.works 1 0 (omega arith) (omega arith) (omega arith) (
          Reachable.works 1 0 (omega arith) (omega arith) (omega arith) (
            Reachable.works 1 0 (omega arith) (omega arith) (omega arith) (
              Reachable.works 1 0 (omega arith) (omega arith) (omega arith)
                (fetched-Reachable)))))))

blocked_runs : (fetched.locked ≡ true) × (stolen.pools.global_queue ≡ [])
unfolding step step_at push_back_all main_step start_crew try_pop try_steal push
blocked_runs = (refl, refl)

ended_runs : (ended.stop ≡ true) × (ended.executed ≡ tasks)
unfolding step step_at push_back_all main_step start_crew try_pop try_steal push
ended_runs = (refl, refl)

Reachable-stopped_example :
    (weigh (λ t. t) ended.executed ≡ weigh (λ t. t) tasks)
    × (ended.pools.global_queue ≡ [])
    × (total (holding one) ended.pools.local_queues 2 ≡ 0)
    × (total (carried one) ended.at 2 ≡ 0)
    × (ended.notified ≡ 1)
Reachable-stopped_example =
    Reachable-stopped (λ t. t) (omega arith) (omega arith) ended-Reachable ended_runs.0
