-- ===== src/Scheduler/Runs/Kept.antt =====
-- Moving tasks does not touch task_did_.
use server_study.Prelude.{ℕ, zero, suc, ◌≡◌, refl, Bool, List, [], ◌∷◌, arith}
use server_study.Scheduler.{
  Worker, get_next_task, put, fill_buffer, fill_rounds, try_fetch_global, fetch_rounds,
  try_steal_from, steal_rounds,
}

module _ {T : Type 0} where
  fill_rounds-task_did : (rounds : ℕ) (w : Worker T) → (fill_rounds rounds w).task_did ≡ w.task_did
  unfolding fill_rounds
  fill_rounds-task_did zero w = refl
  fill_rounds-task_did (suc rounds) w = fill_rounds-task_did rounds _

  fetch_rounds-task_did :
      (rounds : ℕ) (w : Worker T) (global : List T)
      → (fetch_rounds rounds w global).0.task_did ≡ w.task_did
  unfolding fetch_rounds put
  fetch_rounds-task_did zero w global = refl
  fetch_rounds-task_did (suc rounds) w [] = refl
  fetch_rounds-task_did (suc rounds) w (t ∷ global) = fetch_rounds-task_did rounds _ global

  steal_rounds-task_did :
      (rounds : ℕ) (w v : Worker T)
      → ((steal_rounds rounds w v).0.task_did ≡ w.task_did)
        × ((steal_rounds rounds w v).1.task_did ≡ v.task_did)
  unfolding steal_rounds put
  steal_rounds-task_did zero w v = (refl, refl)
  steal_rounds-task_did (suc rounds) w v = steal_rounds-task_did rounds _ _

  pub get_next_task-task_did : (w : Worker T) → (get_next_task w).1.task_did ≡ w.task_did
  unfolding get_next_task
  get_next_task-task_did w = ground arith

  pub fill_buffer-task_did : (w : Worker T) (n : ℕ) → (fill_buffer w n).1.task_did ≡ w.task_did
  unfolding fill_buffer
  fill_buffer-task_did w n = fill_rounds-task_did _ w

  pub try_fetch_global-task_did :
      (threads : ℕ) (b c : Bool) (w : Worker T) (global : List T) (n : ℕ)
      → (try_fetch_global threads b c w global n).1.task_did ≡ w.task_did
  unfolding try_fetch_global
  try_fetch_global-task_did threads b c w global n = grind (arith, fetch_rounds-task_did)

  pub try_steal_from-task_did :
      (b c : Bool) (w v : Worker T) (n : ℕ)
      → ((try_steal_from b c w v n).1.task_did ≡ w.task_did)
        × ((try_steal_from b c w v n).2.task_did ≡ v.task_did)
  unfolding try_steal_from
  try_steal_from-task_did b c w v n = grind (arith, steal_rounds-task_did)
