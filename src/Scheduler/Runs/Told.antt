-- ===== src/Scheduler/Runs/Told.antt =====
-- Every step of a worker keeps the count of pending tasks.
use server_study.Prelude.{
  one, weigh-append, ℕ, zero, suc, ◌^◌, ◌<◌, ◌≡◌, refl, ap, sym, ◌∙◌, inl, inr, none, some, List,
  [], ◌∷◌, Array, update, ◌==◌, ltb, length, Option, ◌⊎◌, update_same, arith, Bool-cases,
}
use server_study.Scheduler.{Worker, get_next_task, try_steal_from}
use server_study.Scheduler.Runs.{Pc, Pool, Outcome, report, step_at}
use server_study.Scheduler.Runs.Holds.{Holds, list_cases}
use server_study.Scheduler.Runs.Kept.{
  get_next_task-task_did, fill_buffer-task_did, try_fetch_global-task_did, try_steal_from-task_did,
}
use server_study.Scheduler.Runs.Reports.{
  did, if-did, did-update, Reports, same-Reports, own-Reports, Reports-pending, report_lem,
}

module _ {T : Type 0} where
  task_did-update :
      (ws : Array (Worker T)) (i : ℕ) (w : Worker T)
      → w.task_did ≡ (ws i).task_did
      → (j : ℕ) → (update ws i w j).task_did ≡ (ws j).task_did
  task_did-update ws i w e j = elim (Bool-cases (j == i)) [
    | inl same ↦
        let here : j ≡ i = ground arith in rw same (e ∙ ap (λ k. (ws k).task_did) (sym here))
    | inr other ↦ rw other refl
  ]

  option_cases : (x : Option T) → (x ≡ none) ⊎ ((t : T) × (x ≡ some t))
  option_cases none = inl refl
  option_cases (some t) = inr (t, refl)

  pub step_at-Reports :
      {n : ℕ} {tasks : List T} {p : Pool T} (attempts i : ℕ) (o : Outcome) (pc : Pc)
      → length tasks < 2 ^ 31
      → i < n
      → p.at i ≡ pc
      → Holds n tasks p
      → Reports n tasks p
      → Reports n tasks (step_at attempts n p i o pc)
  unfolding step_at did report
  step_at-Reports {p = p} attempts i o Pc.taking few lt e h r =
      let v = p.workers i in
      let kept = get_next_task-task_did v in
      elim (option_cases (get_next_task v).0) [
        | inl nothing ↦
            rw (step_at, nothing)
              (same-Reports _ r (λ j. refl) (did-update p.at i Pc.filling (sym (ap did e))) refl
                refl refl refl)
        | inr (t, something) ↦
            let bound = (Reports-pending h r lt).2 in
            let out = weigh-append one p.executed (t ∷ []) in
            let zero_lem = ap did e in
            rw (step_at, something)
              (own-Reports _ Pc.taking _ r lt (λ j. refl) (update_same p.at i Pc.taking e)
                (omega (arith, kept, bound, few, out, zero_lem))
                (omega (arith, kept, bound, few, out, zero_lem)) r.notified r.stopped)
      ]
  step_at-Reports {p = p} attempts i o Pc.filling few lt e h r =
      same-Reports _ r (task_did-update p.workers i _ (fill_buffer-task_did (p.workers i) 64))
        (did-update p.at i _ (if-did _ Pc.taking Pc.fetching refl refl ∙ sym (ap did e))) refl refl
        refl refl
  step_at-Reports {n} {p = p} attempts i o Pc.fetching few lt e h r =
      same-Reports _ r
        (task_did-update p.workers i _
          (try_fetch_global-task_did n o.owns_lock o.owns_local (p.workers i) p.global 256))
        (did-update p.at i _ (if-did _ Pc.taking (Pc.stealing attempts) refl refl ∙ sym (ap did e)))
        refl refl refl refl
  step_at-Reports {p = p} attempts i o (Pc.stealing zero) few lt e h r =
      same-Reports _ r (λ j. refl) (did-update p.at i Pc.stopping (sym (ap did e))) refl refl refl
        refl
  step_at-Reports {p = p} attempts i o (Pc.stealing (suc rounds)) few lt e h r =
      let w = p.workers i in
      let (kept, v_kept) =
        try_steal_from-task_did o.owns_lock o.owns_local w (p.workers o.victim) 256 in
      let (cnt, w', v') = try_steal_from o.owns_lock o.owns_local w (p.workers o.victim) 256 in
      let own = task_did-update p.workers i w' kept in
      same-Reports _ r
        (λ j.
          task_did-update (update p.workers i w') o.victim v' (v_kept ∙ sym (own o.victim)) j
          ∙ own j)
        (did-update p.at i _ (if-did _ Pc.taking (Pc.stealing rounds) refl refl ∙ sym (ap did e)))
        refl refl refl refl
  step_at-Reports {p = p} attempts i o Pc.stopping few lt e h r =
      same-Reports _ r (λ j. refl)
        (did-update p.at i _ (if-did p.stop Pc.done Pc.reporting refl refl ∙ sym (ap did e))) refl
        refl refl refl
  step_at-Reports {p = p} attempts i o Pc.reporting few lt e h r =
      let w = p.workers i in
      elim (Bool-cases (ltb 0 w.task_did)) [
        | inr nothing ↦ rw nothing (
            same-Reports _ r (λ j. refl) (did-update p.at i Pc.taking (sym (ap did e))) refl refl
              refl refl)
        | inl something ↦
            let (pend, all, mine) = Reports-pending h r lt in
            let positive : 0 < w.task_did = ground arith in
            let zero_lem = ap did e in
            let (less, told) =
              report_lem p w.task_did positive (omega (arith, pend)) (omega (arith, all, few))
                r.notified in
            rw something (
              own-Reports _ Pc.taking (record w { task_did = 0 }) r lt (λ j. refl) (λ j. refl)
                (omega (arith, less, pend, zero_lem)) (omega (arith, zero_lem)) told
                (λ z.
                  let none_left = r.stopped z in absurd (omega (arith, none_left, pend, positive))))
      ]
  step_at-Reports {p = p} attempts i o Pc.simple few lt e h r = elim (list_cases p.global) [
    | inl nothing ↦
        rw (step_at, nothing)
          (same-Reports _ r (λ j. refl)
            (did-update p.at i _ (if-did p.stop Pc.done Pc.simple refl refl ∙ sym (ap did e))) refl
            refl refl refl)
    | inr (t, global, something) ↦
        let out = weigh-append one p.executed (t ∷ []) in
        let zero_lem = ap did e in
        rw (step_at, something)
          (own-Reports _ Pc.simple_did (p.workers i) r lt
            (update_same p.workers i (p.workers i) refl) (λ j. refl) (omega (arith, out, zero_lem))
            (omega (arith, out, zero_lem)) r.notified r.stopped)
  ]
  step_at-Reports {p = p} attempts i o Pc.simple_did few lt e h r =
      let (pend, all, mine) = Reports-pending h r lt in
      let one_lem = ap did e in
      let (less, told) =
        report_lem p 1 (omega arith) (omega (arith, pend, one_lem)) (omega (arith, all, few))
          r.notified in
      own-Reports _ Pc.simple (p.workers i) r lt (update_same p.workers i (p.workers i) refl)
        (λ j. refl) (omega (arith, less, pend, one_lem)) (omega (arith, one_lem)) told
        (λ z. let none_left = r.stopped z in absurd (omega (arith, none_left, pend, one_lem)))
  step_at-Reports attempts i o Pc.done few lt e h r = r
