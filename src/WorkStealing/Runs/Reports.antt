-- ===== src/WorkStealing/Runs/Reports.antt =====
-- What g_pending_tasks counts while the workers run.
use server_study.Prelude.{
  min, ℕ, zero, suc, ◌+◌, ◌-◌, ◌^◌, ◌<◌, ◌≤◌, ◌≡◌, refl, ap, sym, ◌∙◌, inl, inr, ◌⊎◌, Bool, true,
  false, ◌&&◌, Option, none, some, List, [], ◌∷◌, update, ◌==◌, if◌then◌else◌, length, sub32, weigh,
  weigh-append, weigh-one, one, total, total-update, at-total, arith, Bool-cases,
}
use server_study.WorkStealing.{try_pop, try_steal}
use server_study.WorkStealing.Runs.{Pc, Crew, step_at}
use server_study.WorkStealing.Runs.Holds.{given, Holds, by_cases}
use server_study.WorkStealing.Runs.Steps.{list_cases}

module _ {T : Type 0} where
  -- A task that has run and is not yet reported.
  unfoldable pub did : Pc T → ℕ
  did Pc.reporting = 1
  did _ = 0

  -- The count is that of the tasks that have not run and of those that are not yet reported; one
  -- notification comes with the last report, and RunTasks stops the workers after that.
  pub record Reports (n : ℕ) (tasks : List T) (c : Crew T) : Type 0 where
    pub counted : c.pending_tasks + weigh one c.executed ≡ length (given c tasks) + total did c.at n
    pub few : total did c.at n ≤ weigh one c.executed
    pub notified : c.notified ≡ (if c.filled && (c.pending_tasks == 0) then 1 else 0)
    pub stopped : c.stop ≡ true → (c.filled ≡ true) × (c.pending_tasks ≡ 0)

  option_cases : (x : Option T) → (x ≡ none) ⊎ ((t : T) × (x ≡ some t))
  option_cases none = inl refl
  option_cases (some t) = inr (t, refl)

  if-did : (b : Bool) (pc pc' : Pc T) → did pc ≡ 0 → did pc' ≡ 0 → did (if b then pc else pc') ≡ 0
  if-did true pc pc' h k = h
  if-did false pc pc' h k = k

  -- A worker goes on, which neither runs a task nor reports one.
  same-Reports :
      {n : ℕ} {tasks : List T} {c : Crew T} {i : ℕ} (c' : Crew T) (pc : Pc T)
      → Reports n tasks c
      → i < n
      → did pc ≡ did (c.at i)
      → c'.at ≡ update c.at i pc
      → c'.filled ≡ c.filled
      → c'.pending_tasks ≡ c.pending_tasks
      → c'.notified ≡ c.notified
      → c'.stop ≡ c.stop
      → c'.executed ≡ c.executed
      → Reports n tasks c'
  same-Reports {n} {tasks} {c} {i} c' pc r lt same d fill pend notif stop x =
      let a = total-update did c.at n i pc lt in
      let old = r.counted in
      let few = r.few in
      record {
        counted = rw (fill, pend, x, d) (omega (arith, a, old, same));
        few = rw (x, d) (omega (arith, a, few, same));
        notified = rw (notif, fill, pend) r.notified;
        stopped = rw (stop, fill, pend) r.stopped;
      }

  -- A task that is to be reported is pending, and RunTasks has filled the queue.
  Reports-pending :
      {n : ℕ} {tasks : List T} {c : Crew T} {i : ℕ}
      → Holds n tasks c
      → Reports n tasks c
      → i < n
      → did (c.at i) ≡ 1
      → (0 < c.pending_tasks) × (c.pending_tasks ≤ length tasks) × (c.filled ≡ true)
  Reports-pending {n} {tasks} {c} {i} h r lt e = elim (Bool-cases c.filled) [
    | inl full ↦
        let all = h.all_tasks one in
        let len = weigh-one tasks in
        let g = ap (λ b. weigh one (if b then tasks else [])) full in
        let k = ap (λ b. length (if b then tasks else [])) full in
        let a = at-total did c.at n i lt in
        let p = r.counted in
        let f = r.few in (omega (arith, all, len, g, k, a, p, e), omega (arith, k, p, f), full)
    | inr not_yet ↦
        let all = h.all_tasks one in
        let g = ap (λ b. weigh one (if b then tasks else [])) not_yet in
        let a = at-total did c.at n i lt in let f = r.few in absurd (omega (arith, all, g, a, f, e))
  ]

  pub step_at-Reports :
      {n : ℕ} {tasks : List T} {c : Crew T} (i victim : ℕ) (pc : Pc T)
      → length tasks < 2 ^ 31
      → i < n
      → c.at i ≡ pc
      → Holds n tasks c
      → Reports n tasks c
      → Reports n tasks (step_at n c i victim pc)
  unfolding step_at did
  step_at-Reports {n} {c = c} i victim Pc.popping few lt e h r =
      elim (option_cases (try_pop (c.pools.local_queues i)).0) [
        | inl nothing ↦
            rw (step_at, nothing)
              (same-Reports _ (Pc.stealing n) r lt (sym (ap did e)) refl refl refl refl refl refl)
        | inr (t, something) ↦
            let a = total-update did c.at n i Pc.reporting lt in
            let x = weigh-append one c.executed (t ∷ []) in
            let z = ap did e in
            let old = r.counted in
            let f = r.few in
            rw (step_at, something)
              (record {
                counted = omega (arith, a, x, z, old);
                few = omega (arith, a, x, z, f);
                notified = r.notified;
                stopped = r.stopped;
              })
      ]
  step_at-Reports {n} {c = c} i victim Pc.reporting few lt e h r =
      let (some_left, all, full) = Reports-pending h r lt (ap did e) in
      let a = total-update did c.at n i Pc.popping lt in
      let z = ap did e in
      let old = r.counted in
      let f = r.few in
      let told = r.notified in
      let less : sub32 c.pending_tasks 1 ≡ c.pending_tasks - 1 =
        omega (arith, some_left, all, few) in
      record {
        counted = omega (arith, a, z, old, less, some_left);
        few = omega (arith, a, z, f);
        notified =
            rw (less, full) (let before = rw full at told in ground (arith, before, some_left));
        stopped = λ s. let over = (r.stopped s).1 in absurd (omega (arith, over, some_left));
      }
  step_at-Reports i victim (Pc.stealing zero) few lt e h r =
      same-Reports _ Pc.fetching r lt (sym (ap did e)) refl refl refl refl refl refl
  step_at-Reports {c = c} i victim (Pc.stealing (suc rounds)) few lt e h r =
      elim (Bool-cases (victim == i)) [
        | inl own ↦ rw own (
            same-Reports _ (Pc.stealing rounds) r lt (sym (ap did e)) refl refl refl refl refl refl)
        | inr apart ↦ elim (option_cases (try_steal (c.pools.local_queues victim)).0) [
          | inl nothing ↦
              rw (step_at, apart, nothing)
                (same-Reports _ (Pc.stealing rounds) r lt (sym (ap did e)) refl refl refl refl refl
                  refl)
          | inr (t, something) ↦
              rw (step_at, apart, something)
                (same-Reports _ (Pc.pushing t) r lt (sym (ap did e)) refl refl refl refl refl refl)
        ]
      ]
  step_at-Reports i victim (Pc.pushing t) few lt e h r =
      same-Reports _ Pc.popping r lt (sym (ap did e)) refl refl refl refl refl refl
  step_at-Reports {n} {tasks} {c} i victim Pc.fetching few lt e h r =
      let cnt = min (length c.pools.global_queue) 512 in
      let nothing = sym (ap did e) in
      by_cases (Reports n tasks) c.locked c _ (λ blocked. r)
        (λ not_blocked.
          by_cases (Reports n tasks) (cnt == 0) _ _
            (λ none_there. same-Reports _ Pc.stopping r lt nothing refl refl refl refl refl refl)
            (λ some_there.
              same-Reports _ (Pc.moving cnt) r lt nothing refl refl refl refl refl refl))
  step_at-Reports i victim (Pc.moving zero) few lt e h r =
      same-Reports _ Pc.popping r lt (sym (ap did e)) refl refl refl refl refl refl
  step_at-Reports {c = c} i victim (Pc.moving (suc rounds)) few lt e h r =
      elim (list_cases c.pools.global_queue) [
        | inl none_there ↦
            rw (step_at, none_there)
              (same-Reports _ Pc.popping r lt (sym (ap did e)) refl refl refl refl refl refl)
        | inr (t, global, some_there) ↦
            rw (step_at, some_there)
              (same-Reports _ (Pc.moving rounds) r lt (sym (ap did e)) refl refl refl refl refl
                refl)
      ]
  step_at-Reports {c = c} i victim Pc.stopping few lt e h r =
      same-Reports _ (if c.stop then Pc.done else Pc.popping) r lt
        (if-did c.stop Pc.done Pc.popping refl refl ∙ sym (ap did e)) refl refl refl refl refl refl
  step_at-Reports i victim Pc.done few lt e h r = r
