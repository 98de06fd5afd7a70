-- ===== src/Scheduler/Runs/Reports.antt =====
-- What pending_tasks_ counts while the workers run.
use server_study.Prelude.{
  one, weigh, weigh-one, ℕ, ◌+◌, ◌-◌, ◌^◌, ◌<◌, ◌≤◌, ◌≡◌, ap, Bool, true, false, List, Array,
  update, ◌==◌, if◌then◌else◌, length, total, total-update, at-total, total-same, arith,
}
use server_study.Scheduler.{Worker}
use server_study.Scheduler.Runs.{Pc, Pool, widen, report}
use server_study.Scheduler.Runs.Holds.{Holds}

-- A task of RunSimple that is not yet reported.
unfoldable pub did : Pc → ℕ
did Pc.simple_did = 1
did _ = 0

pub if-did : (b : Bool) (pc pc' : Pc) → did pc ≡ 0 → did pc' ≡ 0 → did (if b then pc else pc') ≡ 0
if-did true pc pc' h k = h
if-did false pc pc' h k = k

pub did-update :
    (at : Array Pc) (i : ℕ) (pc : Pc)
    → did pc ≡ did (at i)
    → (j : ℕ) → did (update at i pc j) ≡ did (at j)
did-update at i pc e j = ground arith

module _ {T : Type 0} where
  abbrev pub did_here : Worker T → ℕ
  did_here w = w.task_did

  -- The count is that of the tasks that have not run and of those that are not yet reported; one
  -- notification comes with the last report, and main stops the workers after that.
  pub record Reports (n : ℕ) (tasks : List T) (p : Pool T) : Type 0 where
    pub counted :
        p.pending_tasks + weigh one p.executed
        ≡ length tasks + total did_here p.workers n + total did p.at n
    pub few : total did_here p.workers n + total did p.at n ≤ weigh one p.executed
    pub notified : p.notified ≡ (if p.pending_tasks == 0 then 1 else 0)
    pub stopped : p.stop ≡ true → p.pending_tasks ≡ 0

  pub same-Reports :
      {n : ℕ} {tasks : List T} {p : Pool T} (p' : Pool T)
      → Reports n tasks p
      → ((j : ℕ) → (p'.workers j).task_did ≡ (p.workers j).task_did)
      → ((j : ℕ) → did (p'.at j) ≡ did (p.at j))
      → p'.pending_tasks ≡ p.pending_tasks
      → p'.notified ≡ p.notified
      → p'.stop ≡ p.stop
      → p'.executed ≡ p.executed
      → Reports n tasks p'
  same-Reports {n} {tasks} {p} p' r e d pend notif stop ex =
      let a = total-same did_here p'.workers p.workers n e in
      let b = total-same did p'.at p.at n d in
      record {
        counted = rw (pend, ex, a, b) r.counted;
        few = rw (ex, a, b) r.few;
        notified = rw (notif, pend) r.notified;
        stopped = rw (stop, pend) r.stopped;
      }

  pub own-Reports :
      {n : ℕ} {tasks : List T} {p : Pool T} {i : ℕ} (p' : Pool T) (pc : Pc) (w : Worker T)
      → Reports n tasks p
      → i < n
      → ((j : ℕ) → p'.workers j ≡ update p.workers i w j)
      → ((j : ℕ) → p'.at j ≡ update p.at i pc j)
      → p'.pending_tasks + weigh one p'.executed + (p.workers i).task_did + did (p.at i)
        ≡ p.pending_tasks + weigh one p.executed + w.task_did + did pc
      → w.task_did + did pc + weigh one p.executed
        ≤ (p.workers i).task_did + did (p.at i) + weigh one p'.executed
      → p'.notified ≡ (if p'.pending_tasks == 0 then 1 else 0)
      → (p'.stop ≡ true → p'.pending_tasks ≡ 0)
      → Reports n tasks p'
  own-Reports {n} {tasks} {p} {i} p' pc w r lt e d count few notif stop =
      let a = total-same did_here p'.workers (update p.workers i w) n (λ j. ap did_here (e j)) in
      let b = total-same did p'.at (update p.at i pc) n (λ j. ap did (d j)) in
      let c = total-update did_here p.workers n i w lt in
      let g = total-update did p.at n i pc lt in
      let old = r.counted in
      let old_few = r.few in
      record {
        counted = omega (arith, a, b, c, g, old, count);
        few = omega (arith, a, b, c, g, old_few, few);
        notified = notif;
        stopped = stop;
      }

  -- What is to be reported is pending.
  pub Reports-pending :
      {n : ℕ} {tasks : List T} {p : Pool T} {i : ℕ}
      → Holds n tasks p
      → Reports n tasks p
      → i < n
      → ((p.workers i).task_did + did (p.at i) ≤ p.pending_tasks)
        × (p.pending_tasks ≤ length tasks)
        × ((p.workers i).task_did ≤ length tasks)
  Reports-pending {n} {tasks} {p} {i} h r lt =
      let all = h.all_tasks one in
      let len = weigh-one tasks in
      let a = at-total did_here p.workers n i lt in
      let b = at-total did p.at n i lt in
      let c = r.counted in
      let f = r.few in
      (omega (arith, all, len, a, b, c, f), omega (arith, c, f), omega (arith, all, len, a, f))

  pub report_lem :
      (p : Pool T) (d : ℕ)
      → 0 < d
      → d ≤ p.pending_tasks
      → p.pending_tasks < 2 ^ 31
      → p.notified ≡ (if p.pending_tasks == 0 then 1 else 0)
      → ((report p d).pending_tasks ≡ p.pending_tasks - d)
        × ((report p d).notified ≡ (if (report p d).pending_tasks == 0 then 1 else 0))
  unfolding report widen
  report_lem p d h k l m =
      let less : (report p d).pending_tasks ≡ p.pending_tasks - d = omega (arith, h, k, l) in
      let wide : widen p.pending_tasks ≡ p.pending_tasks = ground arith in
      (less, rw (less, wide) (ground (arith, h, k, m)))
