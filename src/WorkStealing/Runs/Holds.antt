-- ===== src/WorkStealing/Runs/Holds.antt =====
-- Every step of a worker leaves every task in one place.
use server_study.Prelude.{
  length, ◌≤◌, ℕ, ◌+◌, ◌^◌, ◌<◌, ◌≡◌, refl, ap, subst, inl, inr, Bool, true, false, List, [], Array,
  update, ◌==◌, if◌then◌else◌, weigh, total, total-update, total-same, update_same, arith,
  Bool-cases,
}
use server_study.WorkStealing.{WorkerQueue}
use server_study.WorkStealing.Contents.{IsValid, contents}
use server_study.WorkStealing.Runs.{Pc, Crew}

module _ {T : Type 0} (f : T → ℕ) where
  abbrev pub holding : WorkerQueue T → ℕ
  holding q = weigh f (contents q)

  -- A stolen task on its way.
  unfoldable pub carried : Pc T → ℕ
  carried (Pc.pushing t) = f t
  carried _ = 0

module _ {T : Type 0} where
  -- The own queue is empty from the failed pop to Try_pop_global, whose loop then has room for all it is to move.
  abbrev pub Calm : Pc T → WorkerQueue T → Type 0
  Calm (Pc.stealing rounds) q = contents q ≡ []
  Calm (Pc.pushing t) q = contents q ≡ []
  Calm Pc.fetching q = contents q ≡ []
  Calm (Pc.moving rounds) q = length (contents q) + rounds ≤ 512
  Calm _ q = true ≡ true

  abbrev pub given : Crew T → List T → List T
  given c tasks = if c.filled then tasks else []

  -- Every task that there is has run, or is in a queue or in a worker's hands, once.
  pub record Holds (n : ℕ) (tasks : List T) (c : Crew T) : Type 0 where
    pub valid : (i : ℕ) → IsValid (c.pools.local_queues i)
    pub calm : (i : ℕ) → Calm (c.at i) (c.pools.local_queues i)
    pub all_tasks :
        (f : T → ℕ)
        → weigh f c.executed
            + weigh f c.pools.global_queue
            + total (holding f) c.pools.local_queues n
            + total (carried f) c.at n
          ≡ weigh f (given c tasks)

  -- The tail of a queue is not near 2^64.
  abbrev pub Small : WorkerQueue T → Type 0
  Small q = q.tail + 512 < 2 ^ 64

  pub by_cases :
      (P : Crew T → Type 0) (b : Bool) (c c' : Crew T)
      → (b ≡ true → P c)
      → (b ≡ false → P c')
      → P (if b then c else c')
  by_cases P true c c' yes_case no_case = yes_case refl
  by_cases P false c c' yes_case no_case = no_case refl

  pub IsValid-update :
      (qs : Array (WorkerQueue T)) (i : ℕ) (q : WorkerQueue T) (j : ℕ)
      → ((k : ℕ) → IsValid (qs k))
      → IsValid q
      → IsValid (update qs i q j)
  IsValid-update qs i q j all v = elim (Bool-cases (j == i)) [
    | inl same ↦ rw same v
    | inr other ↦ rw other (all j)
  ]

  pub Calm-update :
      (at : Array (Pc T)) (qs : Array (WorkerQueue T)) (i : ℕ) (pc : Pc T) (q : WorkerQueue T)
      (j : ℕ)
      → ((k : ℕ) → Calm (at k) (qs k))
      → Calm pc q
      → Calm (update at i pc j) (update qs i q j)
  Calm-update at qs i pc q j all c = elim (Bool-cases (j == i)) [
    | inl same ↦ rw same c
    | inr other ↦ rw other (all j)
  ]

  -- A worker goes on, with a new queue of its own.
  pub own-Holds :
      {n : ℕ} {tasks : List T} {c : Crew T} {i : ℕ} (c' : Crew T) (pc : Pc T) (q : WorkerQueue T)
      → Holds n tasks c
      → i < n
      → c'.filled ≡ c.filled
      → ((j : ℕ) → c'.pools.local_queues j ≡ update c.pools.local_queues i q j)
      → ((j : ℕ) → c'.at j ≡ update c.at i pc j)
      → IsValid q
      → Calm pc q
      → ((f : T → ℕ)
          → weigh f c'.executed + weigh f c'.pools.global_queue + holding f q + carried f pc
            ≡ weigh f c.executed
              + weigh f c.pools.global_queue
              + holding f (c.pools.local_queues i)
              + carried f (c.at i))
      → Holds n tasks c'
  own-Holds {n} {tasks} {c} {i} c' pc q h lt fill e d v calm same =
      let qs = c.pools.local_queues in
      record {
        valid = λ j. rw (e j) (IsValid-update qs i q j h.valid v);
        calm = λ j. rw (e j, d j) (Calm-update c.at qs i pc q j h.calm calm);
        all_tasks = λ f.
            let old = h.all_tasks f in
            let a = total-update (holding f) qs n i q lt in
            let b = total-update (carried f) c.at n i pc lt in
            let here = same f in
            let x =
              total-same (holding f) c'.pools.local_queues (update qs i q) n
                (λ j. ap (holding f) (e j)) in
            let y = total-same (carried f) c'.at (update c.at i pc) n (λ j. ap (carried f) (d j)) in
            rw fill (omega (arith, old, a, b, here, x, y));
      }

  -- A worker goes on, and its queue stays.
  pub goes-Holds :
      {n : ℕ} {tasks : List T} {c : Crew T} {i : ℕ} (c' : Crew T) (pc : Pc T)
      → Holds n tasks c
      → i < n
      → c'.filled ≡ c.filled
      → c'.pools ≡ c.pools
      → c'.at ≡ update c.at i pc
      → c'.executed ≡ c.executed
      → Calm pc (c.pools.local_queues i)
      → ((f : T → ℕ) → carried f pc ≡ carried f (c.at i))
      → Holds n tasks c'
  goes-Holds {c = c} {i = i} c' pc h lt fill e d x calm same =
      let qs = c.pools.local_queues in
      own-Holds c' pc (qs i) h lt fill (λ j. rw e (update_same qs i (qs i) refl j)) (λ j. rw d refl)
        (h.valid i) calm (λ f. let s = same f in rw (e, x) (omega (arith, s)))

  pub if-Calm :
      (b : Bool) (pc pc' : Pc T) (q : WorkerQueue T)
      → Calm pc q
      → Calm pc' q
      → Calm (if b then pc else pc') q
  if-Calm true pc pc' q h k = h
  if-Calm false pc pc' q h k = k

  pub if-carried :
      (f : T → ℕ) (b : Bool) (pc pc' : Pc T)
      → carried f pc ≡ 0
      → carried f pc' ≡ 0
      → carried f (if b then pc else pc') ≡ 0
  if-carried f true pc pc' h k = h
  if-carried f false pc pc' h k = k

  pub Calm-at :
      {n : ℕ} {tasks : List T} {c : Crew T} {i : ℕ} {pc : Pc T}
      → Holds n tasks c
      → c.at i ≡ pc
      → Calm pc (c.pools.local_queues i)
  Calm-at {c = c} {i = i} h e = subst (λ pc. Calm pc (c.pools.local_queues i)) e (h.calm i)
