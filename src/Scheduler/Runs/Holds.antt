-- ===== src/Scheduler/Runs/Holds.antt =====
-- Which tasks the workers hold while they run.
use server_study.Prelude.{
  weigh, weigh-append, weigh-parts, ℕ, ◌+◌, ◌^◌, ◌<◌, ◌≡◌, refl, ap, inl, inr, Bool, true, false,
  List, [], ◌∷◌, ◌++◌, Array, update, ◌==◌, if◌then◌else◌, ltb, length, min, ◌⊎◌, take, drop, total,
  total-update, total-same, update_same, arith, Bool-cases,
}
use server_study.Scheduler.{Worker}
use server_study.Scheduler.Contents.{IsValid, queued, buffered}
use server_study.Scheduler.Runs.{Pc, Pool}

module _ {T : Type 0} (f : T → ℕ) where
  -- The tasks of a worker.
  abbrev pub holding : Worker T → ℕ
  holding w = weigh f (queued w) + weigh f (buffered w)

module _ {T : Type 0} where
  -- What a worker has run out of, when it is at a point of its loop.
  abbrev pub Calm : Pc → Worker T → Type 0
  Calm Pc.filling w = buffered w ≡ []
  Calm Pc.fetching w = queued w ≡ []
  Calm (Pc.stealing rounds) w = queued w ≡ []
  Calm _ w = true ≡ true

  -- Every task has run or is in the global queue or with a worker, once.
  pub record Holds (n : ℕ) (tasks : List T) (p : Pool T) : Type 0 where
    pub valid : (i : ℕ) → IsValid (p.workers i)
    pub calm : (i : ℕ) → Calm (p.at i) (p.workers i)
    pub all_tasks :
        (f : T → ℕ)
        → weigh f p.executed + weigh f p.global + total (holding f) p.workers n ≡ weigh f tasks

  -- The indices of a worker are not near 2^64.
  abbrev pub Small : Worker T → Type 0
  Small w = (w.queue_tail + 512 < 2 ^ 64) × (w.buffer_tail + 64 < 2 ^ 64)

  pub IsValid-update :
      (ws : Array (Worker T)) (i : ℕ) (w : Worker T) (j : ℕ)
      → ((k : ℕ) → IsValid (ws k))
      → IsValid w
      → IsValid (update ws i w j)
  IsValid-update ws i w j all v = elim (Bool-cases (j == i)) [
    | inl same ↦ rw same v
    | inr other ↦ rw other (all j)
  ]

  pub Calm-update :
      (at : Array Pc) (ws : Array (Worker T)) (i : ℕ) (pc : Pc) (w : Worker T) (j : ℕ)
      → ((k : ℕ) → Calm (at k) (ws k))
      → Calm pc w
      → Calm (update at i pc j) (update ws i w j)
  Calm-update at ws i pc w j all c = elim (Bool-cases (j == i)) [
    | inl same ↦ rw same c
    | inr other ↦ rw other (all j)
  ]

  -- A worker goes on, and takes or leaves tasks of the global queue or runs some.
  pub own-Holds :
      {n : ℕ} {tasks : List T} {p : Pool T} {i : ℕ} (p' : Pool T) (pc : Pc) (w : Worker T)
      → Holds n tasks p
      → i < n
      → ((j : ℕ) → p'.workers j ≡ update p.workers i w j)
      → ((j : ℕ) → p'.at j ≡ update p.at i pc j)
      → IsValid w
      → Calm pc w
      → ((f : T → ℕ)
          → weigh f p'.executed + weigh f p'.global + holding f w
            ≡ weigh f p.executed + weigh f p.global + holding f (p.workers i))
      → Holds n tasks p'
  own-Holds {n} {tasks} {p} {i} p' pc w h lt e d v c same = record {
    valid = λ j. rw (e j) (IsValid-update p.workers i w j h.valid v);
    calm = λ j. rw (e j, d j) (Calm-update p.at p.workers i pc w j h.calm c);
    all_tasks = λ f.
        let old = h.all_tasks f in
        let new = total-update (holding f) p.workers n i w lt in
        let here = same f in
        let moved =
          total-same (holding f) p'.workers (update p.workers i w) n (λ j. ap (holding f) (e j)) in
        omega (arith, old, new, here, moved);
  }

  -- A worker goes on, and nothing else changes.
  pub goes-Holds :
      {n : ℕ} {tasks : List T} {p : Pool T} {i : ℕ} (p' : Pool T) (pc : Pc)
      → Holds n tasks p
      → i < n
      → p'.workers ≡ p.workers
      → p'.at ≡ update p.at i pc
      → p'.global ≡ p.global
      → p'.executed ≡ p.executed
      → Calm pc (p.workers i)
      → Holds n tasks p'
  goes-Holds {p = p} {i = i} p' pc h lt e d g x c =
      own-Holds p' pc (p.workers i) h lt (λ j. rw e (update_same p.workers i (p.workers i) refl j))
        (λ j. rw d refl) (h.valid i) c (λ f. rw (g, x) refl)

  pub if-Calm :
      (b : Bool) (pc pc' : Pc) (w : Worker T)
      → Calm pc w
      → (b ≡ false → Calm pc' w)
      → Calm (if b then pc else pc') w
  if-Calm true pc pc' w h k = h
  if-Calm false pc pc' w h k = k refl

  pub no_first : (xs : List T) (n : ℕ) → n ≡ min (length xs) 64 → ltb 0 n ≡ false → xs ≡ []
  no_first [] n e z = refl
  no_first (x ∷ xs) n e z = absurd (ground (arith, e, z))

  pub list_cases : (xs : List T) → (xs ≡ []) ⊎ ((x : T) × (ys : List T) × (xs ≡ x ∷ ys))
  list_cases [] = inl refl
  list_cases (x ∷ xs) = inr (x, xs, refl)

  pub weigh_moved :
      (f : T → ℕ) (n : ℕ) (xs ys zs us : List T)
      → us ≡ xs ++ take n ys
      → zs ≡ drop n ys
      → weigh f us + weigh f zs ≡ weigh f xs + weigh f ys
  weigh_moved f n xs ys zs us e d =
      omega
        (arith, ap (weigh f) e, ap (weigh f) d, weigh-append f xs (take n ys), weigh-parts f n ys)
