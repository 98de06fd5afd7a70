-- ===== src/WorkStealing/Contents.antt =====
-- WorkerQueue as a double-ended queue of its contents.
use server_study.Prelude.{
  length, length-window, ◌+◌, ◌-◌, ◌%◌, ◌^◌, ◌≤◌, ◌<◌, ◌≡◌, refl, ap, ◌∙◌, ◌⊎◌, inl, inr, none,
  some, List, [], ◌∷◌, ◌++◌, update, add64, sub64, window, window_last, window_first, window-put,
  arith, ℕ_discrete, ≢→==, ==_iff,
}
use server_study.WorkStealing.{capacity, WorkerQueue, push, try_pop, try_steal}

-- The indices are in order, no more than the capacity apart, and have not wrapped.
pub record IsValid {T : Type 0} (q : WorkerQueue T) : Type 0 where
  pub ordered : q.head ≤ q.tail
  pub fits : q.tail ≤ q.head + capacity
  pub no_wrap : q.tail < 2 ^ 64

module _ {T : Type 0} where
  -- The tasks in the order of their pushes.
  abbrev pub contents : WorkerQueue T → List T
  contents q = window q.tasks capacity q.head (q.tail - q.head)

  -- A push on a queue with room puts the task at the end.
  pub contents-push :
      (q : WorkerQueue T) (task : T)
      → IsValid q
      → q.tail < q.head + capacity
      → q.tail + 1 < 2 ^ 64
      → IsValid (push q task) × (contents (push q task) ≡ contents q ++ task ∷ [])
  unfolding push
  contents-push q task v room small = (
    record { ordered = omega arith; fits = omega arith; no_wrap = omega arith },
    ap (window (update q.tasks (q.tail % capacity) task) capacity q.head)
          (let e : (q.tail + 1) % 2 ^ 64 - q.head ≡ q.tail + 1 - q.head = omega arith in e)
        ∙ window-put q.tasks capacity q.head q.tail task v.ordered room,
  )

  pub length-contents : (q : WorkerQueue T) → length (contents q) ≡ q.tail - q.head
  length-contents q = length-window q.tasks capacity q.head (q.tail - q.head)

  -- try_pop fails on the empty queue, changing nothing, and otherwise takes the last task off.
  pub contents-try_pop :
      (q : WorkerQueue T)
      → IsValid q
      → ((contents q ≡ []) × (try_pop q ≡ (none, q)))
        ⊎ ((task : T) × ((try_pop q).0 ≡ some task)
            × (contents q ≡ contents (try_pop q).1 ++ task ∷ [])
            × IsValid (try_pop q).1)
  unfolding try_pop
  contents-try_pop q v = elim (ℕ_discrete q.head q.tail) [
    | yes same ↦ inl (
      ap (window q.tasks capacity q.head) (let e : q.tail - q.head ≡ 0 = omega arith in e),
      rw ((==_iff _ _).1 same) refl,
    )
    | no differ ↦
        let e : sub64 q.tail 1 ≡ q.tail - 1 = omega arith in
        inr (
          q.tasks ((q.tail - 1) % capacity),
          rw (≢→== _ _ differ, e),
          rw (≢→== _ _ differ, e) (window_last q.tasks capacity q.head q.tail (omega arith)),
          rw (≢→== _ _ differ, e)
              (record { ordered = omega arith; fits = omega arith; no_wrap = omega arith }),
        )
  ]

  -- try_steal fails on the empty queue, changing nothing, and otherwise takes the first task off.
  pub contents-try_steal :
      (q : WorkerQueue T)
      → IsValid q
      → ((contents q ≡ []) × (try_steal q ≡ (none, q)))
        ⊎ ((task : T) × ((try_steal q).0 ≡ some task)
            × (contents q ≡ task ∷ contents (try_steal q).1)
            × IsValid (try_steal q).1)
  unfolding try_steal
  contents-try_steal q v = elim (ℕ_discrete q.head q.tail) [
    | yes same ↦ inl (
      ap (window q.tasks capacity q.head) (let e : q.tail - q.head ≡ 0 = omega arith in e),
      rw ((==_iff _ _).1 same) refl,
    )
    | no differ ↦
        let e : add64 q.head 1 ≡ q.head + 1 = omega arith in
        inr (
          q.tasks (q.head % capacity),
          rw (≢→== _ _ differ),
          rw (≢→== _ _ differ, e) (window_first q.tasks capacity q.head q.tail (omega arith)),
          rw (≢→== _ _ differ, e)
              (record { ordered = omega arith; fits = omega arith; no_wrap = omega arith }),
        )
  ]
