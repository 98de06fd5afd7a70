-- ===== src/Scheduler/Runs/Steps.antt =====
-- Every step of a worker leaves every task in one place.
use server_study.Prelude.{
  weigh, weigh-append, ℕ, zero, suc, ◌<◌, ◌≤◌, ◌≡◌, refl, ap, ap₂, ◌∙◌, inl, inr, List, [], ◌∷◌,
  ◌++◌, update, ◌==◌, if◌then◌else◌, ltb, subst, drop-nil, take, drop, total-update, update_same,
  arith, Bool-cases,
}
use server_study.Scheduler.{Worker, get_next_task, fill_buffer, try_fetch_global, try_steal_from}
use server_study.Scheduler.Contents.{queued, buffered, get_next_task_lem}
use server_study.Scheduler.Transfer.{
  fill_buffer_lem, try_fetch_global_lem, try_steal_from_lem, Steals,
}
use server_study.Scheduler.Runs.{Pc, Pool, Outcome, step_at, report}
use server_study.Scheduler.Runs.Holds.{
  holding, Calm, Holds, Small, IsValid-update, own-Holds, goes-Holds, if-Calm, no_first, list_cases,
  weigh_moved,
}

module _ {T : Type 0} where
  robbed-Calm :
      (pc : Pc) (n : ℕ) (v v' : Worker T)
      → queued v' ≡ drop n (queued v)
      → buffered v' ≡ buffered v
      → Calm pc v
      → Calm pc v'
  robbed-Calm Pc.taking n v v' e d c = refl
  robbed-Calm Pc.filling n v v' e d c = d ∙ c
  robbed-Calm Pc.fetching n v v' e d c = e ∙ (ap (drop n) c ∙ drop-nil n)
  robbed-Calm (Pc.stealing rounds) n v v' e d c = e ∙ (ap (drop n) c ∙ drop-nil n)
  robbed-Calm Pc.stopping n v v' e d c = refl
  robbed-Calm Pc.reporting n v v' e d c = refl
  robbed-Calm Pc.simple n v v' e d c = refl
  robbed-Calm Pc.simple_did n v v' e d c = refl
  robbed-Calm Pc.done n v v' e d c = refl

  Calm-at :
      {n : ℕ} {tasks : List T} {p : Pool T} {i : ℕ} {pc : Pc}
      → Holds n tasks p
      → p.at i ≡ pc
      → Calm pc (p.workers i)
  Calm-at {p = p} {i = i} h e = subst (λ pc. Calm pc (p.workers i)) e (h.calm i)

  -- A worker whose ring is empty takes tasks from another, or none from itself.
  steal-Holds :
      {n : ℕ} {tasks : List T} {p : Pool T} {i : ℕ} (v : ℕ) (pc : Pc) (w' v' : Worker T) (cnt : ℕ)
      → Holds n tasks p
      → i < n
      → v < n
      → queued (p.workers i) ≡ []
      → Steals (p.workers i) (p.workers v) cnt (w', v')
      → Calm pc w'
      → (v ≡ i → Calm pc v')
      → Holds n tasks
          (record p { workers = update (update p.workers i w') v v'; at = update p.at i pc })
  steal-Holds {n} {tasks} {p} {i} v pc w' v' cnt h lt vt empty (w_valid, v_valid, r, left, b, c)
        calm self =
      let ws = p.workers in
      record {
        valid = λ j.
            IsValid-update (update ws i w') v v' j (λ k. IsValid-update ws i w' k h.valid w_valid)
              v_valid;
        calm = λ j. elim (Bool-cases (j == v)) [
          | inl at_v ↦
              let jv : j ≡ v = ground arith in
              elim (Bool-cases (j == i)) [
                | inl at_i ↦ rw (at_v, at_i) (self (ground arith))
                | inr other ↦
                    rw (at_v, other)
                      (robbed-Calm (p.at j) cnt (ws v) v' left c
                        (subst (λ k. Calm (p.at j) (ws k)) jv (h.calm j)))
              ]
          | inr no_v ↦ elim (Bool-cases (j == i)) [
            | inl at_i ↦ rw (no_v, at_i) calm
            | inr other ↦ rw (no_v, other) (h.calm j)
          ]
        ];
        all_tasks = λ f.
            let old = h.all_tasks f in
            let one = total-update (holding f) ws n i w' lt in
            let two = total-update (holding f) (update ws i w') n v v' vt in
            let moved =
              weigh_moved f cnt (queued (ws i)) (queued (ws v)) (queued v') (queued w') r left in
            let bi = ap (weigh f) b in
            let bv = ap (weigh f) c in
            elim (Bool-cases (v == i)) [
              | inl same ↦
                  let vi : v ≡ i = ground arith in
                  let now : holding f (update ws i w' v) ≡ holding f w' = rw same refl in
                  let hv = ap (λ k. weigh f (queued (ws k))) vi in
                  let hb = ap (λ k. weigh f (buffered (ws k))) vi in
                  let none_left = ap (weigh f) empty in
                  omega (arith, old, one, two, moved, bi, bv, now, hv, hb, none_left)
              | inr other ↦
                  let now : holding f (update ws i w' v) ≡ holding f (ws v) = rw other refl in
                  omega (arith, old, one, two, moved, bi, bv, now)
            ];
      }

  pub step_at-Holds :
      {n : ℕ} {tasks : List T} {p : Pool T} (attempts i : ℕ) (o : Outcome) (pc : Pc)
      → 2 ≤ n
      → i < n
      → o.victim < n
      → Small (p.workers i)
      → Small (p.workers o.victim)
      → p.at i ≡ pc
      → Holds n tasks p
      → Holds n tasks (step_at attempts n p i o pc)
  unfolding step_at report
  step_at-Holds {p = p} attempts i o Pc.taking two lt vt small v_small e h =
      elim (get_next_task_lem (p.workers i) (h.valid i) (omega (arith, small))) [
        | inl (nothing, empty, same) ↦
            rw (step_at, nothing) (goes-Holds _ Pc.filling h lt refl refl refl refl empty)
        | inr (t, something, first, same, v) ↦
            let w = (get_next_task (p.workers i)).1 in
            rw (step_at, something)
              (own-Holds _ Pc.taking _ h lt (λ j. refl) (update_same p.at i Pc.taking e)
                (record {
                  ordered = v.ordered;
                  fits = v.fits;
                  buffer_ordered = v.buffer_ordered;
                  buffer_fits = v.buffer_fits;
                })
                refl
                (λ f.
                  let out = weigh-append f p.executed (t ∷ []) in
                  let a = ap (weigh f) first in
                  let b = ap (weigh f) same in omega (arith, out, a, b)))
      ]
  step_at-Holds {n} {p = p} attempts i o Pc.filling two lt vt small v_small e h =
      let q = p.workers i in
      let empty = Calm-at h e in
      let (cnt, w) = fill_buffer q 64 in
      let (count, v, b, r) =
        fill_buffer_lem q 64 (h.valid i) empty (omega arith) (omega (arith, small))
          (omega (arith, small)) in
      own-Holds _ (if ltb 0 cnt then Pc.taking else Pc.fetching) w h lt (λ j. refl) (λ j. refl) v
        (if-Calm (ltb 0 cnt) Pc.taking Pc.fetching w refl
          (λ z. r ∙ (ap (drop cnt) (no_first (queued q) cnt count z) ∙ drop-nil cnt)))
        (λ f.
          let moved = weigh_moved f cnt [] (queued q) (queued w) (buffered w) b r in
          let none_left = ap (weigh f) empty in omega (arith, moved, none_left))
  step_at-Holds {n} {p = p} attempts i o Pc.fetching two lt vt small v_small e h =
      let q = p.workers i in
      let empty = Calm-at h e in
      let (cnt, w, global) = try_fetch_global n o.owns_lock o.owns_local q p.global 256 in
      let (count, few, v, r, b, g) =
        try_fetch_global_lem n o.owns_lock o.owns_local q p.global 256 (h.valid i) two
          (omega (arith, small)) in
      own-Holds _ (if ltb 0 cnt then Pc.taking else Pc.stealing attempts) w h lt (λ j. refl)
        (λ j. refl) v
        (if-Calm (ltb 0 cnt) Pc.taking (Pc.stealing attempts) w refl (λ z.
          let zero_lem : cnt ≡ 0 = ground arith in
          r ∙ ap₂ (λ l m. l ++ take m p.global) empty zero_lem))
        (λ f.
          let moved = weigh_moved f cnt (queued q) p.global global (queued w) r g in
          let same = ap (weigh f) b in omega (arith, moved, same))
  step_at-Holds attempts i o (Pc.stealing zero) two lt vt small v_small e h =
      goes-Holds _ Pc.stopping h lt refl refl refl refl refl
  step_at-Holds {n} {p = p} attempts i o (Pc.stealing (suc rounds)) two lt vt small v_small e h =
      let w = p.workers i in
      let v = p.workers o.victim in
      let empty = Calm-at h e in
      let (cnt, w', v') = try_steal_from o.owns_lock o.owns_local w v 256 in
      let (count, stolen) =
        try_steal_from_lem o.owns_lock o.owns_local w v 256 (h.valid i) (h.valid o.victim)
          (omega (arith, small)) (omega (arith, v_small)) in
      let (w_valid, v_valid, r, left, b, c) = stolen in
      steal-Holds o.victim (if ltb 0 cnt then Pc.taking else Pc.stealing rounds) w' v' cnt h lt vt
        empty stolen
        (if-Calm (ltb 0 cnt) Pc.taking (Pc.stealing rounds) w' refl (λ z.
          let zero_lem : cnt ≡ 0 = ground arith in
          r ∙ ap₂ (λ l m. l ++ take m (queued v)) empty zero_lem))
        (λ same. if-Calm (ltb 0 cnt) Pc.taking (Pc.stealing rounds) v' refl (λ z.
          left ∙ (ap (drop cnt) (ap (λ k. queued (p.workers k)) same ∙ empty) ∙ drop-nil cnt)))
  step_at-Holds {p = p} attempts i o Pc.stopping two lt vt small v_small e h =
      goes-Holds _ (if p.stop then Pc.done else Pc.reporting) h lt refl refl refl refl
        (if-Calm p.stop Pc.done Pc.reporting (p.workers i) refl (λ z. refl))
  step_at-Holds {p = p} attempts i o Pc.reporting two lt vt small v_small e h =
      let v = h.valid i in
      elim (Bool-cases (ltb 0 (p.workers i).task_did)) [
        | inl did ↦ rw did (
            own-Holds _ Pc.taking _ h lt (λ j. refl) (λ j. refl)
              (record {
                ordered = v.ordered;
                fits = v.fits;
                buffer_ordered = v.buffer_ordered;
                buffer_fits = v.buffer_fits;
              })
              refl (λ f. refl))
        | inr nothing ↦ rw nothing (goes-Holds _ Pc.taking h lt refl refl refl refl refl)
      ]
  step_at-Holds {p = p} attempts i o Pc.simple two lt vt small v_small e h =
      elim (list_cases p.global) [
        | inl nothing ↦
            rw (step_at, nothing)
              (goes-Holds _ (if p.stop then Pc.done else Pc.simple) h lt refl refl refl refl
                (if-Calm p.stop Pc.done Pc.simple (p.workers i) refl (λ z. refl)))
        | inr (t, global, something) ↦
            rw (step_at, something)
              (own-Holds _ Pc.simple_did (p.workers i) h lt
                (update_same p.workers i (p.workers i) refl) (λ j. refl) (h.valid i) refl
                (λ f.
                  let out = weigh-append f p.executed (t ∷ []) in
                  let first = ap (weigh f) something in omega (arith, out, first)))
      ]
  step_at-Holds attempts i o Pc.simple_did two lt vt small v_small e h =
      goes-Holds _ Pc.simple h lt refl refl refl refl refl
  step_at-Holds attempts i o Pc.done two lt vt small v_small e h = h
