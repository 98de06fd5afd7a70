-- ===== src/WorkStealing/Runs/Steps.antt =====
-- What a step of a worker does with the tasks.
use server_study.Prelude.{
  ◌⊎◌, length-append, ℕ, zero, suc, ◌<◌, ◌≡◌, refl, ap, sym, subst, ◌∙◌, inl, inr, false, Option,
  List, [], ◌∷◌, update, ◌==◌, if◌then◌else◌, length, min, weigh, weigh-append, total-update, arith,
  Bool-cases,
}
use server_study.WorkStealing.{WorkerQueue, try_pop}
use server_study.WorkStealing.Contents.{
  length-contents, IsValid, contents, contents-push, contents-try_pop, contents-try_steal,
}
use server_study.WorkStealing.Runs.{Pc, Crew, step_at}
use server_study.WorkStealing.Runs.Holds.{
  holding, carried, Calm, Holds, Small, by_cases, IsValid-update, own-Holds, goes-Holds, if-Calm,
  if-carried, Calm-at,
}

module _ {T : Type 0} where
  robbed-Calm :
      (pc : Pc T) (v v' : WorkerQueue T) (t : T)
      → contents v ≡ t ∷ contents v'
      → Calm pc v
      → Calm pc v'
  robbed-Calm Pc.popping v v' t e c = refl
  robbed-Calm Pc.reporting v v' t e c = refl
  robbed-Calm (Pc.stealing rounds) v v' t e c = absurd (omega (arith, ap length (sym e ∙ c)))
  robbed-Calm (Pc.pushing u) v v' t e c = absurd (omega (arith, ap length (sym e ∙ c)))
  robbed-Calm Pc.fetching v v' t e c = absurd (omega (arith, ap length (sym e ∙ c)))
  robbed-Calm (Pc.moving rounds) v v' t e c = omega (arith, ap length e, c)
  robbed-Calm Pc.stopping v v' t e c = refl
  robbed-Calm Pc.done v v' t e c = refl

  pub list_cases : (l : List T) → (l ≡ []) ⊎ ((t : T) × (ts : List T) × (l ≡ t ∷ ts))
  list_cases [] = inl refl
  list_cases (t ∷ ts) = inr (t, ts, refl)

  -- A worker whose queue is empty takes a task from another into its hands.
  steal-Holds :
      {n : ℕ} {tasks : List T} {c : Crew T} {i : ℕ} (c' : Crew T) (v : ℕ) (v' : WorkerQueue T)
      (t : T)
      → Holds n tasks c
      → i < n
      → v < n
      → (v == i) ≡ false
      → ((f : T → ℕ) → carried f (c.at i) ≡ 0)
      → contents (c.pools.local_queues i) ≡ []
      → IsValid v'
      → contents (c.pools.local_queues v) ≡ t ∷ contents v'
      → c'.filled ≡ c.filled
      → c'.executed ≡ c.executed
      → c'.pools ≡ record c.pools { local_queues = update c.pools.local_queues v v' }
      → c'.at ≡ update c.at i (Pc.pushing t)
      → Holds n tasks c'
  unfolding carried
  steal-Holds {n} {tasks} {c} {i} c' v v' t h lt vt apart free empty v_valid split fill x e d =
      let qs = c.pools.local_queues in
      record {
        valid = λ j. rw e (IsValid-update qs v v' j h.valid v_valid);
        calm = λ j. elim (Bool-cases (j == v)) [
          | inl at_v ↦
              let jv : j ≡ v = ground arith in
              let other : (j == i) ≡ false = ground arith in
              rw (e, d, at_v, other)
                (robbed-Calm (c.at j) (qs v) v' t split
                  (subst (λ k. Calm (c.at j) (qs k)) jv (h.calm j)))
          | inr no_v ↦ elim (Bool-cases (j == i)) [
            | inl at_i ↦
                let ji : i ≡ j = ground arith in
                rw (e, d, no_v, at_i) (subst (λ k. contents (qs k) ≡ []) ji empty)
            | inr other ↦ rw (e, d, no_v, other) (h.calm j)
          ]
        ];
        all_tasks = λ f.
            let old = h.all_tasks f in
            let a = total-update (holding f) qs n v v' vt in
            let b = total-update (carried f) c.at n i (Pc.pushing t) lt in
            let first = ap (weigh f) split in
            let none_yet = free f in rw (fill, x, e, d) (omega (arith, old, a, b, first, none_yet));
      }

  pub step_at-Holds :
      {n : ℕ} {tasks : List T} {c : Crew T} (i victim : ℕ) (pc : Pc T)
      → i < n
      → victim < n
      → Small (c.pools.local_queues i)
      → c.at i ≡ pc
      → Holds n tasks c
      → Holds n tasks (step_at n c i victim pc)
  unfolding step_at carried
  step_at-Holds {n} {c = c} i victim Pc.popping lt vt small e h =
      let q = c.pools.local_queues i in
      let nothing = λ (f : T → ℕ). ap (carried f) e in
      elim (contents-try_pop q (h.valid i)) [
        | inl (empty, r) ↦
            rw (step_at, ap (λ (x : Option T × WorkerQueue T). x.0) r)
              (goes-Holds _ (Pc.stealing n) h lt refl refl refl refl empty (λ f. sym (nothing f)))
        | inr (t, r, split, v) ↦
            rw (step_at, r)
              (own-Holds _ Pc.reporting _ h lt refl (λ j. refl) (λ j. refl) v refl
                (λ f.
                  let a = ap (weigh f) split in
                  let b = weigh-append f (contents (try_pop q).1) (t ∷ []) in
                  let x = weigh-append f c.executed (t ∷ []) in
                  let z = nothing f in omega (arith, a, b, x, z)))
      ]
  step_at-Holds i victim Pc.reporting lt vt small e h =
      goes-Holds _ Pc.popping h lt refl refl refl refl refl (λ f. sym (ap (carried f) e))
  step_at-Holds i victim (Pc.stealing zero) lt vt small e h =
      goes-Holds _ Pc.fetching h lt refl refl refl refl (Calm-at h e) (λ f. sym (ap (carried f) e))
  step_at-Holds {c = c} i victim (Pc.stealing (suc rounds)) lt vt small e h =
      let empty = Calm-at h e in
      let nothing = λ (f : T → ℕ). ap (carried f) e in
      elim (Bool-cases (victim == i)) [
        | inl own ↦ rw own (
            goes-Holds _ (Pc.stealing rounds) h lt refl refl refl refl empty (λ f. sym (nothing f)))
        | inr apart ↦ elim (contents-try_steal (c.pools.local_queues victim) (h.valid victim)) [
          | inl (none_there, r) ↦
              rw (step_at, apart, ap (λ (x : Option T × WorkerQueue T). x.0) r)
                (goes-Holds _ (Pc.stealing rounds) h lt refl refl refl refl empty
                  (λ f. sym (nothing f)))
          | inr (t, r, split, v) ↦
              rw (step_at, apart, r)
                (steal-Holds _ victim _ t h lt vt apart nothing empty v split refl refl refl refl)
        ]
      ]
  step_at-Holds {c = c} i victim (Pc.pushing t) lt vt small e h =
      let q = c.pools.local_queues i in
      let empty = Calm-at h e in
      let v = h.valid i in
      let len = length-contents q in
      let zero_lem = ap length empty in
      let (v', more) =
        contents-push q t v (omega (arith, v, len, zero_lem)) (omega (arith, small)) in
      own-Holds _ Pc.popping _ h lt refl (λ j. refl) (λ j. refl) v' refl
        (λ f.
          let a = ap (weigh f) more in
          let b = weigh-append f (contents q) (t ∷ []) in
          let z = ap (carried f) e in omega (arith, a, b, z))
  step_at-Holds {n} {tasks} {c} i victim Pc.fetching lt vt small e h =
      let q = c.pools.local_queues i in
      let cnt = min (length c.pools.global_queue) 512 in
      let zero_lem = ap length (Calm-at h e) in
      let nothing = λ (f : T → ℕ). sym (ap (carried f) e) in
      by_cases (Holds n tasks) c.locked c _ (λ blocked. h)
        (λ not_blocked.
          by_cases (Holds n tasks) (cnt == 0) _ _
            (λ none_there. goes-Holds _ Pc.stopping h lt refl refl refl refl refl nothing)
            (λ some_there.
              goes-Holds _ (Pc.moving cnt) h lt refl refl refl refl (omega (arith, zero_lem))
                nothing))
  step_at-Holds {c = c} i victim (Pc.moving zero) lt vt small e h =
      goes-Holds _ Pc.popping h lt refl refl refl refl refl (λ f. sym (ap (carried f) e))
  step_at-Holds {c = c} i victim (Pc.moving (suc rounds)) lt vt small e h =
      elim (list_cases c.pools.global_queue) [
        | inl none_there ↦
            rw (step_at, none_there)
              (goes-Holds _ Pc.popping h lt refl refl refl refl refl (λ f. sym (ap (carried f) e)))
        | inr (t, global, some_there) ↦
            let q = c.pools.local_queues i in
            let room = Calm-at h e in
            let v = h.valid i in
            let len = length-contents q in
            let (v', more) =
              contents-push q t v (omega (arith, v, len, room)) (omega (arith, small)) in
            let grown = length-append (contents q) (t ∷ []) in
            rw (step_at, some_there)
              (own-Holds _ (Pc.moving rounds) _ h lt refl (λ j. refl) (λ j. refl) v'
                (omega (arith, ap length more, grown, room))
                (λ f.
                  let a = ap (weigh f) more in
                  let b = weigh-append f (contents q) (t ∷ []) in
                  let g = ap (weigh f) some_there in
                  let z = ap (carried f) e in omega (arith, a, b, g, z)))
      ]
  step_at-Holds {c = c} i victim Pc.stopping lt vt small e h =
      goes-Holds _ (if c.stop then Pc.done else Pc.popping) h lt refl refl refl refl
        (if-Calm c.stop Pc.done Pc.popping (c.pools.local_queues i) refl refl)
        (λ f. if-carried f c.stop Pc.done Pc.popping refl refl ∙ sym (ap (carried f) e))
  step_at-Holds i victim Pc.done lt vt small e h = h
