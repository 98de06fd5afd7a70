-- ===== src/Scheduler/Transfer.antt =====
-- FillBuffer, TryFetchGlobal and TryStealFrom: which tasks move, and where to.
use server_study.Prelude.{
  ℕ, zero, suc, ◌+◌, ◌-◌, ◌/◌, ◌%◌, ◌^◌, ◌≤◌, ◌<◌, ◌≡◌, refl, ap, sym, subst, ◌∙◌, inl, inr, Bool,
  true, false, ◌&&◌, List, [], ◌∷◌, ◌++◌, update, ◌==◌, min, if◌then◌else◌, add64, sub64, ltb,
  length, window_first, window-put, take, drop, arith, Bool-cases,
}
use mathlib.Core.List.{append-nil, append_assoc}
use native.Mathlib.Nat.{div-lt_self}
use server_study.Scheduler.{
  queue_size, max_buffer_size, Worker, put, fill_rounds, fill_buffer, fetch_rounds, fetch_count,
  try_fetch_global, steal_rounds, steal_count, try_steal_from,
}
use server_study.Scheduler.Contents.{
  IsValid, queued, buffered, length-queued, length-buffered, put-queued,
}

-- A thread's share of the queue, and one more.
share_lem : (n threads : ℕ) → 1 ≤ n → 2 ≤ threads → n / threads + 1 ≤ n
share_lem n threads h k =
    omega (arith, div-lt_self {n = n} {k = threads} (omega arith) (omega arith))

if_same : (b : Bool) (n : ℕ) → 0 ≡ n → 0 ≡ (if b then n else 0)
if_same true n e = e
if_same false n e = refl

module _ {T : Type 0} where
  -- The oldest tasks of the ring go to the end of the buffer.
  abbrev Fills : Worker T → ℕ → Worker T → Type 0
  Fills w rounds w' =
      IsValid w'
      × (buffered w' ≡ buffered w ++ take rounds (queued w))
      × (queued w' ≡ drop rounds (queued w))

  -- The oldest tasks of the victim's ring go to the end of the thief's.
  abbrev pub Steals : Worker T → Worker T → ℕ → Worker T × Worker T → Type 0
  Steals w victim cnt (w', victim') =
      IsValid w'
      × IsValid victim'
      × (queued w' ≡ queued w ++ take cnt (queued victim))
      × (queued victim' ≡ drop cnt (queued victim))
      × (buffered w' ≡ buffered w)
      × (buffered victim' ≡ buffered victim)

  fill_rounds_lem :
      (rounds : ℕ) (w : Worker T)
      → IsValid w
      → rounds ≤ w.queue_tail - w.queue_head
      → w.buffer_tail + rounds ≤ w.buffer_head + max_buffer_size
      → w.queue_tail < 2 ^ 64
      → w.buffer_tail + rounds < 2 ^ 64
      → Fills w rounds (fill_rounds rounds w)
  unfolding fill_rounds
  fill_rounds_lem zero w v r b q t = (v, sym (append-nil (buffered w)), refl)
  fill_rounds_lem (suc rounds) w v r b q t =
      let e : (w.queue_head + 1) % 2 ^ 64 ≡ w.queue_head + 1 = omega arith in
      let f : (w.buffer_tail + 1) % 2 ^ 64 ≡ w.buffer_tail + 1 = omega arith in
      let task = w.queue (w.queue_head % queue_size) in
      let next = record w {
        buffer = update w.buffer (w.buffer_tail % max_buffer_size) task;
        buffer_tail = w.buffer_tail + 1;
        queue_head = w.queue_head + 1;
      } in
      let first = window_first w.queue queue_size w.queue_head w.queue_tail (omega arith) in
      let more =
        window-put w.buffer max_buffer_size w.buffer_head w.buffer_tail task v.buffer_ordered
          (omega arith) in
      let rest =
        fill_rounds_lem rounds next
          (record {
            ordered = omega arith;
            fits = omega (arith, v);
            buffer_ordered = omega (arith, v);
            buffer_fits = omega arith;
          })
          (omega arith) (omega arith) q (omega arith) in
      let step : fill_rounds rounds next ≡ fill_rounds (suc rounds) w = rw (e, f) refl in
      subst (Fills w (suc rounds)) step (
        rw first (
          rest.0,
          rest.1
              ∙ (ap (λ l. l ++ take rounds (queued next)) more
                  ∙ append_assoc (buffered w) (task ∷ []) (take rounds (queued next))),
          rest.2,
        ))

  -- With an empty buffer FillBuffer moves the oldest tasks of the ring, as many as there are but at
  -- most the batch size, which is no more than the buffer's, to the buffer, in their order.
  pub fill_buffer_lem :
      (w : Worker T) (batch_size : ℕ)
      → IsValid w
      → buffered w ≡ []
      → batch_size ≤ max_buffer_size
      → w.queue_tail < 2 ^ 64
      → w.buffer_tail + max_buffer_size < 2 ^ 64
      → let (cnt, w') = fill_buffer w batch_size in
        (cnt ≡ min (length (queued w)) batch_size)
        × IsValid w'
        × (buffered w' ≡ take cnt (queued w))
        × (queued w' ≡ drop cnt (queued w))
  unfolding fill_buffer
  fill_buffer_lem w batch_size v empty small q t =
      let e : sub64 w.queue_tail w.queue_head ≡ w.queue_tail - w.queue_head = omega (arith, v) in
      let none_left : w.buffer_tail - w.buffer_head ≡ 0 =
        sym (length-buffered w) ∙ ap length empty in
      let cnt = min (w.queue_tail - w.queue_head) batch_size in
      let moved =
        fill_rounds_lem cnt w v (omega arith) (omega (arith, v, none_left)) q (omega arith) in
      rw (e, length-queued w)
        (refl, moved.0, moved.1 ∙ ap (λ l. l ++ take cnt (queued w)) empty, moved.2)

  fetch_rounds_lem :
      (rounds : ℕ) (w : Worker T) (global : List T)
      → IsValid w
      → rounds ≤ length global
      → w.queue_tail + rounds ≤ w.queue_head + queue_size
      → w.queue_tail + rounds < 2 ^ 64
      → let (w', global') = fetch_rounds rounds w global in
        IsValid w'
        × (queued w' ≡ queued w ++ take rounds global)
        × (buffered w' ≡ buffered w)
        × (global' ≡ drop rounds global)
  unfolding fetch_rounds put
  fetch_rounds_lem zero w global v l r t = (v, sym (append-nil (queued w)), refl, refl)
  fetch_rounds_lem (suc rounds) w [] v l r t = absurd (omega arith)
  fetch_rounds_lem (suc rounds) w (task ∷ global) v l r t =
      let p = put-queued w task v (omega arith) (omega arith) in
      let rest =
        fetch_rounds_lem rounds (put w task) global p.0 (omega arith) (omega (arith, r, p.2))
          (omega (arith, p.2)) in
      (
        rest.0,
        rest.1
            ∙ (ap (λ l. l ++ take rounds global) p.1
                ∙ append_assoc (queued w) (task ∷ []) (take rounds global)),
        rest.2,
        rest.3,
      )

  -- With both locks and a task to fetch, more than one thread, and a ring whose indices are in order,
  -- TryFetchGlobal moves the first tasks of the global queue to the end of the ring, in their order:
  -- one more than the thread's share of them, but at most the batch size and what there is room for.
  -- It never asks an empty queue. Without a lock or a task it moves none.
  pub try_fetch_global_lem :
      (num_threads : ℕ) (owns_lock owns_local : Bool) (w : Worker T) (global : List T)
      (batch_size : ℕ)
      → IsValid w
      → 2 ≤ num_threads
      → w.queue_tail + queue_size < 2 ^ 64
      → let (cnt, w', global') =
          try_fetch_global num_threads owns_lock owns_local w global batch_size in
        (cnt ≡ (
          if owns_lock && ltb 0 (length global) && owns_local
          then min
              (length global / num_threads + 1)
              (min (queue_size - length (queued w)) batch_size)
          else 0))
        × (cnt ≤ length global)
        × IsValid w'
        × (queued w' ≡ queued w ++ take cnt global)
        × (buffered w' ≡ buffered w)
        × (global' ≡ drop cnt global)
  unfolding try_fetch_global fetch_count
  try_fetch_global_lem num_threads owns_lock owns_local w global batch_size v n t =
      elim (Bool-cases (owns_lock && ltb 0 (length global) && owns_local)) [
        | inr refused ↦ rw refused (refl, omega arith, v, sym (append-nil (queued w)), refl, refl)
        | inl taken ↦
            let some_left : 1 ≤ length global = ground arith in
            let room : sub64 queue_size (sub64 w.queue_tail w.queue_head)
                ≡ queue_size - (w.queue_tail - w.queue_head) =
              omega (arith, v) in
            let cnt =
              min (length global / num_threads + 1)
                (min (queue_size - (w.queue_tail - w.queue_head)) batch_size) in
            let share = share_lem (length global) num_threads some_left n in
            let moved =
              fetch_rounds_lem cnt w global v (omega (arith, share)) (omega (arith, v))
                (omega (arith, v)) in
            rw (taken, room, length-queued w)
              (refl, omega (arith, share), moved.0, moved.1, moved.2, moved.3)
      ]

  steal_rounds_lem :
      (rounds : ℕ) (w victim : Worker T)
      → IsValid w
      → IsValid victim
      → rounds ≤ victim.queue_tail - victim.queue_head
      → w.queue_tail + rounds ≤ w.queue_head + queue_size
      → w.queue_tail + rounds < 2 ^ 64
      → victim.queue_tail < 2 ^ 64
      → Steals w victim rounds (steal_rounds rounds w victim)
  unfolding steal_rounds put
  steal_rounds_lem zero w victim v u r h t k = (v, u, sym (append-nil (queued w)), refl, refl, refl)
  steal_rounds_lem (suc rounds) w victim v u r h t k =
      let e : (victim.queue_head + 1) % 2 ^ 64 ≡ victim.queue_head + 1 = omega arith in
      let task = victim.queue (victim.queue_head % queue_size) in
      let next = record victim { queue_head = victim.queue_head + 1 } in
      let first =
        window_first victim.queue queue_size victim.queue_head victim.queue_tail (omega arith) in
      let p = put-queued w task v (omega arith) (omega arith) in
      let rest =
        steal_rounds_lem rounds (put w task) next p.0
          (record {
            ordered = omega arith;
            fits = omega (arith, u);
            buffer_ordered = u.buffer_ordered;
            buffer_fits = u.buffer_fits;
          })
          (omega arith) (omega (arith, h, p.2)) (omega (arith, p.2)) k in
      let step : steal_rounds rounds (put w task) next ≡ steal_rounds (suc rounds) w victim =
        rw e refl in
      subst (Steals w victim (suc rounds)) step (
        rw first (
          rest.0,
          rest.1,
          rest.2
              ∙ (ap (λ l. l ++ take rounds (queued next)) p.1
                  ∙ append_assoc (queued w) (task ∷ []) (take rounds (queued next))),
          rest.3,
          rest.4,
          rest.5,
        ))

  -- With both locks and rings whose indices are in order, TryStealFrom moves the older half of the
  -- victim's ring, rounded up, but at most the batch size and what there is room for, to the end of
  -- the thief's, in their order. Without a lock it moves none. The buffers stay as they are.
  pub try_steal_from_lem :
      (owns_lock owns_local : Bool) (w victim : Worker T) (batch_size : ℕ)
      → IsValid w
      → IsValid victim
      → w.queue_tail + queue_size < 2 ^ 64
      → victim.queue_tail < 2 ^ 64
      → let (cnt, w', victim') = try_steal_from owns_lock owns_local w victim batch_size in
        (cnt ≡ (
          if owns_lock && owns_local
          then min
              ((length (queued victim) + 1) / 2)
              (min (queue_size - length (queued w)) batch_size)
          else 0))
        × Steals w victim cnt (w', victim')
  unfolding try_steal_from steal_count
  try_steal_from_lem owns_lock owns_local w victim batch_size v u t k =
      let room : sub64 queue_size (sub64 w.queue_tail w.queue_head)
          ≡ queue_size - (w.queue_tail - w.queue_head) =
        omega (arith, v) in
      let there : sub64 victim.queue_tail victim.queue_head
          ≡ victim.queue_tail - victim.queue_head =
        omega (arith, u) in
      let half : add64 (victim.queue_tail - victim.queue_head) 1 / 2
          ≡ (victim.queue_tail - victim.queue_head + 1) / 2 =
        ap (λ n. n / 2)
          (let e : add64 (victim.queue_tail - victim.queue_head) 1
                ≡ victim.queue_tail - victim.queue_head + 1 =
              omega (arith, u) in
            e) in
      let cnt =
        min ((victim.queue_tail - victim.queue_head + 1) / 2)
          (min (queue_size - (w.queue_tail - w.queue_head)) batch_size) in
      let moved =
        steal_rounds_lem cnt w victim v u (omega arith) (omega (arith, v)) (omega (arith, v)) k in
      let stay : Steals w victim 0 (w, victim) =
        (v, u, sym (append-nil (queued w)), refl, refl, refl) in
      elim (Bool-cases (victim.queue_tail - victim.queue_head == 0)) [
        | inl none_left ↦
            let zero_lem : (victim.queue_tail - victim.queue_head + 1) / 2 ≡ 0 = ground arith in
            rw (there, none_left, length-queued w, length-queued victim, zero_lem)
              (
                if_same (owns_lock && owns_local)
                    (min 0 (min (queue_size - (w.queue_tail - w.queue_head)) batch_size))
                    (omega arith),
                stay,
              )
        | inr some_left ↦ elim (Bool-cases (owns_lock && owns_local)) [
          | inl taken ↦
              rw (room, there, half, some_left, taken, length-queued w, length-queued victim)
                (refl, moved)
          | inr refused ↦ rw (there, some_left, refused) (refl, stay)
        ]
      ]
