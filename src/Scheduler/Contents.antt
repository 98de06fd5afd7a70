-- ===== src/Scheduler/Contents.antt =====
-- The ring and the buffer of a worker as lists, and what one put or take does to them.
use server_study.Prelude.{
  ◌+◌, ◌-◌, ◌%◌, ◌^◌, ◌≤◌, ◌<◌, ◌≡◌, refl, ap, ◌⊎◌, inl, inr, none, some, List, [], ◌∷◌, ◌++◌,
  sub64, ltb, length, window, window_first, window-put, length-window, arith, Bool-cases,
}
use server_study.Scheduler.{queue_size, max_buffer_size, Worker, get_next_task, put}

module _ {T : Type 0} where
  -- The tasks of the ring, the oldest first.
  abbrev pub queued : Worker T → List T
  queued w = window w.queue queue_size w.queue_head (w.queue_tail - w.queue_head)

  abbrev pub buffered : Worker T → List T
  buffered w = window w.buffer max_buffer_size w.buffer_head (w.buffer_tail - w.buffer_head)

  -- The indices are in order and at most a ring apart.
  pub record IsValid (w : Worker T) : Type 0 where
    pub ordered : w.queue_head ≤ w.queue_tail
    pub fits : w.queue_tail ≤ w.queue_head + queue_size
    pub buffer_ordered : w.buffer_head ≤ w.buffer_tail
    pub buffer_fits : w.buffer_tail ≤ w.buffer_head + max_buffer_size

  pub length-queued : (w : Worker T) → length (queued w) ≡ w.queue_tail - w.queue_head
  length-queued w = length-window w.queue queue_size w.queue_head (w.queue_tail - w.queue_head)

  pub length-buffered : (w : Worker T) → length (buffered w) ≡ w.buffer_tail - w.buffer_head
  length-buffered w =
      length-window w.buffer max_buffer_size w.buffer_head (w.buffer_tail - w.buffer_head)

  pub put-queued :
      (w : Worker T) (task : T)
      → IsValid w
      → w.queue_tail < w.queue_head + queue_size
      → w.queue_tail + 1 < 2 ^ 64
      → IsValid (put w task)
        × (queued (put w task) ≡ queued w ++ task ∷ [])
        × ((put w task).queue_tail ≡ w.queue_tail + 1)
  unfolding put
  put-queued w task v room small =
      let e : (w.queue_tail + 1) % 2 ^ 64 ≡ w.queue_tail + 1 = omega arith in
      rw e (
        record {
          ordered = omega (arith, v);
          fits = omega arith;
          buffer_ordered = v.buffer_ordered;
          buffer_fits = v.buffer_fits;
        },
        window-put w.queue queue_size w.queue_head w.queue_tail task v.ordered room,
        refl,
      )

  -- GetNextTask fails on the empty buffer, changing nothing, and otherwise takes its first task; the
  -- ring stays as it is.
  pub get_next_task_lem :
      (w : Worker T)
      → IsValid w
      → w.buffer_tail < 2 ^ 64
      → let (task, w') = get_next_task w in
        ((task ≡ none) × (buffered w ≡ []) × (w' ≡ w))
        ⊎ ((t : T) × (task ≡ some t)
            × (buffered w ≡ t ∷ buffered w')
            × (queued w' ≡ queued w)
            × IsValid w')
  unfolding get_next_task
  get_next_task_lem w v small =
      let e : sub64 w.buffer_tail w.buffer_head ≡ w.buffer_tail - w.buffer_head =
        omega (arith, v) in
      elim (Bool-cases (ltb 0 (w.buffer_tail - w.buffer_head))) [
        | inl some_left ↦
            let lt : w.buffer_head < w.buffer_tail = ground arith in
            let next : (w.buffer_head + 1) % 2 ^ 64 ≡ w.buffer_head + 1 = omega arith in
            rw (e, some_left, next)
              (inr (
                w.buffer (w.buffer_head % max_buffer_size),
                refl,
                window_first w.buffer max_buffer_size w.buffer_head w.buffer_tail lt,
                refl,
                record {
                  ordered = v.ordered;
                  fits = v.fits;
                  buffer_ordered = omega arith;
                  buffer_fits = omega (arith, v);
                },
              ))
        | inr none_left ↦
            let zero_lem : w.buffer_tail - w.buffer_head ≡ 0 = ground arith in
            rw (e, none_left)
              (inl (refl, ap (window w.buffer max_buffer_size w.buffer_head) zero_lem, refl))
      ]
