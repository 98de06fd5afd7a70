-- ===== src/Scheduler/Tests.antt =====
-- Two workers with tasks, named by numbers, and each theorem at them.
use server_study.Prelude.{ℕ, ◌+◌, ◌≡◌, refl, true, List, [], ◌∷◌, ◌==◌, if◌then◌else◌, arith}
use server_study.Scheduler.{
  Worker, put, fetch_rounds, fetch_count, try_fetch_global, steal_rounds, steal_count,
  try_steal_from,
}
use server_study.Scheduler.Contents.{IsValid, queued}

-- 11, 12 and 13 in the ring, round its end.
abbrev busy : Worker ℕ
busy = record {
  queue = λ i. if i == 511 then 11 else 12 + i;
  queue_head = 511;
  queue_tail = 514;
  buffer = λ i. 0;
  buffer_head = 3;
  buffer_tail = 3;
  task_did = 0;
}

-- 5 in the buffer.
abbrev idle : Worker ℕ
idle = record {
  queue = λ i. 0;
  queue_head = 0;
  queue_tail = 0;
  buffer = λ i. 5;
  buffer_head = 0;
  buffer_tail = 1;
  task_did = 0;
}

busy-IsValid : IsValid busy
busy-IsValid = omega arith

idle-IsValid : IsValid idle
idle-IsValid = omega arith

abbrev global : List ℕ
global = 1 ∷ 2 ∷ 3 ∷ []

-- The two older tasks are stolen.
stolen :
    (queued (try_steal_from true true idle busy 256).1 ≡ 11 ∷ 12 ∷ [])
    × (queued (try_steal_from true true idle busy 256).2 ≡ 13 ∷ [])
unfolding try_steal_from steal_rounds steal_count put
stolen = (refl, refl)

fetched : queued (try_fetch_global 2 true true busy global 256).1 ≡ 11 ∷ 12 ∷ 13 ∷ 1 ∷ 2 ∷ []
unfolding try_fetch_global fetch_rounds fetch_count put
fetched = refl
