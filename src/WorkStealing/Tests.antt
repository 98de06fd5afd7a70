-- ===== src/WorkStealing/Tests.antt =====
-- Two queues: runs of the code.
use server_study.Prelude.{ℕ, ◌≡◌, refl, some, [], ◌∷◌, arith, ◌==◌, if◌then◌else◌}
use server_study.WorkStealing.{WorkerQueue, push, try_steal}
use server_study.WorkStealing.Contents.{IsValid, contents}

abbrev empty : WorkerQueue ℕ
empty = record { tasks = λ i. 0; head = 0; tail = 0 }

-- 7, then 8, round the end of the array
abbrev pair : WorkerQueue ℕ
pair = record { tasks = λ i. if i == 0 then 8 else 7; head = 1023; tail = 1025 }

empty-IsValid : IsValid empty
empty-IsValid = omega arith

pair-IsValid : IsValid pair
pair-IsValid = omega arith

-- The oldest task is stolen.
stolen :
    ((try_steal pair).0 ≡ some 7)
    × (contents (push empty 7) ≡ 7 ∷ [])
    × (contents (try_steal pair).1 ≡ 8 ∷ [])
unfolding try_steal push
stolen = (refl, refl, refl)
