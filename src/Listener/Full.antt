-- ===== src/Listener/Full.antt =====
-- Listener.cpp in several threads: how many accepts are under way while none fails.
use server_study.Prelude.{
  total, at-total, ℕ, zero, suc, ◌<◌, ◌≤◌, ◌≡◌, ◌⊎◌, refl, Bool, true, false, not, Array, update,
  ◌==◌, ltb, leb, arith, Bool-cases, compare_cases, inl, inr,
}
use server_study.Listener.{accept_count, Pc, Machine, step_at, step, initial}
use server_study.Listener.Count.{Reachable, held, Reachable-Counted}

-- The steps in which a session is to be created or an accept to be posted and is not.
unfoldable pub fails : Pc → Bool → Bool
fails Pc.creating good = not good
fails Pc.registering good = not good
fails _ good = false

pub data Smooth (n : ℕ) : Machine → Type 0 where
  start : Smooth n initial
  next :
      {m : Machine} (t : ℕ) (good : Bool)
      → t < n
      → fails (m.at t) good ≡ false
      → Smooth n m
      → Smooth n (step m t good)

unfoldable pub busy : Pc → ℕ
busy Pc.idle = 0
busy _ = 1

Smooth-Reachable : {n : ℕ} {m : Machine} → Smooth n m → Reachable n m
Smooth-Reachable start = Reachable.start
Smooth-Reachable (next t good lt fine before) = Reachable.next t good lt (Smooth-Reachable before)

held_busy : (pc : Pc) → held pc ≤ busy pc
unfolding held busy
held_busy Pc.idle = omega arith
held_busy Pc.loading = omega arith
held_busy (Pc.comparing current) = omega arith
held_busy Pc.creating = omega arith
held_busy Pc.registering = omega arith
held_busy Pc.completed = omega arith

total-held_busy : (at : Array Pc) (n : ℕ) → total held at n ≤ total busy at n
total-held_busy at zero = omega arith
total-held_busy at (suc n) = omega (arith, held_busy (at n), total-held_busy at n)

-- Some thread is on the way to a full count, or it is full.
abbrev Filling : ℕ → Machine → Type 0
Filling n m = (0 < total busy m.at n) ⊎ (accept_count ≤ m.pending_accepts)

some_busy :
    {n t : ℕ} (at : Array Pc) (pc : Pc) → t < n → 0 < busy pc → 0 < total busy (update at t pc) n
some_busy {n} {t} at pc h k =
    let e = at-total busy (update at t pc) n t h in
    let here : busy (update at t pc t) ≡ busy pc = ground arith in omega (arith, e, here, k)

step_at-Filling :
    (n : ℕ) (m : Machine) (t : ℕ) (good : Bool) (pc : Pc)
    → t < n
    → m.at t ≡ pc
    → fails pc good ≡ false
    → Filling n m
    → Filling n (step_at m t good pc)
unfolding step_at busy fails
step_at-Filling n m t true Pc.idle h e f c = inl (some_busy m.at Pc.loading h (omega arith))
step_at-Filling n m t false Pc.idle h e f c = elim (Bool-cases (ltb 0 m.posted)) [
  | inl some_posted ↦ rw some_posted (inl (some_busy m.at Pc.completed h (omega arith)))
  | inr none_posted ↦ rw none_posted c
]
step_at-Filling n m t good Pc.loading h e f c =
    elim (Bool-cases (leb accept_count m.pending_accepts)) [
      | inl full ↦ rw full (inr (ground arith))
      | inr room ↦ rw room (inl (some_busy m.at (Pc.comparing m.pending_accepts) h (omega arith)))
    ]
step_at-Filling n m t good (Pc.comparing current) h e f c =
    elim (Bool-cases (m.pending_accepts == current)) [
      | inl same ↦ rw same (inl (some_busy m.at Pc.creating h (omega arith)))
      | inr other ↦ rw other (inl (some_busy m.at Pc.loading h (omega arith)))
    ]
step_at-Filling n m t true Pc.creating h e f c = inl (some_busy m.at Pc.registering h (omega arith))
step_at-Filling n m t false Pc.creating h e f c = ground arith
step_at-Filling n m t true Pc.registering h e f c = inl (some_busy m.at Pc.loading h (omega arith))
step_at-Filling n m t false Pc.registering h e f c = ground arith
step_at-Filling n m t good Pc.completed h e f c = inl (some_busy m.at Pc.loading h (omega arith))

Smooth-Filling : {n : ℕ} {m : Machine} → 0 < n → Smooth n m → Filling n m
unfolding step busy
Smooth-Filling {n} h start = inl (some_busy (λ t. Pc.idle) Pc.loading h (omega arith))
Smooth-Filling {n} h (next {m} t good lt fine before) =
    step_at-Filling n m t good (m.at t) lt refl fine (Smooth-Filling h before)

-- While every session can be created and every accept posted, and whatever the order of the steps, some
-- thread is inside the listener or 1000 accepts are posted.
pub Smooth_full :
    {n : ℕ} {m : Machine} → 0 < n → Smooth n m → (0 < total busy m.at n) ⊎ (m.posted ≡ accept_count)
Smooth_full {n} {m} h s = elim (Smooth-Filling h s) [
  | inl busy_yet ↦ inl busy_yet
  | inr full ↦
      let c = Reachable-Counted (Smooth-Reachable s) in
      elim (compare_cases 0 (total busy m.at n)) [
        | inl busy_yet ↦ inl busy_yet
        | inr quiet ↦ inr (omega (arith, quiet, full, c.few, c.held_places, total-held_busy m.at n))
      ]
]
