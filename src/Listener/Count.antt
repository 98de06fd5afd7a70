-- ===== src/Listener/Count.antt =====
-- Listener.cpp in several threads: what the count of pending accepts counts.
use server_study.Prelude.{
  total, total-update, at-total, total-zero, ℕ, ◌+◌, ◌<◌, ◌≤◌, ◌≡◌, refl, ap, sym, ◌∙◌, Bool, true,
  false, Array, update, ◌==◌, ltb, leb, arith, Bool-cases, inl, inr,
}
use server_study.Listener.{accept_count, Pc, Machine, step_at, step, initial}

-- The machines that `n` threads can reach, in any order of their steps and with any outcome of each.
pub data Reachable (n : ℕ) : Machine → Type 0 where
  start : Reachable n initial
  next : {m : Machine} (t : ℕ) (good : Bool) → t < n → Reachable n m → Reachable n (step m t good)

-- A thread between its exchange and the end of its accept holds a place.
unfoldable pub held : Pc → ℕ
held Pc.creating = 1
held Pc.registering = 1
held Pc.completed = 1
held _ = 0

-- A count that a thread has loaded and wants to exchange leaves room.
unfoldable pub has_room : Pc → Bool
has_room (Pc.comparing current) = ltb current accept_count
has_room _ = true

pub record Counted (n : ℕ) (m : Machine) : Type 0 where
  pub held_places : m.pending_accepts ≡ m.posted + total held m.at n
  pub few : m.pending_accepts ≤ accept_count
  pub rooms : (t : ℕ) → has_room (m.at t) ≡ true

room-update :
    (at : Array Pc) (t : ℕ) (pc : Pc) (u : ℕ)
    → ((v : ℕ) → has_room (at v) ≡ true)
    → has_room pc ≡ true
    → has_room (update at t pc u) ≡ true
room-update at t pc u rooms room = elim (Bool-cases (u == t)) [
  | inl same ↦ rw same room
  | inr other ↦ rw other (rooms u)
]

-- A thread goes on, and the count and the posted accepts change by what its place changes by.
moved-Counted :
    {n : ℕ} {m : Machine} {t : ℕ} {pc : Pc} (pc' : Pc) (pending posted : ℕ)
    → t < n
    → m.at t ≡ pc
    → Counted n m
    → pending + held pc + m.posted ≡ m.pending_accepts + held pc' + posted
    → pending ≤ accept_count
    → has_room pc' ≡ true
    → Counted n (record { pending_accepts = pending; posted = posted; at = update m.at t pc' })
moved-Counted {n} {m} {t} {pc} pc' pending posted h e c change few room =
    let old = c.held_places in
    let was : held (m.at t) ≡ held pc = ap held e in
    let new = total-update held m.at n t pc' h in
    record {
      held_places = omega (arith, old, was, new, change);
      few = few;
      rooms = λ u. room-update m.at t pc' u c.rooms room;
    }

held-pending :
    {n : ℕ} {m : Machine} {t : ℕ} {pc : Pc}
    → t < n
    → m.at t ≡ pc
    → Counted n m
    → m.posted + held pc ≤ m.pending_accepts
held-pending {n} {m} {t} h e c =
    let was = ap held e in omega (arith, was, at-total held m.at n t h, c.held_places)

step_at-Counted :
    (n : ℕ) (m : Machine) (t : ℕ) (good : Bool) (pc : Pc)
    → t < n
    → m.at t ≡ pc
    → Counted n m
    → Counted n (step_at m t good pc)
unfolding step_at held has_room
step_at-Counted n m t true Pc.idle h e c = moved-Counted Pc.loading _ _ h e c refl c.few refl
step_at-Counted n m t false Pc.idle h e c = elim (Bool-cases (ltb 0 m.posted)) [
  | inl some_posted ↦
      rw some_posted (moved-Counted Pc.completed _ _ h e c (ground arith) c.few refl)
  | inr none_posted ↦ rw none_posted c
]
step_at-Counted n m t good Pc.loading h e c =
    elim (Bool-cases (leb accept_count m.pending_accepts)) [
      | inl full ↦ rw full (moved-Counted Pc.idle _ _ h e c refl c.few refl)
      | inr room ↦
          rw room
            (moved-Counted (Pc.comparing m.pending_accepts) _ _ h e c refl c.few (ground arith))
    ]
step_at-Counted n m t good (Pc.comparing current) h e c =
    elim (Bool-cases (m.pending_accepts == current)) [
      | inl same ↦
          let room = c.rooms t in
          let less : ltb current accept_count ≡ true = sym (ap has_room e) ∙ room in
          rw same (moved-Counted Pc.creating _ _ h e c (ground arith) (ground arith) refl)
      | inr other ↦ rw other (moved-Counted Pc.loading _ _ h e c refl c.few refl)
    ]
step_at-Counted n m t true Pc.creating h e c =
    moved-Counted Pc.registering _ _ h e c refl c.few refl
step_at-Counted n m t false Pc.creating h e c =
    let some_held = held-pending h e c in
    moved-Counted Pc.idle _ _ h e c (omega (arith, some_held, c.few))
      (omega (arith, some_held, c.few)) refl
step_at-Counted n m t true Pc.registering h e c =
    moved-Counted Pc.loading _ _ h e c (omega arith) c.few refl
step_at-Counted n m t false Pc.registering h e c =
    let some_held = held-pending h e c in
    moved-Counted Pc.idle _ _ h e c (omega (arith, some_held, c.few))
      (omega (arith, some_held, c.few)) refl
step_at-Counted n m t good Pc.completed h e c =
    let some_held = held-pending h e c in
    moved-Counted Pc.loading _ _ h e c (omega (arith, some_held, c.few))
      (omega (arith, some_held, c.few)) refl

initial-held : (t : ℕ) → held (initial.at t) ≡ 0
unfolding held
initial-held t = elim (Bool-cases (t == 0)) [ inl e ↦ rw e refl | inr e ↦ rw e refl ]

initial-rooms : (t : ℕ) → has_room (initial.at t) ≡ true
unfolding has_room
initial-rooms t = elim (Bool-cases (t == 0)) [ inl e ↦ rw e refl | inr e ↦ rw e refl ]

-- In any number of threads and in any order of their steps, the count is that of the accepts that are
-- posted and of the threads on the way from the exchange to the posting or from a completion to the
-- countdown, and it is at most 1000.
pub Reachable-Counted : {n : ℕ} {m : Machine} → Reachable n m → Counted n m
unfolding step
Reachable-Counted {n} start = record {
  held_places = omega (arith, total-zero held initial.at n initial-held);
  few = omega arith;
  rooms = initial-rooms;
}
Reachable-Counted {n} (next {m} t good lt before) =
    step_at-Counted n m t good (m.at t) lt refl (Reachable-Counted before)
