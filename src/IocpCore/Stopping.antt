-- ===== src/IocpCore/Stopping.antt =====
-- IocpCore.cpp: the destructor ends all threads.
use server_study.Prelude.{
  ℕ, suc, ◌+◌, ◌<◌, ◌≤◌, ◌≡◌, ◌⊎◌, ◌≢◌, refl, ap, ◌∙◌, Bool, true, false, Option, List, [], ◌==◌,
  arith, Bool-cases, inl, inr,
}
use server_study.IocpCore.{Port, Pc, Stage, Machine, is_ended, worker_at, worker_step, owner_step}
use server_study.IocpCore.Packets.{IsFifo, Took, take-Took}
use server_study.IocpCore.States.{live, joined, Reachable, Inv}
use server_study.IocpCore.Lifetime.{still_usable, Reachable-Inv}
use server_study.IocpCore.Work.{
  work, is_stopping, owner_moves, worker_at-work, owner_at-work, arrival-work,
}

module _ {Q C : Type 0} (port : Port Q C) (is_open : Q → Bool) where
  -- So many steps of the owner and of threads that have not ended, with any arrivals between them.
  pub data Goes (m : Machine Q C) : ℕ → Machine Q C → Type 0 where
    stay : Goes m 0 m
    owner :
        {k : ℕ} {m' : Machine Q C} (joinable : Bool)
        → owner_moves m' m'.stage ≡ true
        → Goes m k m'
        → Goes m (suc k) (owner_step port m' joinable)
    worker :
        {k : ℕ} {m' : Machine Q C} (t : ℕ)
        → t < m'.threads
        → is_ended (m'.at t) ≡ false
        → Goes m k m'
        → Goes m (suc k) (worker_step port m' t)
    arrival :
        {k : ℕ} {m' : Machine Q C} (c : C)
        → is_open m'.port ≡ true
        → Goes m k m'
        → Goes m k (record m' { port = port.arrive m'.port c })

module _ {Q C : Type 0} {port : Port Q C} {packets : Q → List (Option C)} {is_open : Q → Bool}
    (fifo : IsFifo port packets is_open) where
  Goes-Reachable :
      {m : Machine Q C} {q : Q} {count k : ℕ} {m' : Machine Q C}
      → Reachable port packets is_open q count m
      → Goes port is_open m k m'
      → Reachable port packets is_open q count m'
  Goes-Reachable r stay = r
  Goes-Reachable r (owner joinable moves before) =
      Reachable.owner joinable (Goes-Reachable r before)
  Goes-Reachable r (worker t h runs before) = Reachable.worker t h (Goes-Reachable r before)
  Goes-Reachable r (arrival c usable before) = Reachable.arrival c usable (Goes-Reachable r before)

  Took-stage :
      (m : Machine Q C) (t : ℕ) (m' : Machine Q C)
      → Took packets is_open m t m'
      → m'.stage ≡ m.stage
  Took-stage m t _ (Took.blocks p) = refl
  Took-stage m t _ (Took.quit q p usable) = refl
  Took-stage m t _ (Took.completion result c q p usable) = refl

  worker_at-stage :
      (m : Machine Q C) (t : ℕ) (pc : Pc C)
      → t < m.threads
      → m.at t ≡ pc
      → Inv port packets is_open m
      → (worker_at port m t pc).stage ≡ m.stage
  unfolding worker_at live
  worker_at-stage m t Pc.waiting h e inv =
      let running = still_usable fifo m t h (ap live e) inv in
      Took-stage m t _ (take-Took fifo m t (packets m.port) (inv.usable running) refl)
  worker_at-stage m t (Pc.handling result c) h e inv = refl
  worker_at-stage m t Pc.ended h e inv = refl

  Goes-work :
      {m : Machine Q C} {q : Q} {count k : ℕ} {m' : Machine Q C}
      → is_open q ≡ true
      → packets q ≡ []
      → Reachable port packets is_open q count m
      → is_stopping m.stage ≡ true
      → Goes port is_open m k m'
      → (k + work packets m' ≤ work packets m) × (is_stopping m'.stage ≡ true)
  unfolding owner_step worker_step
  Goes-work usable empty r stops stay = (omega arith, stops)
  Goes-work usable empty r stops (owner {k} {m'} joinable moves before) =
      let (bound, yet) = Goes-work usable empty r stops before in
      let inv = Reachable-Inv fifo usable empty (Goes-Reachable r before) in
      let (less, stops') = owner_at-work fifo m' joinable m'.stage moves inv in
      (omega (arith, bound, less), stops')
  Goes-work usable empty r stops (worker {k} {m'} t h runs before) =
      let (bound, yet) = Goes-work usable empty r stops before in
      let inv = Reachable-Inv fifo usable empty (Goes-Reachable r before) in
      let less = worker_at-work fifo m' t (m'.at t) h refl runs yet inv in
      (omega (arith, bound, less), ap is_stopping (worker_at-stage m' t (m'.at t) h refl inv) ∙ yet)
  Goes-work usable empty r stops (arrival {k} {m'} c is before) =
      let (bound, yet) = Goes-work usable empty r stops before in
      (omega (arith, bound, arrival-work fifo m' c is), yet)

  -- Who can go on, while the port is not closed.
  next_step :
      (m : Machine Q C) (stage : Stage)
      → is_stopping stage ≡ true
      → Inv port packets is_open (record m { stage = stage })
      → (stage ≡ Stage.closed)
        ⊎ ((owner_moves m stage ≡ true) ⊎ ((t : ℕ) × (t < m.threads) × (is_ended (m.at t) ≡ false)))
  unfolding is_stopping owner_moves joined
  next_step m Stage.closed stops inv = inl refl
  next_step m (Stage.joining n) stops inv = elim (Bool-cases (n == m.threads)) [
    | inl all ↦ rw all (inr (inl refl))
    | inr some_left ↦
        let other : n ≢ m.threads = ground arith in
        elim (Bool-cases (is_ended (m.at n))) [
          | inl ends ↦ rw (some_left, ends) (inr (inl refl))
          | inr runs ↦
              inr (inr (n, (let h : n < m.threads = omega (arith, other, inv.within) in h), runs))
        ]
  ]
  next_step m (Stage.starting n) stops inv = absurd (ground (arith, stops))
  next_step m Stage.serving stops inv = absurd (ground (arith, stops))
  next_step m (Stage.posting n) stops inv = absurd (ground (arith, stops))
  next_step m Stage.thrown stops inv = absurd (ground (arith, stops))
  next_step m Stage.crashed stops inv = absurd (ground (arith, stops))

  -- From the moment at which the destructor of IocpCore has posted its packets, on a port that was without packets
  -- before Start, the owner and the threads that have not ended take at most `work` steps, however many
  -- completions arrive between them; and until the port is closed, the owner need not wait or some
  -- thread has not ended. So the destructor ends, with all threads joined.
  pub Goes-stops :
      {m : Machine Q C} {q : Q} {count k : ℕ} {m' : Machine Q C}
      → is_open q ≡ true
      → packets q ≡ []
      → Reachable port packets is_open q count m
      → is_stopping m.stage ≡ true
      → Goes port is_open m k m'
      → (k + work packets m' ≤ work packets m)
        × ((m'.stage ≡ Stage.closed)
            ⊎ ((owner_moves m' m'.stage ≡ true)
                ⊎ ((t : ℕ) × (t < m'.threads) × (is_ended (m'.at t) ≡ false))))
  Goes-stops {m' = m'} usable empty r stops goes =
      let (bound, yet) = Goes-work usable empty r stops goes in
      (bound, next_step m' m'.stage yet (Reachable-Inv fifo usable empty (Goes-Reachable r goes)))
