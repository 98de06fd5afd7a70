-- ===== src/IocpCore/Work.antt =====
-- IocpCore.cpp: what is left to do when the destructor waits for the threads.
use server_study.Prelude.{
  ℕ, suc, ◌+◌, ◌-◌, ◌*◌, ◌<◌, ◌≡◌, ◌≢◌, refl, ap, ◌∙◌, Bool, true, false, Option, none, some, List,
  [], ◌∷◌, ◌++◌, update, ◌==◌, ◌||◌, if◌then◌else◌, arith, Bool-cases, inl, inr, weigh,
  weigh-append, total, total-update, at-total,
}
use server_study.IocpCore.{Port, Pc, Stage, Machine, is_ended, worker_at, owner_at}
use server_study.IocpCore.Packets.{IsFifo, quits, Took, take-Took}
use server_study.IocpCore.States.{live, joined, unposted, is_closed, Inv}
use server_study.IocpCore.Lifetime.{still_usable}

-- The packets up to the last one that ends a thread.
abbrev pub ahead : {C : Type 0} → List (Option C) → ℕ
ahead [] = 0
ahead (p ∷ ps) = if weigh quits (p ∷ ps) == 0 then 0 else suc (ahead ps)

unfoldable pub busy : {C : Type 0} → Pc C → ℕ
busy (Pc.handling result c) = 1
busy _ = 0

-- The steps that are left for the owner.
unfoldable pub joins_left : ℕ → Stage → ℕ
joins_left threads (Stage.joining n) = suc (threads - n)
joins_left threads _ = 0

-- All packets are posted.
unfoldable pub is_stopping : Stage → Bool
is_stopping (Stage.joining n) = true
is_stopping Stage.closed = true
is_stopping _ = false

-- The owner's next step is not a wait.
unfoldable pub owner_moves : {Q C : Type 0} → Machine Q C → Stage → Bool
owner_moves m (Stage.joining n) = (n == m.threads) || is_ended (m.at n)
owner_moves m _ = false

ahead-quit : {C : Type 0} (ps : List (Option C)) → ahead (none ∷ ps) ≡ suc (ahead ps)
unfolding quits
ahead-quit ps =
    let some_left : (1 + weigh quits ps == 0) ≡ false = ground arith in rw some_left refl

ahead-completed :
    {C : Type 0} (c : C) (ps : List (Option C))
    → 0 < weigh quits ps
    → ahead (some c ∷ ps) ≡ suc (ahead ps)
unfolding quits
ahead-completed c ps h =
    let some_left : (0 + weigh quits ps == 0) ≡ false = ground arith in rw some_left refl

-- A completion that arrives is not waited for.
ahead-arrival : {C : Type 0} (c : C) (ps : List (Option C)) → ahead (ps ++ some c ∷ []) ≡ ahead ps
unfolding quits
ahead-arrival c [] = refl
ahead-arrival c (p ∷ ps) =
    let counts = weigh-append quits ps (some c ∷ []) in
    let same : weigh quits (ps ++ some c ∷ []) ≡ weigh quits ps = omega (arith, counts) in
    rw (same, ahead-arrival c ps) refl

all_posted : (threads : ℕ) (stage : Stage) → is_stopping stage ≡ true → unposted threads stage ≡ 0
unfolding is_stopping unposted
all_posted threads (Stage.joining n) e = refl
all_posted threads Stage.closed e = refl
all_posted threads (Stage.starting n) e = absurd (ground (arith, e))
all_posted threads Stage.serving e = absurd (ground (arith, e))
all_posted threads (Stage.posting n) e = absurd (ground (arith, e))
all_posted threads Stage.thrown e = absurd (ground (arith, e))
all_posted threads Stage.crashed e = absurd (ground (arith, e))

-- A bound on the steps that are left.
abbrev pub work : {Q C : Type 0} → (Q → List (Option C)) → Machine Q C → ℕ
work packets m =
    if is_closed m.stage
    then 0
    else 2 * ahead (packets m.port) + total busy m.at m.threads + joins_left m.threads m.stage

module _ {Q C : Type 0} {port : Port Q C} {packets : Q → List (Option C)} {is_open : Q → Bool}
    (fifo : IsFifo port packets is_open) where
  moved-work :
      (m : Machine Q C) (t : ℕ) (pc pc' : Pc C) (q : Q)
      → t < m.threads
      → m.at t ≡ pc
      → is_closed m.stage ≡ false
      → 2 * ahead (packets q) + busy pc' < 2 * ahead (packets m.port) + busy pc
      → work packets (record m { port = q; at = update m.at t pc' }) < work packets m
  moved-work m t pc pc' q h e running less =
      let was : busy (m.at t) ≡ busy pc = ap busy e in
      rw running (omega (arith, less, was, total-update busy m.at m.threads t pc' h))

  -- A packet that ends a thread waits as long as a thread runs.
  some_quit :
      (m : Machine Q C) (t : ℕ)
      → t < m.threads
      → live (m.at t) ≡ 1
      → is_stopping m.stage ≡ true
      → Inv port packets is_open m
      → 0 < weigh quits (packets m.port)
  some_quit m t h e stops inv =
      let running = still_usable fifo m t h e inv in
      let posted = all_posted m.threads m.stage stops in
      omega (arith, inv.enough running, posted, e, at-total live m.at m.threads t h)

  Took-work :
      (m : Machine Q C) (t : ℕ) (m' : Machine Q C)
      → t < m.threads
      → m.at t ≡ Pc.waiting
      → is_closed m.stage ≡ false
      → 0 < weigh quits (packets m.port)
      → Took packets is_open m t m'
      → work packets m' < work packets m
  unfolding quits busy
  Took-work m t _ h e running some_left (Took.blocks p) =
      let counts = ap (weigh quits) p in absurd (omega (arith, counts, some_left))
  Took-work m t _ h e running some_left (Took.quit q p usable) =
      let less = ap ahead p ∙ ahead-quit (packets q) in
      moved-work m t Pc.waiting Pc.ended q h e running (omega (arith, less))
  Took-work m t _ h e running some_left (Took.completion result c q p usable) =
      let counts = ap (weigh quits) p in
      let less = ap ahead p ∙ ahead-completed c (packets q) (omega (arith, counts, some_left)) in
      moved-work m t Pc.waiting (Pc.handling result c) q h e running (omega (arith, less))

  pub worker_at-work :
      (m : Machine Q C) (t : ℕ) (pc : Pc C)
      → t < m.threads
      → m.at t ≡ pc
      → is_ended pc ≡ false
      → is_stopping m.stage ≡ true
      → Inv port packets is_open m
      → work packets (worker_at port m t pc) < work packets m
  unfolding worker_at live busy is_ended
  worker_at-work m t Pc.waiting h e runs stops inv =
      let running = still_usable fifo m t h (ap live e) inv in
      Took-work m t _ h e running (some_quit m t h (ap live e) stops inv)
        (take-Took fifo m t (packets m.port) (inv.usable running) refl)
  worker_at-work m t (Pc.handling result c) h e runs stops inv =
      moved-work m t (Pc.handling result c) Pc.waiting m.port h e
        (still_usable fifo m t h (ap live e) inv) (omega arith)
  worker_at-work m t Pc.ended h e runs stops inv = absurd (ground (arith, runs))

  pub owner_at-work :
      (m : Machine Q C) (joinable : Bool) (stage : Stage)
      → owner_moves m stage ≡ true
      → Inv port packets is_open (record m { stage = stage })
      → (work packets (owner_at port (record m { stage = stage }) joinable stage)
          < work packets (record m { stage = stage }))
        × (is_stopping (owner_at port (record m { stage = stage }) joinable stage).stage ≡ true)
  unfolding owner_at owner_moves is_closed is_stopping joins_left joined
  owner_at-work m joinable (Stage.joining n) moves inv = elim (Bool-cases (n == m.threads)) [
    | inl all ↦ rw all (omega arith, refl)
    | inr some_left ↦
        let ends : is_ended (m.at n) ≡ true = rw some_left at moves in
        let other : n ≢ m.threads = ground arith in
        rw (some_left, ends) (omega (arith, other, inv.within), refl)
  ]
  owner_at-work m joinable (Stage.starting n) moves inv = absurd (ground (arith, moves))
  owner_at-work m joinable Stage.serving moves inv = absurd (ground (arith, moves))
  owner_at-work m joinable (Stage.posting n) moves inv = absurd (ground (arith, moves))
  owner_at-work m joinable Stage.closed moves inv = absurd (ground (arith, moves))
  owner_at-work m joinable Stage.thrown moves inv = absurd (ground (arith, moves))
  owner_at-work m joinable Stage.crashed moves inv = absurd (ground (arith, moves))

  pub arrival-work :
      (m : Machine Q C) (c : C)
      → is_open m.port ≡ true
      → work packets (record m { port = port.arrive m.port c }) ≡ work packets m
  arrival-work m c usable =
      let more = (fifo.arrived m.port c usable).0 in
      rw (more, ahead-arrival c (packets m.port)) refl
