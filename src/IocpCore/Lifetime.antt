-- ===== src/IocpCore/Lifetime.antt =====
-- IocpCore.cpp: how many packets that end a thread wait in the completion port.
use server_study.Prelude.{
  ℕ, zero, suc, ◌+◌, ◌<◌, ◌≤◌, ◌≡◌, ◌≢◌, refl, ap, sym, Bool, true, false, Option, none, some, List,
  [], ◌∷◌, update, ◌==◌, arith, Bool-cases, inl, inr, weigh, weigh-append, total, total-update,
  at-total, total-update_beyond, total-update_down, total-next,
}
use server_study.IocpCore.{
  Port, Pc, Stage, Machine, is_ended, worker_at, worker_step, owner_at, owner_step,
}
use server_study.IocpCore.Packets.{IsFifo, quits, Took, take-Took}
use server_study.IocpCore.States.{
  live, unposted, joined, is_closed, is_crashed, Reachable, Inv, joined-closed, ended-dead,
}

module _ {Q C : Type 0} {port : Port Q C} {packets : Q → List (Option C)} {is_open : Q → Bool}
    (fifo : IsFifo port packets is_open) where
  -- A thread goes on, and takes a packet out of the port if it ends.
  moved-Inv :
      (m : Machine Q C) (t : ℕ) (pc pc' : Pc C) (q : Q)
      → t < m.threads
      → m.at t ≡ pc
      → Inv port packets is_open m
      → (is_closed m.stage ≡ false → is_open q ≡ true)
      → (is_closed m.stage ≡ false
          → weigh quits (packets q) + live pc ≡ weigh quits (packets m.port) + live pc')
      → live pc' ≤ live pc
      → Inv port packets is_open (record m { port = q; at = update m.at t pc' })
  moved-Inv m t pc pc' q h e inv usable same less =
      let was : live (m.at t) ≡ live pc = ap live e in
      record {
        runs = inv.runs;
        usable = usable;
        enough =
            λ o. omega (arith, inv.enough o, was, same o, total-update live m.at m.threads t pc' h);
        over =
            let down =
              total-update_down live m.at (joined m.threads m.stage) t pc'
                (omega (arith, less, was)) in
            omega (arith, down, inv.over);
        within = inv.within;
      }

  -- While a thread has not ended, the owner has not closed the port.
  pub still_usable :
      (m : Machine Q C) (t : ℕ)
      → t < m.threads
      → live (m.at t) ≡ 1
      → Inv port packets is_open m
      → is_closed m.stage ≡ false
  still_usable m t h e inv = elim (Bool-cases (is_closed m.stage)) [
    | inr running ↦ running
    | inl closed_yet ↦
        let all = joined-closed m.threads m.stage closed_yet in
        let none_live : total live m.at m.threads ≡ 0 = rw all at inv.over in
        absurd (omega (arith, none_live, e, at-total live m.at m.threads t h))
  ]

  Took-Inv :
      (m : Machine Q C) (t : ℕ) (m' : Machine Q C)
      → t < m.threads
      → m.at t ≡ Pc.waiting
      → Inv port packets is_open m
      → Took packets is_open m t m'
      → Inv port packets is_open m'
  unfolding live quits
  Took-Inv m t _ h e inv (Took.blocks p) = inv
  Took-Inv m t _ h e inv (Took.quit q p usable) =
      let counts = ap (weigh quits) p in
      moved-Inv m t Pc.waiting Pc.ended q h e inv (λ o. usable) (λ o. omega (arith, counts))
        (omega arith)
  Took-Inv m t _ h e inv (Took.completion result c q p usable) =
      let counts = ap (weigh quits) p in
      moved-Inv m t Pc.waiting (Pc.handling result c) q h e inv (λ o. usable)
        (λ o. omega (arith, counts)) (omega arith)

  pub worker_at-Inv :
      (m : Machine Q C) (t : ℕ) (pc : Pc C)
      → t < m.threads
      → m.at t ≡ pc
      → Inv port packets is_open m
      → Inv port packets is_open (worker_at port m t pc)
  unfolding worker_at live
  worker_at-Inv m t Pc.waiting h e inv =
      let usable = inv.usable (still_usable m t h (ap live e) inv) in
      Took-Inv m t _ h e inv (take-Took fifo m t (packets m.port) usable refl)
  worker_at-Inv m t (Pc.handling result c) h e inv =
      moved-Inv m t (Pc.handling result c) Pc.waiting m.port h e inv inv.usable (λ o. refl)
        (omega arith)
  worker_at-Inv m t Pc.ended h e inv = inv

  pub owner_at-Inv :
      (m : Machine Q C) (joinable : Bool) (stage : Stage)
      → Inv port packets is_open (record m { stage = stage })
      → Inv port packets is_open (owner_at port (record m { stage = stage }) joinable stage)
  unfolding owner_at is_closed is_crashed unposted joined live quits is_ended
  owner_at-Inv m joinable (Stage.starting zero) inv = record {
    runs = refl;
    usable = inv.usable;
    enough = inv.enough;
    over = refl;
    within = omega arith;
  }
  owner_at-Inv m true (Stage.starting (suc n)) inv = record {
    runs = refl;
    usable = inv.usable;
    enough = λ o.
        let rest = total-update_beyond live m.at m.threads m.threads Pc.waiting (omega arith) in
        let here : live (update m.at m.threads Pc.waiting m.threads) ≡ 1 = ground arith in
        let next = total-next live (update m.at m.threads Pc.waiting) m.threads in
        omega (arith, inv.enough o, rest, here, next);
    over = refl;
    within = omega arith;
  }
  owner_at-Inv m false (Stage.starting (suc n)) inv = record {
    runs = refl;
    usable = inv.usable;
    enough = inv.enough;
    over = refl;
    within = omega arith;
  }
  owner_at-Inv m joinable Stage.serving inv = record {
    runs = refl;
    usable = inv.usable;
    enough = inv.enough;
    over = refl;
    within = omega arith;
  }
  owner_at-Inv m joinable (Stage.posting zero) inv = record {
    runs = refl;
    usable = inv.usable;
    enough = inv.enough;
    over = refl;
    within = omega arith;
  }
  owner_at-Inv m joinable (Stage.posting (suc n)) inv =
      let (more, usable') = fifo.posted m.port (inv.usable refl) in
      record {
        runs = refl;
        usable = λ o. usable';
        enough = λ o.
            let counts = weigh-append quits (packets m.port) (none ∷ []) in
            rw more (omega (arith, counts, inv.enough o));
        over = refl;
        within = omega arith;
      }
  owner_at-Inv m joinable (Stage.joining n) inv = elim (Bool-cases (n == m.threads)) [
    | inl all ↦
        let same : n ≡ m.threads = ground arith in
        rw all (record {
          runs = refl;
          usable = λ o. absurd (ground (arith, o));
          enough = λ o. absurd (ground (arith, o));
          over = rw (sym same) inv.over;
          within = omega arith;
        })
    | inr some_left ↦ elim (Bool-cases (is_ended (m.at n))) [
      | inl joins ↦
          let dead = ended-dead (m.at n) joins in
          rw (some_left, joins)
            (record {
              runs = refl;
              usable = inv.usable;
              enough = inv.enough;
              over = omega (arith, dead, inv.over, total-next live m.at n);
              within = let other : n ≢ m.threads = ground arith in omega (arith, inv.within, other);
            })
      | inr runs ↦ rw (some_left, runs) inv
    ]
  ]
  owner_at-Inv m joinable Stage.closed inv = inv
  owner_at-Inv m joinable Stage.thrown inv = inv
  owner_at-Inv m joinable Stage.crashed inv = inv

  -- From the constructor on, on a port that is open and without packets, with any number of threads to start and
  -- in any order of the steps of the owner, of the threads and of arrivals: GetQueuedCompletionStatus never
  -- fails for want of the port, which is open until all threads have ended; in it wait, with those that the
  -- destructor has yet to post, as many packets that end a thread as there are threads that have not ended; and
  -- the threads that are joined have ended.
  pub Reachable-Inv :
      {q : Q} {count : ℕ} {m : Machine Q C}
      → is_open q ≡ true
      → packets q ≡ []
      → Reachable port packets is_open q count m
      → Inv port packets is_open m
  unfolding owner_step worker_step quits is_closed is_crashed unposted joined
  Reachable-Inv usable empty Reachable.start = record {
    runs = refl;
    usable = λ o. usable;
    enough = λ o. rw empty refl;
    over = refl;
    within = omega arith;
  }
  Reachable-Inv usable empty (Reachable.owner {m} joinable before) =
      owner_at-Inv m joinable m.stage (Reachable-Inv usable empty before)
  Reachable-Inv usable empty (Reachable.worker {m} t h before) =
      worker_at-Inv m t (m.at t) h refl (Reachable-Inv usable empty before)
  Reachable-Inv usable empty (Reachable.arrival {m} c is before) =
      let inv = Reachable-Inv usable empty before in
      let (more, usable') = fifo.arrived m.port c is in
      record {
        runs = inv.runs;
        usable = λ o. usable';
        enough = λ o.
            let counts = weigh-append quits (packets m.port) (some c ∷ []) in
            rw more (omega (arith, counts, inv.enough o));
        over = inv.over;
        within = inv.within;
      }
