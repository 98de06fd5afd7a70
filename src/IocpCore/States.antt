-- ===== src/IocpCore/States.antt =====
-- IocpCore.cpp: the machines that are reached, and what holds of them.
use server_study.Prelude.{
  ℕ, ◌+◌, ◌<◌, ◌≤◌, ◌≡◌, refl, Bool, true, false, Option, List, arith, weigh, total,
}
use server_study.IocpCore.{Port, Pc, Stage, Machine, is_ended, worker_step, owner_step, start_core}
use server_study.IocpCore.Packets.{quits}

unfoldable pub live : {C : Type 0} → Pc C → ℕ
live Pc.ended = 0
live _ = 1

-- Of the packets that the destructor posts, those that it has not posted yet.
unfoldable pub unposted : ℕ → Stage → ℕ
unposted threads (Stage.posting n) = n
unposted threads (Stage.joining n) = 0
unposted threads Stage.closed = 0
unposted threads _ = threads

-- The threads that have been joined.
unfoldable pub joined : ℕ → Stage → ℕ
joined threads (Stage.joining n) = n
joined threads Stage.closed = threads
joined threads _ = 0

unfoldable pub is_closed : Stage → Bool
is_closed Stage.closed = true
is_closed _ = false

unfoldable pub is_crashed : Stage → Bool
is_crashed Stage.crashed = true
is_crashed _ = false

module _ {Q C : Type 0} (port : Port Q C) (packets : Q → List (Option C)) (is_open : Q → Bool) where
  -- The machines that are reached from the start of `count` threads on an open port without packets, in any
  -- order of the steps of the owner, of the threads and of the system.
  pub data Reachable (q : Q) (count : ℕ) : Machine Q C → Type 0 where
    start : Reachable q count (start_core q count)
    owner :
        {m : Machine Q C} (joinable : Bool)
        → Reachable q count m
        → Reachable q count (owner_step port m joinable)
    worker :
        {m : Machine Q C} (t : ℕ)
        → t < m.threads
        → Reachable q count m
        → Reachable q count (worker_step port m t)
    arrival :
        {m : Machine Q C} (c : C)
        → is_open m.port ≡ true
        → Reachable q count m
        → Reachable q count (record m { port = port.arrive m.port c })

  -- The port is open until all threads have ended, and a packet waits or is still to be posted for each
  -- thread that has not.
  pub record Inv (m : Machine Q C) : Type 0 where
    pub runs : is_crashed m.stage ≡ false
    pub usable : is_closed m.stage ≡ false → is_open m.port ≡ true
    pub enough :
        is_closed m.stage ≡ false
        → weigh quits (packets m.port) + unposted m.threads m.stage ≡ total live m.at m.threads
    pub over : total live m.at (joined m.threads m.stage) ≡ 0
    pub within : joined m.threads m.stage ≤ m.threads

pub joined-closed :
    (threads : ℕ) (stage : Stage) → is_closed stage ≡ true → joined threads stage ≡ threads
unfolding joined is_closed
joined-closed threads Stage.closed e = refl
joined-closed threads (Stage.starting n) e = absurd (ground (arith, e))
joined-closed threads Stage.serving e = absurd (ground (arith, e))
joined-closed threads (Stage.posting n) e = absurd (ground (arith, e))
joined-closed threads (Stage.joining n) e = absurd (ground (arith, e))
joined-closed threads Stage.thrown e = absurd (ground (arith, e))
joined-closed threads Stage.crashed e = absurd (ground (arith, e))

pub ended-dead : {C : Type 0} (pc : Pc C) → is_ended pc ≡ true → live pc ≡ 0
unfolding is_ended live
ended-dead Pc.ended e = refl
ended-dead Pc.waiting e = absurd (ground (arith, e))
ended-dead (Pc.handling result c) e = absurd (ground (arith, e))
