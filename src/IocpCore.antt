-- ===== src/IocpCore.antt =====
-- Network/Server/IocpCore.cpp: the threads of the server, from Start to the end of the destructor.
pub mod Lifetime
pub mod States
pub mod Packets
pub mod Stopping
pub mod Work
mod Tests
use server_study.Prelude.{
  ℕ, zero, suc, ◌+◌, Bool, true, false, Option, none, some, Array, update, ◌==◌, if◌then◌else◌,
}

-- The completion port `hIocp_`. `post` is PostQueuedCompletionStatus with no overlapped structure, `get`
-- is GetQueuedCompletionStatus, which gives its result and the overlapped structure, and none while it
-- blocks. `arrive` is the system's: an operation completes.
pub record Port (Q C : Type 0) : Type 0 where
  pub post : Q → Q
  pub get : Q → Option (Bool × Option C) × Q
  pub close : Q → Q
  pub arrive : Q → C → Q

-- What WorkerThread does after GetQueuedCompletionStatus: it leaves its loop, throws by LOG_FATAL, or
-- handles the completion.
pub data Next (C : Type 0) : Type 0 where
  leave : Next C
  throw : Next C
  handle : Bool → C → Next C

unfoldable pub after_get : {C : Type 0} → Bool → Option C → Next C
after_get result none = if result then Next.leave else Next.throw
after_get result (some c) = Next.handle result c

-- Where a worker is: before or in GetQueuedCompletionStatus, in HandleError or Dispatch, or at its end.
pub data Pc (C : Type 0) : Type 0 where
  waiting : Pc C
  handling : Bool → C → Pc C
  ended : Pc C

-- Where the owner of the IocpCore is: in Start with so many threads to start, between Start and the
-- destructor, in the destructor with so many packets to post or so many threads joined, or after it. An
-- exception has left Start, or a worker, which ends the process.
pub data Stage : Type 0 where
  starting : ℕ → Stage
  serving : Stage
  posting : ℕ → Stage
  joining : ℕ → Stage
  closed : Stage
  thrown : Stage
  crashed : Stage

-- `threads` is the size of `threads_`.
pub record Machine (Q C : Type 0) : Type 0 where
  pub port : Q
  pub threads : ℕ
  pub at : Array (Pc C)
  pub stage : Stage

unfoldable pub is_ended : {C : Type 0} → Pc C → Bool
is_ended Pc.ended = true
is_ended _ = false

module _ {Q C : Type 0} (port : Port Q C) where
  unfoldable pub go_on : Machine Q C → ℕ → Next C → Machine Q C
  go_on m t Next.leave = record m { at = update m.at t Pc.ended }
  go_on m t Next.throw = record m { stage = Stage.crashed }
  go_on m t (Next.handle result c) = record m { at = update m.at t (Pc.handling result c) }

  unfoldable pub take : Machine Q C → ℕ → Option (Bool × Option C) × Q → Machine Q C
  take m t (none, q) = m
  take m t (some (result, overlapped), q) =
      go_on (record m { port = q }) t (after_get result overlapped)

  -- A step of a worker, which does not move while GetQueuedCompletionStatus blocks.
  unfoldable pub worker_at : Machine Q C → ℕ → Pc C → Machine Q C
  worker_at m t Pc.waiting = take m t (port.get m.port)
  worker_at m t (Pc.handling result c) = record m { at = update m.at t Pc.waiting }
  worker_at m t Pc.ended = m

  unfoldable pub worker_step : Machine Q C → ℕ → Machine Q C
  worker_step m t = worker_at m t (m.at t)

  -- A step of the owner, with whether a thread that is started can be joined.
  unfoldable pub owner_at : Machine Q C → Bool → Stage → Machine Q C
  owner_at m joinable (Stage.starting zero) = record m { stage = Stage.serving }
  owner_at m joinable (Stage.starting (suc n)) =
      if joinable
      then record m {
        threads = m.threads + 1;
        at = update m.at m.threads Pc.waiting;
        stage = Stage.starting n;
      }
      else record m { stage = Stage.thrown }
  owner_at m joinable Stage.serving = record m { stage = Stage.posting m.threads }
  owner_at m joinable (Stage.posting zero) = record m { stage = Stage.joining 0 }
  owner_at m joinable (Stage.posting (suc n)) = record m {
    port = port.post m.port;
    stage = Stage.posting n;
  }
  owner_at m joinable (Stage.joining n) =
      if n == m.threads
      then record m { port = port.close m.port; stage = Stage.closed }
      else if is_ended (m.at n)
      then record m { stage = Stage.joining (n + 1) }
      else m
  owner_at m joinable _ = m

  unfoldable pub owner_step : Machine Q C → Bool → Machine Q C
  owner_step m joinable = owner_at m joinable m.stage

-- Before Start, which is to start `count` threads.
abbrev pub start_core : {Q C : Type 0} → Q → ℕ → Machine Q C
start_core q count = record {
  port = q;
  threads = 0;
  at = λ t. Pc.waiting;
  stage = Stage.starting count;
}
