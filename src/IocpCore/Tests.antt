-- ===== src/IocpCore/Tests.antt =====
-- Two threads, of which one handles a completion while the destructor stops them.
use server_study.Prelude.{
  ℕ, ◌+◌, ◌<◌, ◌≤◌, ◌≡◌, ◌⊎◌, refl, Bool, true, false, Option, none, some, List, [], ◌∷◌, ◌++◌,
  arith,
}
use server_study.IocpCore.{
  Port, Pc, Stage, Machine, after_get, is_ended, go_on, take, worker_at, worker_step, owner_at,
  owner_step, start_core,
}
use server_study.IocpCore.Packets.{IsFifo}
use server_study.IocpCore.States.{Reachable, Inv}
use server_study.IocpCore.Lifetime.{Reachable-Inv}
use server_study.IocpCore.Work.{work, is_stopping, owner_moves}
use server_study.IocpCore.Stopping.{Goes, Goes-stops}

-- A port is whether it is open, and its packets.
abbrev Q : Type 0
Q = Bool × List (Option ℕ)

abbrev get : Q → Option (Bool × Option ℕ) × Q
get (false, ps) = (some (false, none), (false, ps))
get (true, []) = (none, (true, []))
get (true, p ∷ ps) = (some (true, p), (true, ps))

abbrev port : Port Q ℕ
port = record {
  post = λ q. (q.0, q.1 ++ none ∷ []);
  get = get;
  close = λ q. (false, q.1);
  arrive = λ q c. (q.0, q.1 ++ some c ∷ []);
}

abbrev packets : Q → List (Option ℕ)
packets q = q.1

abbrev is_open : Q → Bool
is_open q = q.0

get-packets :
    (q : Q) (p : Option ℕ) (ps : List (Option ℕ))
    → is_open q ≡ true
    → packets q ≡ p ∷ ps
    → get q ≡ (some (true, p), (true, ps))
get-packets (usable, ps') p ps e e' = rw (e, e') refl

port-IsFifo : IsFifo port packets is_open
port-IsFifo = record {
  posted = λ q e. (refl, e);
  arrived = λ q c e. (refl, e);
  blocked = λ q e e'. rw (e, e') refl;
  quit = λ q ps e e'. ((true, ps), get-packets q none ps e e', refl, refl);
  completed = λ q c ps e e'. (true, (true, ps), get-packets q (some c) ps e e', refl, refl);
}

-- Both threads are started, and the first takes a completion.
abbrev served : Machine Q ℕ
served =
    let m =
      owner_step port (owner_step port (owner_step port (start_core (true, []) 2) true) true)
        true in
    worker_step port (record m { port = port.arrive m.port 5 }) 0

-- The destructor posts two packets.
abbrev stopping : Machine Q ℕ
stopping =
    owner_step port (owner_step port (owner_step port (owner_step port served true) true) true) true

stopping-Reachable : Reachable port packets is_open (true, []) 2 stopping
unfolding owner_step owner_at worker_step worker_at take go_on after_get
stopping-Reachable = Reachable.owner true (
    Reachable.owner true (
      Reachable.owner true (
        Reachable.owner true (
          Reachable.worker 0 (omega arith) (
            Reachable.arrival 5 refl (
              Reachable.owner true
                (Reachable.owner true (Reachable.owner true Reachable.start))))))))

-- The second thread ends, a completion arrives, and the first thread comes back for its packet.
abbrev ending : Machine Q ℕ
ending =
    let m = worker_step port stopping 1 in
    worker_step port (worker_step port (record m { port = port.arrive m.port 6 }) 0) 0

ending-Goes : Goes port is_open stopping 3 ending
unfolding owner_step owner_at worker_step worker_at take go_on after_get is_ended
ending-Goes = Goes.worker 0 (omega arith) refl (
    Goes.worker 0 (omega arith) refl
      (Goes.arrival 6 refl (Goes.worker 1 (omega arith) refl Goes.stay)))

ending_runs :
    (ending.port ≡ (true, some 6 ∷ [])) × (ending.at 0 ≡ Pc.ended) × (ending.at 1 ≡ Pc.ended)
unfolding owner_step owner_at worker_step worker_at take go_on after_get
ending_runs = (refl, refl, refl)

Reachable-Inv_example : Inv port packets is_open stopping
Reachable-Inv_example = Reachable-Inv port-IsFifo refl refl stopping-Reachable

Goes-stops_example :
    (3 + work packets ending ≤ work packets stopping)
    × ((ending.stage ≡ Stage.closed)
        ⊎ ((owner_moves ending ending.stage ≡ true)
            ⊎ ((t : ℕ) × (t < ending.threads) × (is_ended (ending.at t) ≡ false))))
unfolding owner_step owner_at is_stopping worker_step worker_at take go_on after_get
Goes-stops_example = Goes-stops port-IsFifo refl refl stopping-Reachable refl ending-Goes
