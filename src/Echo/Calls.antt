-- ===== src/Echo/Calls.antt =====
-- SingleThreadEcho.cpp and MultiThreadEcho.cpp: what the servers ask `send` to send.
use server_study.Prelude.{
  ℕ, ◌+◌, ◌≤◌, ◌≡◌, Bool, Option, none, some, List, [], ◌∷◌, ◌++◌, if◌then◌else◌, length,
}
use server_study.Echo.{Sockets}
use server_study.Echo.Ledger.{Ledger}

-- What `recv` has given, what `send` has been asked to send, each with its socket, and how many of these calls have
-- failed.
pub record Log (W : Type 0) : Type 0 where
  pub received : W → List (ℕ × List ℕ)
  pub asked : W → List (ℕ × List ℕ)
  pub failed : W → ℕ

module _ {W : Type 0} (l : Log W) where
  -- From one state to another, so much was received and asked for, and so many calls failed.
  pub record Adds (w : W) (got put : List (ℕ × List ℕ)) (fails : ℕ) (w' : W) : Type 0 where
    pub received : l.received w' ≡ l.received w ++ got
    pub asked : l.asked w' ≡ l.asked w ++ put
    pub failed : l.failed w' ≡ l.failed w + fails

  abbrev pub Received : W → ℕ → Option (List ℕ) × W → Type 0
  Received w s (none, w') = Adds w [] [] 1 w'
  Received w s (some bytes, w') = Adds w ((s, bytes) ∷ []) [] 0 w'

  abbrev pub Asked : W → ℕ → List ℕ → Option ℕ × W → Type 0
  Asked w s bytes (none, w') = Adds w [] ((s, bytes) ∷ []) 1 w'
  Asked w s bytes (some n, w') = Adds w [] ((s, bytes) ∷ []) 0 w'

  pub record Logs (sockets : Sockets W) : Type 0 where
    pub recv : (w : W) (s n : ℕ) → Received w s (sockets.recv w s n)
    pub send : (w : W) (s : ℕ) (bytes : List ℕ) → Asked w s bytes (sockets.send w s bytes)
    pub close : (w : W) (s : ℕ) → Adds w [] [] 0 (sockets.close w s)

  -- So many rounds at most: all that was received was asked to be sent, and the rounds have all been made, without a
  -- failure, or the last one ended with the one call that failed.
  pub record Echoed (w : W) (rounds : ℕ) (on : Bool) (w' : W) : Type 0 where
    pub chunks : List (ℕ × List ℕ)
    pub received : l.received w' ≡ l.received w ++ chunks
    pub asked : l.asked w' ≡ l.asked w ++ chunks
    pub few : length chunks ≤ rounds
    pub all : (if on then length chunks else rounds) ≡ rounds
    pub failed : l.failed w' ≡ l.failed w + (if on then 0 else 1)

-- What handleClient answers to what `recv` gave.
abbrev pub answer : ℕ → Option (List ℕ) → List (ℕ × List ℕ)
answer client none = []
answer client (some []) = []
answer client (some (byte ∷ bytes)) = (client, byte ∷ bytes) ∷ []
