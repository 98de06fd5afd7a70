-- ===== src/Echo.antt =====
-- Network/Legacy/SingleThreadEcho.cpp and MultiThreadEcho.cpp: servers that send back what they receive.
pub mod Ledger
pub mod Single
pub mod Leaving
pub mod Calls
mod Tests
use server_study.Prelude.{
  ℕ, zero, suc, ◌-◌, Bool, true, false, Option, none, some, List, [], ◌∷◌, if◌then◌else◌,
}

-- The calls of Winsock, which say whether they succeed; a call that answers with a socket or a number of
-- bytes answers none where it fails. `recv` gives at most as many bytes as it is asked for, and none of
-- them once the client has closed the connection.
pub record Sockets (W : Type 0) : Type 0 where
  pub startup : W → Bool × W
  pub socket : W → Option ℕ × W
  pub bind : W → ℕ → Bool × W
  pub listen : W → ℕ → Bool × W
  pub accept : W → ℕ → Option ℕ × W
  pub recv : W → ℕ → ℕ → Option (List ℕ) × W
  pub send : W → ℕ → List ℕ → Option ℕ × W
  pub close : W → ℕ → W
  pub cleanup : W → W

module _ {W : Type 0} (sockets : Sockets W) where
  -- The result of `send` in SingleThreadEcho: whether the loop goes on. How many bytes were sent is only printed.
  unfoldable pub goes_on : Option ℕ × W → Bool × W
  goes_on (none, w) = (false, w)
  goes_on (some sent, w) = (true, w)

  unfoldable pub echo_back : ℕ → Option (List ℕ) × W → Bool × W
  echo_back client (none, w) = (false, w)
  echo_back client (some bytes, w) = goes_on (sockets.send w client bytes)

  -- So many rounds of the loop of SingleThreadEcho, or fewer if it ends, and whether it goes on.
  unfoldable pub echo_loop : ℕ → ℕ → W → Bool × W
  echo_loop zero client w = (true, w)
  echo_loop (suc rounds) client w =
      let (on, w') = echo_back client (sockets.recv w client 1023) in
      let rest = echo_loop rounds client w' in if on then rest else (false, w')

  -- What `main` of SingleThreadEcho returns, 1 where a call before the loop fails; none if the loop goes on.
  unfoldable pub after_loop : ℕ → ℕ → Bool × W → Option (ℕ × W)
  after_loop server client (true, w) = none
  after_loop server client (false, w) =
      some (0, sockets.cleanup (sockets.close (sockets.close w client) server))

  -- Closes the listening socket, cleans up and returns 1.
  abbrev pub give_up : ℕ → W → Option (ℕ × W)
  give_up server w = some (1, sockets.cleanup (sockets.close w server))

  unfoldable pub after_accept : ℕ → ℕ → Option ℕ × W → Option (ℕ × W)
  after_accept rounds server (none, w) = give_up server w
  after_accept rounds server (some client, w) = after_loop server client (echo_loop rounds client w)

  unfoldable pub after_listen : ℕ → ℕ → Bool × W → Option (ℕ × W)
  after_listen rounds server (false, w) = give_up server w
  after_listen rounds server (true, w) = after_accept rounds server (sockets.accept w server)

  unfoldable pub after_bind : ℕ → ℕ → Bool × W → Option (ℕ × W)
  after_bind rounds server (false, w) = give_up server w
  after_bind rounds server (true, w) = after_listen rounds server (sockets.listen w server)

  unfoldable pub after_socket : ℕ → Option ℕ × W → Option (ℕ × W)
  after_socket rounds (none, w) = some (1, sockets.cleanup w)
  after_socket rounds (some server, w) = after_bind rounds server (sockets.bind w server)

  unfoldable pub after_startup : ℕ → Bool × W → Option (ℕ × W)
  after_startup rounds (false, w) = some (1, w)
  after_startup rounds (true, w) = after_socket rounds (sockets.socket w)

  unfoldable pub single_main : ℕ → W → Option (ℕ × W)
  single_main rounds w = after_startup rounds (sockets.startup w)

  -- `handleClient` of MultiThreadEcho: every way through the loop leaves it.
  unfoldable pub reply : ℕ → Option (List ℕ) × W → W
  reply client (none, w) = w
  reply client (some [], w) = w
  reply client (some (byte ∷ bytes), w) = (sockets.send w client (byte ∷ bytes)).1

  unfoldable pub handle_client : W → ℕ → W
  handle_client w client = sockets.close (reply client (sockets.recv w client 1024)) client
