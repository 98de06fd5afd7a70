-- ===== src/SessionState.antt =====
-- The states of a session: SessionManager.cpp over the session pool, and the parts of Connect and
-- Disconnect of Network/Server/Session.cpp that stand under connectMtx_.
pub mod Transitions
pub mod Once
pub mod Tests
use server_study.Prelude.{
  ℕ, ◌%◌, ◌^◌, Bool, true, false, ◌||◌, Option, none, some, ◌==◌, if◌then◌else◌,
}
use server_study.SparseSet.{SparseSet, move_to_state}
use server_study.SparseSet

abbrev pub pool_size : ℕ
pool_size = 4096

-- SessionState
abbrev pub idle : ℕ
idle = 0

abbrev pub pending : ℕ
pending = 1

abbrev pub connected : ℕ
connected = 2

abbrev pub disconnecting : ℕ
disconnecting = 3

abbrev pub state_count : ℕ
state_count = 4

-- SessionState is a byte.
unfoldable pub get_state : SparseSet → ℕ → ℕ
get_state s handle = SparseSet.get_state pool_size s handle % 2 ^ 8

unfoldable pub set_state : SparseSet → ℕ → ℕ → Bool × SparseSet
set_state s handle new_state = move_to_state pool_size state_count s handle new_state

unfoldable pub connect_session : SparseSet → ℕ → Bool × SparseSet
connect_session s handle = move_to_state pool_size state_count s handle connected

-- Connect goes on to send the welcome packet if this is true.
unfoldable pub begin_connect : SparseSet → ℕ → Bool × SparseSet
unfolding get_state connect_session
begin_connect s handle =
    if get_state s handle == pending then connect_session s handle else (false, s)

-- What Disconnect returns at once, or none where it goes on to DisconnectEx.
unfoldable pub begin_disconnect : SparseSet → ℕ → Option Bool × SparseSet
unfolding get_state set_state
begin_disconnect s handle =
    let (done, s') = set_state s handle disconnecting in
    if (get_state s handle == pending) || (get_state s handle == connected)
    then (if done then (none, s') else (some false, s'))
    else (if get_state s handle == disconnecting then (some true, s) else (some false, s))
