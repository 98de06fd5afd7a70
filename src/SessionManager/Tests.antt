-- ===== src/SessionManager/Tests.antt =====
-- Two places for sessions: the first is created and connected, and gets a broadcast.
use server_study.Prelude.{
  ℕ, ◌+◌, ◌≡◌, ◌≢◌, refl, ◌⊎◌, inr, Bool, true, false, none, [], ◌∷◌, Array, memory, arith, List,
  ◌++◌, ◌==◌, if◌then◌else◌, Bool-cases, inl, some, Distinct,
}
use server_study.SparseSet.{SparseSet, who_of, state_of, get_handle, get_indices_in_state}
use server_study.SparseSet
use server_study.SparseSet.Invariant.{Config}
use server_study.SparseSet.Move.{Reaches, move_to_state-Reaches}
use server_study.SparsePool.{Ptr, Options, null_ptr, is_valid, init, get_obj}
use server_study.Session.{IoType, OverlappedEx, Session, Env, header_size, send_packet}
use server_study.Session.Contents.{contents}
use server_study.Session.Sends.{packet, next}
use server_study.Session.Queue.{Inv}
use server_study.SessionState.{idle, pending, connected}
use server_study.SessionManager.{SessionManager, create_session, broadcast}
use server_study.SessionManager.Table.{Table, init-Table, connected-Table, create_session_lem}
use server_study.SessionManager.Delivery.{broadcast-contents}
use server_study.SessionManager.Startup.{
  register_all, register_session, register_obj, init_sessions, Registered, init_sessions_lem,
}

abbrev env : Env ℕ Bool
env = record {
  hold = λ w handle ptr. (true, w);
  reset = λ w ptr. (false, w);
  wsa_recv = λ w pos len. (none, w);
  wsa_send = λ w b pos len. (none, w + 1);
  execute = λ w b p. (true, w);
}

abbrev ov : OverlappedEx Bool
ov = record {
  io_type = IoType.no_io;
  wsa_buf = 0;
  wsa_len = 0;
  buffer = λ i. 0;
  session_ptr = false;
  read_pos = 0;
  write_pos = 0;
}

abbrev session : Session Bool
session = record { handle = 0; read_ov = ov; write_ov = ov; is_sending = false }

abbrev options : Options (Session Bool)
options = record {
  size = 2;
  state_count = 4;
  is_lazy = false;
  deleter = none;
  post_release = λ p. p;
}

two-Config : Config 2 4
two-Config = omega arith

abbrev manager : SessionManager (Session Bool)
manager = record { session_pool = init options (λ i. session); session_ptrs = λ i. null_ptr }

manager-Table : Table options manager.session_pool.set manager.session_ptrs
unfolding init
manager-Table = init-Table options two-Config

abbrev claim : ℕ → Session Bool → Session Bool
claim h s = record s { handle = h }

first_idle : state_of manager.session_pool.set 1 ≡ 0
unfolding init SparseSet.init
first_idle = refl

create_session_lem_example :
    let (new, m') = create_session options claim manager session in
    Table options m'.session_pool.set m'.session_ptrs
    × (new.pool ≡ true)
    × (is_valid options m'.session_pool new.handle ≡ true)
    × (state_of manager.session_pool.set (who_of new.handle) ≡ 0)
    × (state_of m'.session_pool.set (who_of new.handle) ≡ pending)
    × (m'.session_ptrs (who_of new.handle) ≡ new)
create_session_lem_example =
    create_session_lem options two-Config claim manager session 1 manager-Table (omega arith)
      (omega arith) first_idle

abbrev first : Ptr
first = (create_session options claim manager session).0

abbrev pending_manager : SessionManager (Session Bool)
pending_manager = (create_session options claim manager session).1

first_valid : SparseSet.is_valid 2 pending_manager.session_pool.set first.handle ≡ true
unfolding is_valid
first_valid = create_session_lem_example.2

first-Reaches :
    Reaches 2 4 pending_manager.session_pool.set
      (who_of first.handle)
      connected
      (SparseSet.move_to_state 2 4 pending_manager.session_pool.set first.handle connected)
first-Reaches =
    move_to_state-Reaches two-Config first.handle connected create_session_lem_example.0.inv
      first_valid (omega arith)

abbrev connected_manager : SessionManager (Session Bool)
connected_manager = record pending_manager {
  session_pool = record {
    set = (SparseSet.move_to_state 2 4 pending_manager.session_pool.set first.handle connected).1;
    slots = λ i. record { obj = session; handle = 0; ref_count = 1 };
  };
}

connected_manager-Table :
    Table options connected_manager.session_pool.set connected_manager.session_ptrs
connected_manager-Table =
    connected-Table options two-Config pending_manager.session_pool.set
      connected_manager.session_pool.set (who_of first.handle) pending_manager.session_ptrs
      create_session_lem_example.0 create_session_lem_example.4
      (record {
        done = refl;
        inv = first-Reaches.inv;
        arrived = first-Reaches.arrived;
        others = first-Reaches.others;
        generations = first-Reaches.generations;
      })

first-Inv : Inv (connected_manager.session_pool.slots 0).obj
first-Inv = record {
  ready = record { ordered = omega arith; fits = omega arith; inside = omega arith };
  busy = inr refl;
}

abbrev chat : Array ℕ
chat = memory (6 ∷ 0 ∷ 2 ∷ 0 ∷ 72 ∷ 105 ∷ [])

broadcast-contents_example :
    let (ok, m', w') = broadcast options (send_packet env) connected_manager 0 chat 1 in
    let before = contents (connected_manager.session_pool.slots 0).obj.write_ov in
    let after = contents (m'.session_pool.slots 0).obj.write_ov in
    Inv (m'.session_pool.slots 0).obj
    × (((state_of connected_manager.session_pool.set 0 ≡ connected)
          × (get_handle connected_manager.session_pool.set 0 ≢ 1)
          × (after ≡ next before (packet chat)))
        ⊎ (((state_of connected_manager.session_pool.set 0 ≢ connected)
              ⊎ (get_handle connected_manager.session_pool.set 0 ≡ 1))
            × (after ≡ before)))
unfolding header_size
broadcast-contents_example =
    broadcast-contents env options connected_manager 0 chat 1 0 two-Config connected_manager-Table
      (omega arith) (omega arith) (omega arith) first-Inv

-- A completion port that takes the first session and not the second.
abbrev socket_of : Session Bool → ℕ
socket_of s = 5

abbrev register : List (ℕ × ℕ) → ℕ → ℕ → Bool × List (ℕ × ℕ)
register log socket key = if key == 0 then (true, log ++ (socket, key) ∷ []) else (false, log)

init_sessions_runs :
    init_sessions options socket_of register manager.session_pool [] ≡ some (false, (5, 0) ∷ [])
unfolding init_sessions register_all register_session register_obj init get_indices_in_state
    SparseSet.init get_obj SparseSet.is_valid
init_sessions_runs = refl

init_sessions_lem_example :
    let p = manager.session_pool in
    let handles = get_indices_in_state 4 p.set idle in
    ((ok : Bool) × (w' : List (ℕ × ℕ)) × (init_sessions options socket_of register p []
        ≡ some (ok, w'))
      × Registered options socket_of register (λ log. log) p handles [] ok w')
    × Distinct handles
init_sessions_lem_example =
    init_sessions_lem options socket_of register (λ log. log)
      (λ log socket key. elim (Bool-cases (key == 0)) [ inl e ↦ rw e refl | inr e ↦ rw e refl ])
      manager.session_pool [] two-Config manager-Table.inv (omega arith)
