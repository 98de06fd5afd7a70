-- ===== src/Echo/Tests.antt =====
-- A client that sends two messages and closes the connection.
use server_study.Prelude.{
  ℕ, ◌+◌, ◌-◌, ◌≡◌, refl, sym, Bool, true, false, Option, none, some, List, [], ◌∷◌, ◌++◌, Array,
  update, arith,
}
use server_study.Echo.{
  Sockets, goes_on, echo_back, echo_loop, after_loop, after_accept, after_listen, after_bind,
  after_socket, after_startup, single_main, reply, handle_client,
}
use server_study.Echo.Ledger.{Ledger, Same, MayOpen, Keeps}
use mathlib.Core.List.{append-nil}
use server_study.Echo.Calls.{Log, Received}
use server_study.Echo.Leaving.{Ended, single_main-Ended}

-- The sockets that are open, the starts of Winsock, what was received and what was asked to be sent, the calls that
-- failed, and what is to come.
abbrev World : Type 0
World = Array Bool × ℕ × List (ℕ × List ℕ) × List (ℕ × List ℕ) × ℕ × List (List ℕ)

abbrev open_as : World → ℕ → Bool → Option ℕ × World
open_as w s true = (none, w)
open_as (o, n, r, s, f, m) h false = (some h, (update o h true, n, r, s, f, m))

abbrev receive : World → ℕ → Option (List ℕ) × World
receive (o, n, r, s, f, []) h = (none, (o, n, r, s, f + 1, []))
receive (o, n, r, s, f, bytes ∷ m) h = (some bytes, (o, n, r ++ (h, bytes) ∷ [], s, f, m))

-- `send` takes one byte only.
abbrev put_one : World → ℕ → List ℕ → Option ℕ × World
put_one (o, n, r, s, f, m) h bytes = (some 1, (o, n, r, s ++ (h, bytes) ∷ [], f, m))

-- The listening socket is 3, and that of the client 4. At the end of the messages `recv` fails.
abbrev sockets : Sockets World
sockets = record {
  startup = λ w. (true, (w.0, w.1 + 1, w.2, w.3, w.4, w.5));
  socket = λ w. open_as w 3 (w.0 3);
  bind = λ w s. (true, w);
  listen = λ w s. (true, w);
  accept = λ w s. open_as w 4 (w.0 4);
  recv = λ w s n. receive w s;
  send = λ w s bytes. put_one w s bytes;
  close = λ w s. (update w.0 s false, w.1, w.2, w.3, w.4, w.5);
  cleanup = λ w. (w.0, w.1 - 1, w.2, w.3, w.4, w.5);
}

abbrev ledger : Ledger World
ledger = record { is_open = λ w. w.0; starts = λ w. w.1 }

opened : (w : World) (s : ℕ) (b : Bool) → w.0 s ≡ b → MayOpen ledger w (open_as w s b)
opened w s true e = record { sockets = λ h. refl; starts = refl }
opened w s false e = record { unused = e; sockets = λ h. refl; starts = refl }

receive_lem :
    (w : World) (h : ℕ) (m : List (List ℕ))
    → Same ledger w (receive (w.0, w.1, w.2, w.3, w.4, m) h).1
receive_lem w h [] = record { sockets = λ h. refl; starts = refl }
receive_lem w h (bytes ∷ m) = record { sockets = λ h. refl; starts = refl }

sockets-Keeps : Keeps ledger sockets
sockets-Keeps = record {
  startup = λ w. ((λ h. refl), refl);
  socket = λ w. opened w 3 (w.0 3) refl;
  bind = λ w s. record { sockets = λ h. refl; starts = refl };
  listen = λ w s. record { sockets = λ h. refl; starts = refl };
  accept = λ w s. opened w 4 (w.0 4) refl;
  recv = λ w s n. receive_lem w s w.5;
  send = λ w s bytes. record { sockets = λ h. refl; starts = refl };
  closed = λ w s. ((λ h. refl), refl);
  cleaned =
      λ w some_start. ((λ h. refl), (let e : w.1 - 1 + 1 ≡ w.1 = omega (arith, some_start) in e));
}

abbrev fresh : World
fresh = ((λ h. false), 0, [], [], 0, (1 ∷ 2 ∷ []) ∷ (3 ∷ []) ∷ [])

-- The server returns 0, and has echoed both messages.
abbrev after_single : Option (ℕ × World) → List (ℕ × List ℕ)
after_single none = []
after_single (some (code, w)) = w.3

single_runs : after_single (single_main sockets 3 fresh) ≡ (4, 1 ∷ 2 ∷ []) ∷ (4, 3 ∷ []) ∷ []
unfolding single_main after_startup after_socket after_bind after_listen after_accept after_loop
    echo_loop echo_back goes_on
single_runs = refl

single_main-Ended_example : Ended ledger fresh (single_main sockets 3 fresh)
single_main-Ended_example = single_main-Ended sockets-Keeps 3 fresh

-- MultiThreadEcho sends the first message back, and leaves the second.
multi_runs : (handle_client sockets fresh 4).3 ≡ (4, 1 ∷ 2 ∷ []) ∷ []
unfolding handle_client reply
multi_runs = refl

abbrev log : Log World
log = record { received = λ w. w.2; asked = λ w. w.3; failed = λ w. w.4 }

received :
    (w : World) (h : ℕ) (m : List (List ℕ))
    → w.5 ≡ m
    → Received log w h (receive (w.0, w.1, w.2, w.3, w.4, m) h)
received w h [] e = record {
  received = sym (append-nil w.2);
  asked = sym (append-nil w.3);
  failed = refl;
}
received w h (bytes ∷ m) e = record {
  received = refl;
  asked = sym (append-nil w.3);
  failed = omega arith;
}
