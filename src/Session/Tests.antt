-- ===== src/Session/Tests.antt =====
-- A connection whose handler collects the packets' ids, and refuses id 3.
use server_study.Prelude.{
  ℕ, zero, suc, ◌+◌, ◌-◌, ◌%◌, ◌≡◌, refl, inr, Bool, true, false, not, none, some, List, [], ◌∷◌,
  ◌++◌, Array, ◌==◌, if◌then◌else◌, length, arith,
}
use server_study.Session.{
  magic_buffer_size, IoType, OverlappedEx, Session, Env, header_size, is_posted, process,
  wrap_positions, register_read, on_read, wsa_io_pending, send_packet, on_write, register_write,
}
use server_study.Session.Contents.{contents, IsReady}
use server_study.Session.Stream.{Handles}
use server_study.Session.Reading.{receive, stream, Waits, register_read_lem, on_read_lem}
use server_study.Session.Writing.{packet_bytes, Counts}
use server_study.Session.Reset.{give_back, give_back-run}
use server_study.SparseSet.{is_valid}
use server_study.SparseSet.Invariant.{Config}
use server_study.SparseSet
use server_study.Session.Sends.{
  Event, packet, completion, after, Busy, under_way, IsPossible, stop, send, complete,
}
use server_study.Session.Queue.{step, run, run-after}

abbrev env : Env (List ℕ) Bool
env = record {
  hold = λ w handle ptr. (true, w);
  reset = λ w ptr. (false, w);
  wsa_recv = λ w pos len. (some wsa_io_pending, w);
  wsa_send = λ w b pos len. (none, w);
  execute = λ w b p. let id = b ((p + 2) % magic_buffer_size) in (not (id == 3), w ++ id ∷ []);
}

abbrev cells : List ℕ → Array ℕ
cells [] i = 0
cells (x ∷ xs) zero = x
cells (x ∷ xs) (suc i) = cells xs i

-- Two packets of ids 1 and 2, and the start of a third.
abbrev bytes : Array ℕ
bytes = cells (4 ∷ 0 ∷ 1 ∷ 0 ∷ 5 ∷ 0 ∷ 2 ∷ 0 ∷ 9 ∷ 6 ∷ 0 ∷ [])

abbrev ov : OverlappedEx Bool
ov = record {
  io_type = IoType.no_io;
  wsa_buf = 0;
  wsa_len = 0;
  buffer = bytes;
  session_ptr = false;
  read_pos = 0;
  write_pos = 0;
}

abbrev session : Session Bool
session = record { handle = 7; read_ov = ov; write_ov = ov; is_sending = false }

ov-IsReady : IsReady ov
ov-IsReady = record { ordered = omega arith; fits = omega arith; inside = omega arith }

-- Both packets are handled, and two bytes wait.
both :
    ((on_read env session [] 11).0 ≡ true)
    × ((on_read env session [] 11).2 ≡ 1 ∷ 2 ∷ [])
    × (contents (on_read env session [] 11).1.read_ov ≡ 6 ∷ 0 ∷ [])
unfolding on_read process wrap_positions register_read header_size is_posted
both = (refl, refl, refl)

register_read_lem_example :
    let (posted, s', w') = register_read env session [] in
    IsReady s'.read_ov
    × (contents s'.read_ov ≡ contents session.read_ov)
    × (s'.read_ov.wsa_len ≡ magic_buffer_size - length (contents session.read_ov))
    × (posted ≡ (
        if length (contents session.read_ov) == magic_buffer_size
        then false
        else is_posted (receive env session [])))
register_read_lem_example = register_read_lem env session [] ov-IsReady

on_read_lem_example :
    (done : Bool) × (w' : List ℕ) × (rest : List ℕ) × Handles env []
      (stream env session 11)
      done
      w'
      rest
    × (if done
        then Waits env w' rest (on_read env session [] 11)
        else ((on_read env session [] 11).0 ≡ false) × ((on_read env session [] 11).2 ≡ w'))
on_read_lem_example = on_read_lem env session [] 11 ov-IsReady (omega arith)

-- A send of four bytes is under way.
abbrev sending : Session Bool
sending = record session { write_ov = record ov { write_pos = 4 }; is_sending = true }

sending-IsReady : IsReady sending.write_ov
sending-IsReady = record { ordered = omega arith; fits = omega arith; inside = omega arith }

abbrev events : List Event
events = packet bytes ∷ packet bytes ∷ completion 3 ∷ []

events-IsPossible : IsPossible [] events
unfolding header_size
events-IsPossible = send [] bytes _ (omega arith) (omega arith) (
    send (packet_bytes bytes) bytes _ (omega arith) (omega arith) (
      complete (packet_bytes bytes ++ packet_bytes bytes) 3 [] (omega arith) (omega arith)
        (stop _)))

-- WSASend counts its calls.
abbrev counting : Env ℕ Bool
counting = record {
  hold = λ w handle ptr. (true, w);
  reset = λ w ptr. (false, w);
  wsa_recv = λ w pos len. (none, w);
  wsa_send = λ w b pos len. (some wsa_io_pending, w + 1);
  execute = λ w b p. (true, w);
}

counting-Counts : Counts counting (λ w. w)
counting-Counts = record {
  held = λ w handle ptr. refl;
  dropped = λ w ptr. refl;
  called = λ w b pos len. refl;
}

-- The first packet is sent at once; when three of its four bytes have gone, the rest is, with the second packet.
queued_runs :
    ((run counting session 0 events).1 ≡ 2)
    × ((run counting session 0 events).0.is_sending ≡ true)
    × (length (contents (run counting session 0 events).0.write_ov) ≡ 5)
unfolding run step send_packet on_write register_write wrap_positions header_size is_posted
queued_runs = (refl, refl, refl)

run-after_example :
    let (s', w') = run counting session 0 events in
    IsReady s'.write_ov
    × (contents s'.write_ov ≡ after [] events)
    × Busy s'
    × (w' + 0 ≡ 0 + 1 + under_way s'.is_sending)
run-after_example =
    run-after counting session 0 events (λ w. w) counting-Counts ov-IsReady (inr (refl, refl))
      events-IsPossible

-- A session whose send never completed is given back and gets two packets.
give_back-run_example :
    let (fresh, w') = give_back counting sending 0 in
    let (s', w2) = run counting fresh w' events in
    (is_valid 10 (SparseSet.init 10) fresh.handle ≡ false)
    × IsReady fresh.read_ov
    × (contents fresh.read_ov ≡ [])
    × (fresh.is_sending ≡ false)
    × IsReady s'.write_ov
    × (contents s'.write_ov ≡ after [] events)
    × Busy s'
    × (w2 ≡ w' + 1 + under_way s'.is_sending)
give_back-run_example =
    let c : Config 10 3 = omega arith in
    give_back-run counting sending 0 (SparseSet.init 10) events (λ w. w) c counting-Counts
      events-IsPossible
