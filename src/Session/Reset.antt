-- ===== src/Session/Reset.antt =====
-- OverlappedEx::Reset and the deleter that SessionManager gives to the session pool: what a session is when it is
-- given back.
use server_study.Prelude.{ℕ, ◌+◌, ◌≡◌, refl, false, List, [], arith, inr}
use server_study.SparseSet.{SparseSet, invalid_handle, is_valid}
use server_study.SparseSet.Invariant.{Config}
use server_study.SparseSet.Handles.{invalid_handle_lem}
use server_study.Session.{IoType, OverlappedEx, Session, Env}
use server_study.Session.Contents.{contents, IsReady}
use server_study.Session.Sends.{Event, IsPossible, Busy, completions, under_way, after}
use server_study.Session.Queue.{run, run-after}
use server_study.Session.Writing.{Counts}

module _ {W P : Type 0} (env : Env W P) where
  -- `wsaBuf_ = {}` leaves a null pointer, which stands here as the position 0.
  unfoldable pub reset_ov : OverlappedEx P → W → OverlappedEx P × W
  reset_ov ov w =
      let (ptr, w') = env.reset w ov.session_ptr in
      (
        record {
          io_type = IoType.no_io;
          wsa_buf = 0;
          wsa_len = 0;
          buffer = λ i. 0;
          session_ptr = ptr;
          read_pos = 0;
          write_pos = 0;
        },
        w',
      )

  -- The deleter.
  unfoldable pub give_back : Session P → W → Session P × W
  give_back s w =
      let (read_ov, w1) = reset_ov s.read_ov w in
      let (write_ov, w2) = reset_ov s.write_ov w1 in
      (
        record {
          handle = invalid_handle;
          read_ov = read_ov;
          write_ov = write_ov;
          is_sending = false;
        },
        w2,
      )

  -- A session that was given back, in whatever state it was, starts afresh: its handle is not valid in any set of
  -- fewer than 2^32 slots; nothing waits in its read buffer, which is ready for a receive; isSending_ is not set; and
  -- through any possible sequence of SendPacket calls and completions its write buffer holds what the bounded
  -- queue, which was empty at the start, holds, and WSASend is called once for each completion and once more if there
  -- is still something to send, with isSending_ set exactly then.
  pub give_back-run :
      {n k : ℕ} (s : Session P) (w : W) (sessions : SparseSet) (events : List Event) (sends : W → ℕ)
      → Config n k
      → Counts env sends
      → IsPossible [] events
      → let (fresh, w') = give_back s w in
        let (s', w2) = run env fresh w' events in
        (is_valid n sessions fresh.handle ≡ false)
        × IsReady fresh.read_ov
        × (contents fresh.read_ov ≡ [])
        × (fresh.is_sending ≡ false)
        × IsReady s'.write_ov
        × (contents s'.write_ov ≡ after [] events)
        × Busy s'
        × (sends w2 ≡ sends w' + completions events + under_way s'.is_sending)
  unfolding give_back reset_ov
  give_back-run s w sessions events sends c k possible =
      let (fresh, w') = give_back s w in
      let ready : IsReady fresh.write_ov = record {
        ordered = omega arith;
        fits = omega arith;
        inside = omega arith;
      } in
      let (v, queued, busy, called) =
        run-after env fresh w' events sends k ready (inr (refl, refl)) possible in
      (
        invalid_handle_lem sessions c,
        record { ordered = omega arith; fits = omega arith; inside = omega arith },
        refl,
        refl,
        v,
        queued,
        busy,
        omega (arith, called),
      )
