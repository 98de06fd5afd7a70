-- ===== src/Session/Queue.antt =====
-- The write side of a session as a bounded queue of bytes, through any sequence of SendPacket calls
-- and completions of sends.
use server_study.Prelude.{
  ℕ, ◌+◌, ◌^◌, ◌<◌, ◌≡◌, refl, ap, ◌∙◌, ◌⊎◌, inl, inr, Bool, true, List, [], ◌∷◌, Array, ltb,
  length, drop, arith, Bool-cases,
}
use server_study.Session.{magic_buffer_size, Session, Env, header_size, on_write, send_packet}
use server_study.Session.Contents.{contents, IsReady}
use server_study.Session.Sends.{
  Event, packet, completion, next, after, IsPossible, stop, send, complete, completions, under_way,
  Busy, Goes, packet-Goes, completion-Goes,
}
use server_study.Session.Writing.{Counts, send_packet_lem}

module _ {P : Type 0} where
  -- The positions are in order, and isSending_ is set unless there is nothing to send.
  pub record Inv (s : Session P) : Type 0 where
    pub ready : IsReady s.write_ov
    pub busy : (s.is_sending ≡ true) ⊎ (contents s.write_ov ≡ [])

module _ {W P : Type 0} (env : Env W P) where
  unfoldable pub step : Session P → W → Event → Bool × Session P × W
  step s w (packet p) = send_packet env s w p
  step s w (completion n) = on_write env s w n

  unfoldable pub run : Session P → W → List Event → Session P × W
  unfolding step
  run s w [] = (s, w)
  run s w (event ∷ events) = let (answer, s', w') = step s w event in run s' w' events

  pub packet-Inv :
      (s : Session P) (w : W) (p : Array ℕ)
      → Inv s
      → header_size p 0 < 2 ^ 16
      → let s' = (send_packet env s w p).1 in
        Inv s' × (contents s'.write_ov ≡ next (contents s.write_ov) (packet p))
  packet-Inv s w p v h =
      let e = send_packet_lem env s w p v.ready h in
      elim (Bool-cases (ltb magic_buffer_size (length (contents s.write_ov) + header_size p 0))) [
        | inl full ↦ let same = rw full at e in rw (full, same) (v, refl)
        | inr room ↦
            let a = rw room at e in
            rw room (record { ready = a.ready; busy = inl a.sending }, a.kept)
      ]

  run_from :
      {queue : List ℕ} {events : List Event} (s : Session P) (w : W)
      → IsReady s.write_ov
      → Busy s
      → contents s.write_ov ≡ queue
      → IsPossible queue events
      → let (s', w') = run s w events in
        Goes env s w (completions events) (after queue events) s' w'
  unfolding run step
  run_from s w v b e (stop queue) = record {
    ready = v;
    kept = e;
    busy = b;
    called = λ sends k. omega arith;
  }
  run_from s w v b e (send queue p events long small h) =
      let g = packet-Goes env s w p v b long small in
      let r =
        run_from (send_packet env s w p).1 (send_packet env s w p).2 g.ready g.busy
          (g.kept ∙ ap (λ q. next q (packet p)) e) h in
      record {
        ready = r.ready;
        kept = r.kept;
        busy = r.busy;
        called = λ sends k.
            let one = g.called sends k in let rest = r.called sends k in omega (arith, one, rest);
      }
  run_from s w v b e (complete queue n events some_sent le h) =
      let g = completion-Goes env s w n v b some_sent (omega (arith, le, ap length e)) in
      let r =
        run_from (on_write env s w n).1 (on_write env s w n).2 g.ready g.busy
          (g.kept ∙ ap (drop n) e) h in
      record {
        ready = r.ready;
        kept = r.kept;
        busy = r.busy;
        called = λ sends k.
            let one = g.called sends k in let rest = r.called sends k in omega (arith, one, rest);
      }

  -- From a session whose positions are in order and whose isSending_ is set exactly while there is something to send,
  -- through any possible sequence of SendPacket calls and completions: this stays so; the write buffer holds
  -- what the bounded queue holds, a packet being appended as a whole or not at all, and completed bytes leaving
  -- at the front; and WSASend has been called once for each completion, counting the send that was under way at the
  -- start, and once more if there is still something to send.
  pub run-after :
      (s : Session P) (w : W) (events : List Event) (sends : W → ℕ)
      → Counts env sends
      → IsReady s.write_ov
      → Busy s
      → IsPossible (contents s.write_ov) events
      → let (s', w') = run s w events in
        IsReady s'.write_ov
        × (contents s'.write_ov ≡ after (contents s.write_ov) events)
        × Busy s'
        × (sends w' + under_way s.is_sending
            ≡ sends w + completions events + under_way s'.is_sending)
  run-after s w events sends k v b h =
      let g = run_from s w v b refl h in (g.ready, g.kept, g.busy, g.called sends k)
