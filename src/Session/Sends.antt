-- ===== src/Session/Sends.antt =====
-- SendPacket and completions of sends as events on a bounded queue of bytes: what each of them does to the contents of
-- the write buffer, to isSending_ and to the number of calls of WSASend.
use server_study.Prelude.{
  ℕ, ◌+◌, ◌^◌, ◌≤◌, ◌<◌, ◌≡◌, ◌≢◌, refl, ap, sym, ◌∙◌, ◌⊎◌, inl, inr, Bool, true, false, List, [],
  ◌∷◌, ◌++◌, Array, if◌then◌else◌, ltb, length, length-append, length-window, drop, arith,
  Bool-cases,
}
use server_study.Session.{magic_buffer_size, Session, Env, header_size, on_write, send_packet}
use server_study.Session.Contents.{contents, IsReady}
use server_study.Session.Writing.{packet_bytes, Counts, send_packet_lem, on_write_lem}

-- A packet that is to be sent, or the completion of a send of so many bytes.
pub data Event : Type 0 where
  packet : Array ℕ → Event
  completion : ℕ → Event

-- What an event means to a queue of at most a buffer's bytes.
abbrev pub next : List ℕ → Event → List ℕ
next queue (packet p) =
    if ltb magic_buffer_size (length queue + header_size p 0)
    then queue
    else queue ++ packet_bytes p
next queue (completion n) = drop n queue

abbrev pub after : List ℕ → List Event → List ℕ
after queue [] = queue
after queue (event ∷ events) = after (next queue event) events

-- Packets have 16-bit sizes and at least a header, and a send that completes has sent some of the bytes that there are.
pub data IsPossible : List ℕ → List Event → Type 0 where
  stop : (queue : List ℕ) → IsPossible queue []
  send :
      (queue : List ℕ) (p : Array ℕ) (events : List Event)
      → 4 ≤ header_size p 0
      → header_size p 0 < 2 ^ 16
      → IsPossible (next queue (packet p)) events
      → IsPossible queue (packet p ∷ events)
  complete :
      (queue : List ℕ) (n : ℕ) (events : List Event)
      → 0 < n
      → n ≤ length queue
      → IsPossible (drop n queue) events
      → IsPossible queue (completion n ∷ events)

-- The sends that are under way: one or none.
abbrev pub under_way : Bool → ℕ
under_way sending = if sending then 1 else 0

abbrev pub completions : List Event → ℕ
completions [] = 0
completions (packet p ∷ events) = completions events
completions (completion n ∷ events) = completions events + 1

module _ {P : Type 0} where
  -- isSending_ is set exactly while there is something to send.
  abbrev pub Busy : Session P → Type 0
  Busy s =
      ((s.is_sending ≡ true) × (contents s.write_ov ≢ []))
      ⊎ ((s.is_sending ≡ false) × (contents s.write_ov ≡ []))

module _ {W P : Type 0} (env : Env W P) where
  -- What an event does to the flag and to the number of calls of WSASend, if so many sends complete.
  pub record Goes (s : Session P) (w : W) (completed : ℕ) (queue : List ℕ) (s' : Session P) (w' : W)
      : Type 0 where
    pub ready : IsReady s'.write_ov
    pub kept : contents s'.write_ov ≡ queue
    pub busy : Busy s'
    pub called :
        (sends : W → ℕ)
        → Counts env sends
        → sends w' + under_way s.is_sending ≡ sends w + completed + under_way s'.is_sending

  pub packet-Goes :
      (s : Session P) (w : W) (p : Array ℕ)
      → IsReady s.write_ov
      → Busy s
      → 4 ≤ header_size p 0
      → header_size p 0 < 2 ^ 16
      → let (answer, s', w') = send_packet env s w p in
        Goes s w 0 (next (contents s.write_ov) (packet p)) s' w'
  packet-Goes s w p v b long h =
      let e = send_packet_lem env s w p v h in
      elim (Bool-cases (ltb magic_buffer_size (length (contents s.write_ov) + header_size p 0))) [
        | inl full ↦
            let same = rw full at e in
            rw (full, same)
              (record { ready = v; kept = refl; busy = b; called = λ sends k. omega arith })
        | inr room ↦
            let a = rw room at e in
            let bytes = length-window p magic_buffer_size 0 (header_size p 0) in
            let len = length-append (contents s.write_ov) (packet_bytes p) in
            rw room (record {
              ready = a.ready;
              kept = a.kept;
              busy = inl (
                a.sending,
                λ none_left.
                    let l = ap length (sym a.kept ∙ none_left) in
                    omega (arith, l, len, bytes, long),
              );
              called = λ sends k. elim a.send [
                | inl (was, answer, same) ↦
                    let e = ap sends same in
                    omega (arith, e, ap under_way was, ap under_way a.sending)
                | inr (was, t, c, posts) ↦
                    let once = posts.called sends k in
                    omega (arith, once, ap under_way was, ap under_way a.sending)
              ];
            })
      ]

  pub completion-Goes :
      (s : Session P) (w : W) (n : ℕ)
      → IsReady s.write_ov
      → Busy s
      → 0 < n
      → n ≤ length (contents s.write_ov)
      → let (answer, s', w') = on_write env s w n in Goes s w 1 (drop n (contents s.write_ov)) s' w'
  completion-Goes s w n v b some_sent h =
      let r = on_write_lem env s w n v h in
      let was : s.is_sending ≡ true = elim b [
        | inl (sending, some_left) ↦ sending
        | inr (idle, empty) ↦ absurd (let l = ap length empty in omega (arith, l, h, some_sent))
      ] in
      elim r.send [
        | inl (empty, over, answer, same) ↦ record {
          ready = r.ready;
          kept = r.kept;
          busy = inr (over, empty);
          called = λ sends k.
              let e = ap sends same in omega (arith, e, ap under_way was, ap under_way over);
        }
        | inr (some_left, still, t, c, posts) ↦ record {
          ready = r.ready;
          kept = r.kept;
          busy = inl (still ∙ was, some_left);
          called = λ sends k.
              let once = posts.called sends k in
              omega (arith, once, ap under_way was, ap under_way still);
        }
      ]
