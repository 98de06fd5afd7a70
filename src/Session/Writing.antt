-- ===== src/Session/Writing.antt =====
-- SendPacket, OnWrite and RegisterWriteInternal.
use server_study.Prelude.{
  ℕ, ◌+◌, ◌-◌, ◌%◌, ◌^◌, ◌≤◌, ◌<◌, ◌≡◌, ◌≢◌, refl, ap, ap₂, sym, ◌∙◌, ◌⊎◌, inl, inr, Bool, true,
  false, Option, List, [], ◌++◌, Array, if◌then◌else◌, add64, sub64, ltb, length, window, fill,
  drop, length-window, drop-window, window-fill_append, arith, Bool-cases, ℕ_discrete, ≢→==, ==_iff,
}
use server_study.Session.{
  magic_buffer_size, Session, Env, header_size, is_posted, wrap_positions, register_write, on_write,
  send_packet,
}
use server_study.Session.Contents.{contents, length-contents, IsReady, wrap_positions_lem}

-- The bytes of the packet that stands from address 0 on.
abbrev pub packet_bytes : Array ℕ → List ℕ
packet_bytes packet = window packet magic_buffer_size 0 (header_size packet 0)

-- How often WSASend has been called: no other call of the session counts.
pub record Counts {W P : Type 0} (env : Env W P) (sends : W → ℕ) : Type 0 where
  pub held : (w : W) (handle : ℕ) (ptr : P) → sends (env.hold w handle ptr).1 ≡ sends w
  pub dropped : (w : W) (ptr : P) → sends (env.reset w ptr).1 ≡ sends w
  pub called :
      (w : W) (b : Array ℕ) (pos len : ℕ) → sends (env.wsa_send w b pos len).1 ≡ sends w + 1

module _ {W P : Type 0} (env : Env W P) where
  -- A send of all that is in the write buffer: the answer of the socket.
  abbrev pub transmit : Session P → W → Option ℕ
  transmit s w =
      (env.wsa_send (env.hold w s.handle s.write_ov.session_ptr).1 s.write_ov.buffer
        s.write_ov.read_pos (length (contents s.write_ov))).0

  -- What RegisterWriteInternal does: it posts a send of all that is in the buffer.
  pub record Posts (s : Session P) (w : W) (r : Bool × Session P × W) : Type 0 where
    pub ready : IsReady r.1.write_ov
    pub kept : contents r.1.write_ov ≡ contents s.write_ov
    pub buf : r.1.write_ov.wsa_buf ≡ s.write_ov.read_pos
    pub len : r.1.write_ov.wsa_len ≡ length (contents s.write_ov)
    pub sending : r.1.is_sending ≡ s.is_sending
    pub posted : r.0 ≡ is_posted (transmit s w)
    pub called : (sends : W → ℕ) → Counts env sends → sends r.2 ≡ sends w + 1

  pub register_write-Posts :
      (s : Session P) (w : W) → IsReady s.write_ov → Posts s w (register_write env s w)
  unfolding register_write
  register_write-Posts s w v =
      let len_lem : sub64 s.write_ov.write_pos s.write_ov.read_pos % 2 ^ 32
          ≡ s.write_ov.write_pos - s.write_ov.read_pos =
        omega arith in
      let length_lem = length-contents s.write_ov in
      let ptr = env.hold w s.handle s.write_ov.session_ptr in
      let call = λ (n : ℕ). env.wsa_send ptr.1 s.write_ov.buffer s.write_ov.read_pos n in
      let len = s.write_ov.write_pos - s.write_ov.read_pos in
      let once = λ (sends : W → ℕ) (k : Counts env sends).
        k.called ptr.1 s.write_ov.buffer s.write_ov.read_pos len
        ∙ ap (λ n. n + 1) (k.held w s.handle s.write_ov.session_ptr) in
      let error = λ (n : ℕ).
        is_posted
          (env.wsa_send (env.hold w s.handle s.write_ov.session_ptr).1 s.write_ov.buffer
            s.write_ov.read_pos n).0 in
      elim (Bool-cases (error (s.write_ov.write_pos - s.write_ov.read_pos))) [
        | inl posted ↦
            rw (len_lem, posted)
              (record {
                ready = record { ordered = v.ordered; fits = v.fits; inside = v.inside };
                kept = refl;
                buf = refl;
                len = sym length_lem;
                sending = refl;
                posted = sym (ap error length_lem ∙ posted);
                called = once;
              })
        | inr not_posted ↦
            rw (len_lem, not_posted)
              (record {
                ready = record { ordered = v.ordered; fits = v.fits; inside = v.inside };
                kept = refl;
                buf = refl;
                len = sym length_lem;
                sending = refl;
                posted = sym (ap error length_lem ∙ not_posted);
                called = λ sends k. k.dropped (call len).1 ptr.0 ∙ once sends k;
              })
      ]

  -- The state after the answer and the new contents. A send is under way, and nothing else was posted,
  -- or the one that has been asked for is for all of the contents.
  pub record Appends (s : Session P) (w : W) (bytes : List ℕ) (r : Bool × Session P × W)
      : Type 0 where
    pub ready : IsReady r.1.write_ov
    pub kept : contents r.1.write_ov ≡ contents s.write_ov ++ bytes
    pub sending : r.1.is_sending ≡ true
    pub send :
        ((s.is_sending ≡ true) × (r.0 ≡ true) × (r.2 ≡ w))
        ⊎ ((s.is_sending ≡ false)
            × (t : Session P) × (contents t.write_ov ≡ contents s.write_ov ++ bytes)
            × Posts t w r)

  filled-contents :
      (s : Session P) (packet : Array ℕ)
      → let size = header_size packet 0 in
        IsReady s.write_ov
        → s.write_ov.write_pos - s.write_ov.read_pos + size ≤ magic_buffer_size
        → let ov = record s.write_ov {
          buffer =
              fill s.write_ov.buffer magic_buffer_size s.write_ov.write_pos (packet_bytes packet);
          write_pos = s.write_ov.write_pos + size;
        } in
          IsReady ov × (contents ov ≡ contents s.write_ov ++ packet_bytes packet)
  filled-contents s packet v h =
      let size = header_size packet 0 in
      let length_lem = length-window packet magic_buffer_size 0 size in
      (
        record { ordered = omega (arith, v); fits = omega (arith, v); inside = v.inside },
        ap₂
              (λ i n.
                window (fill s.write_ov.buffer magic_buffer_size i (packet_bytes packet))
                  magic_buffer_size s.write_ov.read_pos n)
              (let e : s.write_ov.write_pos
                    ≡ s.write_ov.read_pos + (s.write_ov.write_pos - s.write_ov.read_pos) =
                  omega (arith, v) in
                e)
              (let e : s.write_ov.write_pos + size - s.write_ov.read_pos
                    ≡ s.write_ov.write_pos - s.write_ov.read_pos + length (packet_bytes packet) =
                  omega (arith, v, length_lem) in
                e)
            ∙ window-fill_append s.write_ov.buffer magic_buffer_size s.write_ov.read_pos
                (s.write_ov.write_pos - s.write_ov.read_pos) (packet_bytes packet)
                (omega (arith, length_lem)),
      )

  -- With the positions in order and a size of 16 bits, SendPacket refuses a packet that the buffer has
  -- no room for, changing nothing. Otherwise the packet follows the contents of the buffer; a send is
  -- posted, for all of them, exactly if none was under way.
  pub send_packet_lem :
      (s : Session P) (w : W) (packet : Array ℕ)
      → IsReady s.write_ov
      → header_size packet 0 < 2 ^ 16
      → if ltb magic_buffer_size (length (contents s.write_ov) + header_size packet 0)
        then send_packet env s w packet ≡ (false, s, w)
        else Appends s w (packet_bytes packet) (send_packet env s w packet)
  unfolding send_packet
  send_packet_lem s w packet v h =
      let length_lem = length-contents s.write_ov in
      let size = header_size packet 0 in
      let test : add64 (sub64 s.write_ov.write_pos s.write_ov.read_pos) size
          ≡ s.write_ov.write_pos - s.write_ov.read_pos + size =
        omega (arith, v) in
      let write_lem : add64 s.write_ov.write_pos size ≡ s.write_ov.write_pos + size =
        omega (arith, v) in
      elim (Bool-cases
        (ltb magic_buffer_size (s.write_ov.write_pos - s.write_ov.read_pos + size))) [
          | inl full ↦ rw (length_lem, test, full) refl
          | inr room ↦
              let after = filled-contents s packet v (ground arith) in
              elim (Bool-cases s.is_sending) [
                | inl busy ↦
                    rw (length_lem, test, room, busy, write_lem)
                      (record {
                        ready = after.0;
                        kept = after.1;
                        sending = refl;
                        send = inl (refl, refl, refl);
                      })
                | inr idle ↦
                    let ov = record s.write_ov {
                      buffer =
                          fill s.write_ov.buffer magic_buffer_size s.write_ov.write_pos
                            (packet_bytes packet);
                      write_pos = s.write_ov.write_pos + size;
                    } in
                    let t = record s { write_ov = ov; is_sending = true } in
                    let p = register_write-Posts t w after.0 in
                    rw (length_lem, test, room, idle, write_lem)
                      (record {
                        ready = p.ready;
                        kept = p.kept ∙ after.1;
                        sending = p.sending;
                        send = inr (refl, t, after.1, p);
                      })
              ]
        ]

  -- OnWrite after `transferred` bytes of the contents have been sent: these leave the buffer. The send
  -- is over if that is all; otherwise a send of the rest is posted.
  pub record Removes (s : Session P) (w : W) (transferred : ℕ) (r : Bool × Session P × W)
      : Type 0 where
    pub ready : IsReady r.1.write_ov
    pub kept : contents r.1.write_ov ≡ drop transferred (contents s.write_ov)
    pub send :
        ((contents r.1.write_ov ≡ []) × (r.1.is_sending ≡ false) × (r.0 ≡ true) × (r.2 ≡ w))
        ⊎ ((contents r.1.write_ov ≢ [])
            × (r.1.is_sending ≡ s.is_sending)
            × (t : Session P) × (contents t.write_ov ≡ contents r.1.write_ov)
            × Posts t w r)

  -- With the positions in order, OnWrite takes the bytes that have been sent, no more than there are,
  -- from the front of the buffer. It ends the send if none is left, and posts one for all the rest
  -- otherwise.
  pub on_write_lem :
      (s : Session P) (w : W) (transferred : ℕ)
      → IsReady s.write_ov
      → transferred ≤ length (contents s.write_ov)
      → Removes s w transferred (on_write env s w transferred)
  unfolding on_write
  on_write_lem s w transferred v h =
      let length_lem = length-contents s.write_ov in
      let read_lem : add64 s.write_ov.read_pos transferred ≡ s.write_ov.read_pos + transferred =
        omega (arith, v, length_lem, h) in
      let ov = record s.write_ov { read_pos = s.write_ov.read_pos + transferred } in
      let wrapped =
        wrap_positions_lem ov (omega (arith, v, length_lem, h)) (omega (arith, v))
          (omega (arith, v, length_lem, h)) in
      let dropped : contents ov ≡ drop transferred (contents s.write_ov) =
        (let n : s.write_ov.write_pos - (s.write_ov.read_pos + transferred)
              ≡ s.write_ov.write_pos - s.write_ov.read_pos - transferred =
            omega arith in
          ap (window s.write_ov.buffer magic_buffer_size (s.write_ov.read_pos + transferred)) n)
        ∙ sym (
            drop-window s.write_ov.buffer magic_buffer_size s.write_ov.read_pos transferred
              (s.write_ov.write_pos - s.write_ov.read_pos) (omega (arith, length_lem, h))) in
      let t = record s { write_ov = wrap_positions ov } in
      let left = length-contents t.write_ov in
      elim (ℕ_discrete t.write_ov.read_pos t.write_ov.write_pos) [
        | yes same ↦
            rw (read_lem, (==_iff _ _).1 same)
              (record {
                ready = wrapped.0;
                kept = wrapped.1 ∙ dropped;
                send = inl (
                  ap (window t.write_ov.buffer magic_buffer_size t.write_ov.read_pos) (
                      let e : t.write_ov.write_pos - t.write_ov.read_pos ≡ 0 =
                        omega (arith, same) in
                      e),
                  refl,
                  refl,
                  refl,
                );
              })
        | no differ ↦
            let p = register_write-Posts t w wrapped.0 in
            let some_left : contents t.write_ov ≢ [] =
              λ e. differ (omega (arith, left, ap length e, wrapped.0)) in
            rw (read_lem, ≢→== _ _ differ)
              (record {
                ready = p.ready;
                kept = p.kept ∙ (wrapped.1 ∙ dropped);
                send = inr ((λ e. some_left (sym p.kept ∙ e)), p.sending, t, sym p.kept, p);
              })
      ]
