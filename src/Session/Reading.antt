-- ===== src/Session/Reading.antt =====
-- RegisterRead and OnRead.
use server_study.Prelude.{
  ℕ, ◌+◌, ◌-◌, ◌%◌, ◌^◌, ◌≤◌, ◌≡◌, refl, ap, sym, ◌∙◌, subst, inl, inr, Bool, true, false, Option,
  List, ◌==◌, if◌then◌else◌, add64, sub64, length, arith, Bool-cases, ≢→==,
}
use server_study.Session.{
  magic_buffer_size, Session, Env, is_posted, process, wrap_positions, register_read, on_read,
}
use server_study.Session.Contents.{contents, length-contents, IsReady, wrap_positions_lem}
use server_study.Session.Stream.{IsPartial, Handles}
use server_study.Session.Process.{process-Processed}

module _ {W P : Type 0} (env : Env W P) where
  -- A receive of the free bytes of the buffer, behind its contents: the answer of the socket.
  abbrev pub receive : Session P → W → Option ℕ
  receive s w =
      (env.wsa_recv (env.hold w s.handle s.read_ov.session_ptr).1 s.read_ov.write_pos
        (magic_buffer_size - length (contents s.read_ov))).0

  pub register_read_lem :
      (s : Session P) (w : W)
      → IsReady s.read_ov
      → let (posted, s', w') = register_read env s w in
        IsReady s'.read_ov
        × (contents s'.read_ov ≡ contents s.read_ov)
        × (s'.read_ov.wsa_len ≡ magic_buffer_size - length (contents s.read_ov))
        × (posted ≡ (
            if length (contents s.read_ov) == magic_buffer_size
            then false
            else is_posted (receive s w)))
  unfolding register_read
  register_read_lem s w v =
      let length_lem = length-contents s.read_ov in
      let free : add64 (sub64 magic_buffer_size s.read_ov.write_pos) s.read_ov.read_pos % 2 ^ 32
          ≡ magic_buffer_size - (s.read_ov.write_pos - s.read_ov.read_pos) =
        omega arith in
      elim (Bool-cases ((s.read_ov.write_pos - s.read_ov.read_pos) == magic_buffer_size)) [
        | inl full ↦
            let none_free : magic_buffer_size - (s.read_ov.write_pos - s.read_ov.read_pos) ≡ 0 =
              ground arith in
            rw (length_lem, free, none_free, full)
              (record { ordered = v.ordered; fits = v.fits; inside = v.inside }, refl, refl, refl)
        | inr room ↦
            let some_free : (magic_buffer_size - (s.read_ov.write_pos - s.read_ov.read_pos) == 0)
                ≡ false =
              ground arith in
            let error = λ (n : ℕ).
              is_posted
                (env.wsa_recv (env.hold w s.handle s.read_ov.session_ptr).1 s.read_ov.write_pos
                  (magic_buffer_size - n)).0 in
            elim (Bool-cases (error (s.read_ov.write_pos - s.read_ov.read_pos))) [
              | inl posted ↦
                  rw (length_lem, free, some_free, room, posted)
                    (
                      record { ordered = v.ordered; fits = v.fits; inside = v.inside },
                      refl,
                      refl,
                      sym (ap error length_lem ∙ posted),
                    )
              | inr not_posted ↦
                  rw (length_lem, free, some_free, room, not_posted)
                    (
                      record { ordered = v.ordered; fits = v.fits; inside = v.inside },
                      refl,
                      refl,
                      sym (ap error length_lem ∙ not_posted),
                    )
            ]
      ]

  -- What stands in the read buffer once `transferred` bytes have come.
  abbrev pub stream : Session P → ℕ → List ℕ
  stream s transferred =
      contents (record s.read_ov { write_pos = s.read_ov.write_pos + transferred })

  -- The end of an OnRead whose handlers left `w'` and the bytes `rest`: a receive is asked for, for
  -- the free part of the buffer, which is not empty.
  pub record Waits (w' : W) (rest : List ℕ) (r : Bool × Session P × W) : Type 0 where
    pub partial : IsPartial rest
    pub ready : IsReady r.1.read_ov
    pub kept : contents r.1.read_ov ≡ rest
    pub len : r.1.read_ov.wsa_len ≡ magic_buffer_size - length rest
    pub before : Session P
    pub posted : r.0 ≡ is_posted (receive before w')
    pub before_kept : contents before.read_ov ≡ rest
    pub world : r.2 ≡ (register_read env before w').2

  registered-Waits :
      (s : Session P) (w : W)
      → IsReady s.read_ov
      → IsPartial (contents s.read_ov)
      → Waits w (contents s.read_ov) (register_read env s w)
  registered-Waits s w v part =
      let (ready, kept, len, posted) = register_read_lem s w v in
      record {
        partial = part;
        ready = ready;
        kept = kept;
        len = len;
        before = s;
        posted =
            posted
            ∙ ap (λ b. if b then false else is_posted (receive s w))
                (≢→== _ _ (omega (arith, part.small)));
        before_kept = refl;
        world = refl;
      }

  -- With the positions in order, OnRead handles the stream, with the bytes that have come, packet by
  -- packet. Where that ends in an error it answers false; otherwise it keeps the partial packet, and
  -- answers whether a receive for the free part of the buffer, which is not empty, could be posted.
  pub on_read_lem :
      (s : Session P) (w : W) (transferred : ℕ)
      → IsReady s.read_ov
      → s.read_ov.write_pos + transferred ≤ s.read_ov.read_pos + magic_buffer_size
      → (done : Bool) × (w' : W) × (rest : List ℕ) × Handles env w
          (stream s transferred)
          done
          w'
          rest
        × (if done
            then Waits w' rest (on_read env s w transferred)
            else ((on_read env s w transferred).0 ≡ false) × ((on_read env s w transferred).2 ≡ w'))
  unfolding on_read
  on_read_lem s w transferred v fits =
      let ov = record s.read_ov { write_pos = s.read_ov.write_pos + transferred } in
      let write_lem : add64 s.read_ov.write_pos transferred ≡ s.read_ov.write_pos + transferred =
        omega arith in
      let rounds = sub64 ov.write_pos ov.read_pos in
      let r = process env rounds ov w in
      let h =
        process-Processed env rounds ov w (omega (arith, v)) (omega (arith, v)) fits
          (omega (arith, v)) in
      elim (Bool-cases r.0) [
        | inl done ↦
            let wrapped =
              wrap_positions_lem r.1 h.ordered (omega (arith, h.kept, h.forward, v))
                (omega (arith, h.kept, h.ordered, v)) in
            let s' = record s { read_ov = wrap_positions r.1 } in
            (
              true,
              r.2,
              contents r.1,
              subst (λ b. Handles env w (stream s transferred) b r.2 (contents r.1)) done h.handles,
              rw (write_lem, done)
                  (subst (λ bytes. Waits r.2 bytes (register_read env s' r.2)) wrapped.1
                    (registered-Waits s' r.2 wrapped.0
                      (subst IsPartial (sym wrapped.1) (h.waits done)))),
            )
        | inr stop ↦ (
          false,
          r.2,
          contents r.1,
          subst (λ b. Handles env w (stream s transferred) b r.2 (contents r.1)) stop h.handles,
          rw (write_lem, stop) (refl, refl),
        )
      ]
