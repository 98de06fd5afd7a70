-- ===== src/Session/Process.antt =====
-- The loop of OnRead.
use server_study.Prelude.{
  ℕ, zero, suc, ◌+◌, ◌*◌, ◌-◌, ◌≤◌, ◌≡◌, refl, ap, ap₂, sym, ◌∙◌, subst, inl, inr, Bool, true,
  false, ◌||◌, add64, sub64, ltb, leb, window, drop-window, arith, Bool-cases,
}
use server_study.Session.{magic_buffer_size, OverlappedEx, Env, header_size, process}
use server_study.Session.Contents.{contents, length-contents}
use server_study.Session.Stream.{
  size_of, IsPartial, IsWhole, Stands, Handles, wait, bad, failed, handled, size_of-window,
}

module _ {W P : Type 0} (env : Env W P) where
  -- What the loop of OnRead reaches.
  pub record Processed (ov : OverlappedEx P) (w : W) (r : Bool × OverlappedEx P × W) : Type 0 where
    pub handles : Handles env w (contents ov) r.0 r.2 (contents r.1)
    pub kept : r.1.write_pos ≡ ov.write_pos
    pub forward : ov.read_pos ≤ r.1.read_pos
    pub ordered : r.1.read_pos ≤ r.1.write_pos
    pub waits : r.0 ≡ true → IsPartial (contents r.1)
    pub buffer : r.1.buffer ≡ ov.buffer

  waiting :
      (ov : OverlappedEx P) (w : W)
      → ov.read_pos ≤ ov.write_pos
      → IsPartial (contents ov)
      → Processed ov w (true, ov, w)
  waiting ov w o part = record {
    handles = wait w (contents ov) part;
    kept = refl;
    forward = omega arith;
    ordered = o;
    waits = λ e. part;
    buffer = refl;
  }

  refused :
      (ov : OverlappedEx P) (w w' : W)
      → ov.read_pos ≤ ov.write_pos
      → Handles env w (contents ov) false w' (contents ov)
      → Processed ov w (false, ov, w')
  refused ov w w' o h = record {
    handles = h;
    kept = refl;
    forward = omega arith;
    ordered = o;
    waits = λ e. ground arith;
    buffer = refl;
  }

  contents-Stands : (ov : OverlappedEx P) → Stands ov.buffer ov.read_pos (contents ov)
  contents-Stands ov = ap (window ov.buffer magic_buffer_size ov.read_pos) (length-contents ov)

  -- A round that goes on.
  continued :
      (ov : OverlappedEx P) (w w' : W) (size : ℕ) (r : Bool × OverlappedEx P × W)
      → size ≡ size_of (contents ov)
      → IsWhole (contents ov)
      → env.execute w ov.buffer ov.read_pos ≡ (true, w')
      → Processed (record ov { read_pos = ov.read_pos + size }) w' r
      → Processed ov w r
  continued ov w w' size r e whole run rest = record {
    handles =
        handled w w' r.2 (contents ov) (contents r.1) r.0 ov.buffer ov.read_pos whole
          (contents-Stands ov) run
          (subst (λ bytes. Handles env w' bytes r.0 r.2 (contents r.1))
            (sym (
              drop-window ov.buffer magic_buffer_size ov.read_pos (size_of (contents ov))
                (ov.write_pos - ov.read_pos) (omega (arith, whole.complete, length-contents ov))
              ∙ ap₂ (λ i n. window ov.buffer magic_buffer_size i n) (omega arith) (omega arith)))
            rest.handles);
    kept = rest.kept;
    forward = omega (arith, rest.forward);
    ordered = rest.ordered;
    waits = rest.waits;
    buffer = rest.buffer;
  }

  pub process-Processed :
      (rounds : ℕ) (ov : OverlappedEx P) (w : W)
      → ov.read_pos ≤ ov.write_pos
      → ov.write_pos ≤ 3 * magic_buffer_size
      → ov.write_pos ≤ ov.read_pos + magic_buffer_size
      → ov.write_pos - ov.read_pos ≤ rounds
      → Processed ov w (process env rounds ov w)
  unfolding process
  process-Processed zero ov w o h f e = waiting ov w o (record {
    short = inl (omega (arith, length-contents ov));
    small = omega (arith, length-contents ov);
  })
  process-Processed (suc rounds) ov w o h f e =
      let size = header_size ov.buffer ov.read_pos in
      let run = env.execute w ov.buffer ov.read_pos in
      let available : sub64 ov.write_pos ov.read_pos ≡ ov.write_pos - ov.read_pos = omega arith in
      let length_lem = length-contents ov in
      elim (Bool-cases (ltb (ov.write_pos - ov.read_pos) 4)) [
        | inl short ↦
            rw (available, short)
              (waiting ov w o (record {
                short = inl (ground (arith, length_lem));
                small = ground (arith, length_lem);
              }))
        | inr header ↦
            let size_lem : size_of (contents ov) ≡ size =
              size_of-window ov.buffer ov.read_pos (ov.write_pos - ov.read_pos) (ground arith) in
            elim (Bool-cases (ltb size 4 || leb magic_buffer_size size)) [
              | inl wrong ↦
                  rw (available, header, wrong)
                    (refused ov w w o (
                      bad w (contents ov) (record {
                        header = ground (arith, length_lem);
                        size = ground (arith, size_lem);
                      })))
              | inr right ↦ elim (Bool-cases (ltb (ov.write_pos - ov.read_pos) size)) [
                | inl cut ↦
                    rw (available, header, right, cut)
                      (waiting ov w o (record {
                        short =
                            inr (ground (arith, length_lem, size_lem), ground (arith, size_lem));
                        small = ground (arith, length_lem, size_lem);
                      }))
                | inr enough ↦
                    let whole : IsWhole (contents ov) = record {
                      at_least = ground (arith, size_lem);
                      below = ground (arith, size_lem);
                      complete = ground (arith, length_lem, size_lem);
                    } in
                    elim (Bool-cases run.0) [
                      | inl done ↦
                          let next : add64 ov.read_pos size ≡ ov.read_pos + size =
                            omega (arith, whole, size_lem, length_lem) in
                          rw (available, header, right, enough, done, next)
                            (continued ov w run.1 size _ (sym size_lem) whole
                              (ap (λ b. (b, run.1)) done)
                              (process-Processed rounds
                                (record ov { read_pos = ov.read_pos + size }) run.1
                                (omega (arith, whole, size_lem, length_lem)) h (omega arith)
                                (omega (arith, whole, size_lem))))
                      | inr stop ↦
                          rw (available, header, right, enough, stop)
                            (refused ov w run.1 o (
                              failed w run.1 (contents ov) ov.buffer ov.read_pos whole
                                (contents-Stands ov) (ap (λ b. (b, run.1)) stop)))
                    ]
              ]
            ]
      ]
