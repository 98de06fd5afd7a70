-- ===== src/Session/Contents.antt =====
-- What stands in a magic buffer between its two positions.
use server_study.Prelude.{
  ℕ, ◌+◌, ◌*◌, ◌-◌, ◌≤◌, ◌<◌, ◌≡◌, refl, ap₂, sym, ◌∙◌, inl, inr, List, sub64, leb, length, window,
  length-window, window_round, arith, Bool-cases,
}
use server_study.Session.{magic_buffer_size, OverlappedEx, wrap_positions}

module _ {P : Type 0} where
  -- The bytes between the positions.
  abbrev pub contents : OverlappedEx P → List ℕ
  contents ov = window ov.buffer magic_buffer_size ov.read_pos (ov.write_pos - ov.read_pos)

  pub length-contents : (ov : OverlappedEx P) → length (contents ov) ≡ ov.write_pos - ov.read_pos
  length-contents ov =
      length-window ov.buffer magic_buffer_size ov.read_pos (ov.write_pos - ov.read_pos)

module _ {P : Type 0} where
  -- Between two calls: the first position is inside the buffer.
  pub record IsReady (ov : OverlappedEx P) : Type 0 where
    pub ordered : ov.read_pos ≤ ov.write_pos
    pub fits : ov.write_pos ≤ ov.read_pos + magic_buffer_size
    pub inside : ov.read_pos < magic_buffer_size

  pub wrap_positions_lem :
      (ov : OverlappedEx P)
      → ov.read_pos ≤ ov.write_pos
      → ov.write_pos ≤ ov.read_pos + magic_buffer_size
      → ov.read_pos < 2 * magic_buffer_size
      → IsReady (wrap_positions ov) × (contents (wrap_positions ov) ≡ contents ov)
  unfolding wrap_positions
  wrap_positions_lem ov o f h = elim (Bool-cases (leb magic_buffer_size ov.read_pos)) [
    | inl past ↦
        let ge : magic_buffer_size ≤ ov.read_pos = ground arith in
        let read_lem : sub64 ov.read_pos magic_buffer_size ≡ ov.read_pos - magic_buffer_size =
          omega arith in
        let write_lem : sub64 ov.write_pos magic_buffer_size ≡ ov.write_pos - magic_buffer_size =
          omega arith in
        rw (past, read_lem, write_lem)
          (
            record { ordered = omega arith; fits = omega arith; inside = omega arith },
            sym (
                  window_round ov.buffer magic_buffer_size (ov.read_pos - magic_buffer_size)
                    (ov.write_pos - magic_buffer_size - (ov.read_pos - magic_buffer_size)))
                ∙ ap₂ (λ i n. window ov.buffer magic_buffer_size i n) (omega arith) (omega arith),
          )
    | inr inside ↦
        let lt : ov.read_pos < magic_buffer_size = ground arith in
        rw inside (record { ordered = o; fits = f; inside = lt }, refl)
  ]
