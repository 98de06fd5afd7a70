-- ===== src/MagicBuffer/Mirror.antt =====
-- MagicBuffer.cpp: what the constructor maps, and what the destructor takes away.
use server_study.Prelude.{
  update_back, ℕ, ◌+◌, ◌*◌, ◌%◌, ◌^◌, ◌<◌, ◌≤◌, ◌≡◌, ◌≢◌, refl, ap, sym, ◌∙◌, subst, Bool, true,
  false, Option, none, some, Array, update, ◌==◌, if◌then◌else◌, arith, Bool-cases, inl, inr,
}
use server_study.MagicBuffer.{
  System, MagicBuffer, second_half, after_second, after_first, map_halves, place, reserve,
  construct, destroy,
}
use server_study.MagicBuffer.Views.{
  View, covers, with_view, without_view, Untouched, Created, Allocated, Mapped, Maps,
}

abbrev pub first_view : MagicBuffer → View
first_view b = record { map = b.map; size = b.size; address = b.buffer }

abbrev pub second_view : MagicBuffer → View
second_view b = record { map = b.map; size = b.size; address = b.buffer + b.size }

module _ {W : Type 0} (views : W → Array (Option View)) (is_open : W → Array Bool) where
  -- Two views of one new section, in a row, where there was none.
  pub record Mirrors (w : W) (size : ℕ) (b : MagicBuffer) (w' : W) : Type 0 where
    pub sized : b.size ≡ size
    pub somewhere : b.buffer ≢ 0
    pub fits : b.buffer + 2 * b.size < 2 ^ 64
    pub is_section : b.map ≢ 0
    pub unused : is_open w b.map ≡ false
    pub handle : (h : ℕ) → is_open w' h ≡ update (is_open w) b.map true h
    pub free : (x : ℕ) → b.buffer ≤ x → x < b.buffer + 2 * b.size → views w x ≡ none
    pub shown :
        (x : ℕ) → views w' x ≡ with_view (with_view (views w) (first_view b)) (second_view b) x

  -- Where the constructor throws, nothing is changed, or the handle of the section stays open, alone or with
  -- a view of it.
  pub data Thrown (w : W) (size : ℕ) (w' : W) : Type 0 where
    clean : Untouched views is_open w w' → Thrown w size w'
    handle_left :
        (map : ℕ)
        → ((x : ℕ) → views w' x ≡ views w x)
        → ((h : ℕ) → is_open w' h ≡ update (is_open w) map true h)
        → Thrown w size w'
    view_left :
        (v : View)
        → v.size ≡ size
        → ((x : ℕ) → views w' x ≡ with_view (views w) v x)
        → ((h : ℕ) → is_open w' h ≡ update (is_open w) v.map true h)
        → Thrown w size w'

  abbrev pub Constructed : W → ℕ → Option MagicBuffer × W → Type 0
  Constructed w size (none, w') = Thrown w size w'
  Constructed w size (some b, w') = Mirrors w size b w'

module _ {W : Type 0} {system : System W} {views : W → Array (Option View)}
    {is_open : W → Array Bool} (maps : Maps views is_open system) where
  second_half_lem :
      (b : MagicBuffer) → b.buffer + 2 * b.size < 2 ^ 64 → second_half b ≡ b.buffer + b.size
  second_half_lem b fits = omega (arith, fits)

  after_second-Constructed :
      (w w2 : W) (b : MagicBuffer) (r : Bool × W)
      → b.buffer ≢ 0
      → b.buffer + 2 * b.size < 2 ^ 64
      → b.map ≢ 0
      → is_open w b.map ≡ false
      → ((x : ℕ) → covers (first_view b) x ≡ true → views w x ≡ none)
      → ((x : ℕ) → views w2 x ≡ with_view (views w) (first_view b) x)
      → ((h : ℕ) → is_open w2 h ≡ update (is_open w) b.map true h)
      → Mapped views is_open w2 (second_view b) r
      → Constructed views is_open w b.size (after_second system b r)
  unfolding after_second
  after_second-Constructed w w2 b (false, w3) somewhere fits is_section unused free shown handle
        mapped =
      Thrown.view_left (first_view b) refl (λ x. mapped.0 x ∙ shown x) (λ h. mapped.1 h ∙ handle h)
  after_second-Constructed w w2 b (true, w3) somewhere fits is_section unused free shown handle
        mapped =
      let (free', shown', handle') = mapped in
      record {
        sized = refl;
        somewhere = somewhere;
        fits = fits;
        is_section = is_section;
        unused = unused;
        handle = λ h. handle' h ∙ handle h;
        free = λ x lo hi. elim (Bool-cases (covers (first_view b) x)) [
          | inl here ↦ free x here
          | inr there ↦
              let here : covers (second_view b) x ≡ true = ground arith in
              let was : with_view (views w) (first_view b) x ≡ none =
                sym (shown x) ∙ free' x here in
              rw there at was
        ];
        shown = λ x. elim (Bool-cases (covers (second_view b) x)) [
          | inl here ↦ shown' x ∙ rw here refl
          | inr there ↦ shown' x ∙ rw there (shown x)
        ];
      }

  after_first-Constructed :
      (w w1 : W) (b : MagicBuffer) (r : Bool × W)
      → b.buffer ≢ 0
      → b.buffer + 2 * b.size < 2 ^ 64
      → b.map ≢ 0
      → is_open w b.map ≡ false
      → ((x : ℕ) → views w1 x ≡ views w x)
      → ((h : ℕ) → is_open w1 h ≡ update (is_open w) b.map true h)
      → Mapped views is_open w1 (first_view b) r
      → Constructed views is_open w b.size (after_first system b r)
  unfolding after_first
  after_first-Constructed w w1 b (false, w2) somewhere fits is_section unused same handle mapped =
      Thrown.handle_left b.map (λ x. mapped.0 x ∙ same x) (λ h. mapped.1 h ∙ handle h)
  after_first-Constructed w w1 b (true, w2) somewhere fits is_section unused same handle mapped =
      let (free, shown, handle') = mapped in
      rw (second_half_lem b fits) (
        after_second-Constructed w w2 b (system.map_view w2 b.map b.size (b.buffer + b.size))
          somewhere fits is_section unused (λ x here. sym (same x) ∙ free x here)
          (λ x.
            shown x ∙ ap (λ v. if covers (first_view b) x then some (first_view b) else v) (same x))
          (λ h. handle' h ∙ handle h) (maps.mapped w2 (second_view b)))

  place-Constructed :
      (w w1 : W) (size map : ℕ) (r : Option ℕ × W)
      → map ≢ 0
      → is_open w map ≡ false
      → ((x : ℕ) → views w1 x ≡ views w x)
      → ((h : ℕ) → is_open w1 h ≡ update (is_open w) map true h)
      → Allocated views is_open w1 (2 * size) r
      → Constructed views is_open w size (place system w1 size map r)
  unfolding place map_halves
  place-Constructed w w1 size map (none, w2) is_section unused same handle allocated =
      let (shown, closed) = maps.closed w2 map in
      Thrown.clean (
        λ x. shown x ∙ (allocated.0 x ∙ same x),
        λ h.
            closed h
            ∙ (ap (λ c. if h == map then false else c) (allocated.1 h ∙ handle h)
                ∙ update_back (is_open w) map true false unused h),
      )
  place-Constructed w w1 size map (some ptr, w2) is_section unused same handle allocated =
      let (somewhere, fits, untouched) = allocated in
      let (same1, handle1) = untouched in
      let (same2, handle2) = maps.freed w2 ptr in
      let b : MagicBuffer = record { map = map; size = size; buffer = ptr } in
      after_first-Constructed w (system.virtual_free w2 ptr) b _ somewhere fits is_section unused
        (λ x. same2 x ∙ (same1 x ∙ same x)) (λ h. handle2 h ∙ (handle1 h ∙ handle h))
        (maps.mapped (system.virtual_free w2 ptr) (first_view b))

  reserve-Constructed :
      (w : W) (size : ℕ) (r : Option ℕ × W)
      → size < 2 ^ 32
      → Created views is_open w r
      → Constructed views is_open w size (reserve system w size r)
  unfolding reserve
  reserve-Constructed w size (none, w1) small created = Thrown.clean created
  reserve-Constructed w size (some map, w1) small created =
      let (is_section, unused, same, handle) = created in
      let doubled : size * 2 % 2 ^ 64 ≡ 2 * size = omega (arith, small) in
      rw doubled (
        place-Constructed w w1 size map _ is_section unused same handle
          (maps.allocated w1 (2 * size)))

  -- The constructor of MagicBuffer, for a size below 2^32: if it does not throw, the addresses from the
  -- buffer on, twice the size, were in no view and are now in two views of one new section, one after the other,
  -- whose handle is open. If it throws, nothing is changed, or the handle of the section stays open,
  -- alone or with a view of it. All other addresses and handles are as before.
  pub construct-Constructed :
      (w : W) (size : ℕ)
      → size < 2 ^ 32
      → Constructed views is_open w size (construct system w size)
  unfolding construct
  construct-Constructed w size small = elim (Bool-cases (size % system.granularity w == 0)) [
    | inl multiple ↦
        rw multiple (reserve-Constructed w size _ small (maps.created w (size % 2 ^ 32)))
    | inr odd ↦ rw odd (Thrown.clean ((λ x. refl), (λ h. refl)))
  ]

  -- The views, as the constructor leaves them, one by one.
  shown_first :
      (w w' : W) (size : ℕ) (b : MagicBuffer)
      → Mirrors views is_open w size b w'
      → (x : ℕ) → covers (first_view b) x ≡ true
      → views w' x ≡ some (first_view b)
  shown_first w w' size b m x here =
      let other : covers (second_view b) x ≡ false = ground arith in
      m.shown x ∙ rw (other, here) refl

  shown_second :
      (w w' : W) (size : ℕ) (b : MagicBuffer)
      → Mirrors views is_open w size b w'
      → (x : ℕ) → covers (second_view b) x ≡ true
      → views w' x ≡ some (second_view b)
  shown_second w w' size b m x here = m.shown x ∙ rw here refl

  shown_else :
      (w w' : W) (size : ℕ) (b : MagicBuffer)
      → Mirrors views is_open w size b w'
      → (x : ℕ)
      → without_view (without_view (views w') (first_view b)) (second_view b) x ≡ views w x
  shown_else w w' size b m x = elim (Bool-cases (covers (second_view b) x)) [
    | inl second ↦ rw second (sym (m.free x (ground arith) (ground arith)))
    | inr not_second ↦ elim (Bool-cases (covers (first_view b) x)) [
      | inl first ↦ rw (not_second, first) (sym (m.free x (ground arith) (ground arith)))
      | inr not_first ↦ rw (not_second, not_first) (m.shown x ∙ rw (not_second, not_first) refl)
    ]
  ]

  -- The destructor of MagicBuffer, right after the constructor, takes away both views and closes the handle of the
  -- section: every address is in the view that it was in before, or in none, and every handle is open if it was
  -- open before. The size is not 0 and below 2^32.
  pub construct-destroy :
      (w w' : W) (size : ℕ) (b : MagicBuffer)
      → 0 < size
      → size < 2 ^ 32
      → construct system w size ≡ (some b, w')
      → Untouched views is_open w (destroy system w' b)
  unfolding destroy
  construct-destroy w w' size b some_bytes small built =
      let m : Mirrors views is_open w size b w' =
        subst (Constructed views is_open w size) built (construct-Constructed w size small) in
      let somewhere : (b.buffer == 0) ≡ false = let e = m.somewhere in ground arith in
      let is_section : (b.map == 0) ≡ false = let e = m.is_section in ground arith in
      let some_bytes' : 0 < b.size = omega (arith, m, some_bytes) in
      let w1 = system.unmap_view w' b.buffer in
      let w2 = system.unmap_view w1 (b.buffer + b.size) in
      let (shown1, open1) =
        maps.unmapped w' (first_view b) some_bytes' (shown_first w w' size b m) in
      let (shown2, open2) = maps.unmapped w1 (second_view b) some_bytes' (λ x here.
        let other : covers (first_view b) x ≡ false = ground arith in
        shown1 x ∙ rw other (shown_second w w' size b m x here)) in
      let (shown3, open3) = maps.closed w2 b.map in
      rw (somewhere, is_section, second_half_lem b m.fits)
        (
          λ x.
              shown3 x
              ∙ (shown2 x
                  ∙ (ap (λ v. if covers (second_view b) x then none else v) (shown1 x)
                      ∙ shown_else w w' size b m x)),
          λ h.
              open3 h
              ∙ (ap (λ c. if h == b.map then false else c) (open2 h ∙ (open1 h ∙ m.handle h))
                  ∙ update_back (is_open w) b.map true false m.unused h),
        )
