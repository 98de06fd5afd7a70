-- ===== src/MagicBuffer.antt =====
-- Network/Common/MagicBuffer.cpp and MagicBuffer.hpp: a buffer whose second half shows the same bytes as
-- the first.
pub mod Views
pub mod Mirror
pub mod Memory
mod Tests
use server_study.Prelude.{
  ℕ, zero, suc, ◌+◌, ◌*◌, ◌%◌, ◌^◌, ◌≡◌, Bool, true, false, not, Option, none, some, List, [], ◌∷◌,
  Array, update, ◌==◌, if◌then◌else◌,
}

-- The calls of the system. A handle or an address is a word; a call that gives one gives none where it
-- answers with a null pointer. `map_view` maps a section, of which a number of bytes is to be seen, at an
-- address.
pub record System (W : Type 0) : Type 0 where
  pub granularity : W → ℕ
  pub create_file_mapping : W → ℕ → Option ℕ × W
  pub virtual_alloc : W → ℕ → Option ℕ × W
  pub virtual_free : W → ℕ → W
  pub map_view : W → ℕ → ℕ → ℕ → Bool × W
  pub unmap_view : W → ℕ → W
  pub close_handle : W → ℕ → W

pub record MagicBuffer : Type 0 where
  pub map : ℕ
  pub size : ℕ
  pub buffer : ℕ

-- `buffer_ + size_`
abbrev pub second_half : MagicBuffer → ℕ
second_half b = (b.buffer + b.size) % 2 ^ 64

module _ {W : Type 0} (system : System W) where
  -- The constructor from the first view on; none is an exception, which LOG_FATAL throws.
  unfoldable pub after_second : MagicBuffer → Bool × W → Option MagicBuffer × W
  after_second b (false, w) = (none, w)
  after_second b (true, w) = (some b, w)

  unfoldable pub after_first : MagicBuffer → Bool × W → Option MagicBuffer × W
  after_first b (false, w) = (none, w)
  after_first b (true, w) = after_second b (system.map_view w b.map b.size (second_half b))

  unfoldable pub map_halves : W → MagicBuffer → Option MagicBuffer × W
  map_halves w b = after_first b (system.map_view w b.map b.size b.buffer)

  unfoldable pub place : W → ℕ → ℕ → Option ℕ × W → Option MagicBuffer × W
  place w size map (none, w') = (none, system.close_handle w' map)
  place w size map (some ptr, w') =
      map_halves (system.virtual_free w' ptr) (record { map = map; size = size; buffer = ptr })

  unfoldable pub reserve : W → ℕ → Option ℕ × W → Option MagicBuffer × W
  reserve w size (none, w') = (none, w')
  reserve w size (some map, w') = place w' size map (system.virtual_alloc w' (size * 2 % 2 ^ 64))

  unfoldable pub construct : W → ℕ → Option MagicBuffer × W
  construct w size =
      if not (size % system.granularity w == 0)
      then (none, w)
      else reserve w size (system.create_file_mapping w (size % 2 ^ 32))

  unfoldable pub destroy : W → MagicBuffer → W
  destroy w b =
      let w1 =
        if b.buffer == 0
        then w
        else system.unmap_view (system.unmap_view w b.buffer) (second_half b) in
      if b.map == 0 then w1 else system.close_handle w1 b.map
