-- ===== src/MagicBuffer/Views.antt =====
-- What the system promises of sections, views and handles.
use server_study.Prelude.{
  ℕ, ◌+◌, ◌^◌, ◌<◌, ◌≡◌, ◌≢◌, Bool, true, false, Option, none, some, Array, update, ◌&&◌,
  if◌then◌else◌, ltb, leb,
}
use server_study.MagicBuffer.{System}

-- A view of the first `size` bytes of a section, from an address on.
pub record View : Type 0 where
  pub map : ℕ
  pub size : ℕ
  pub address : ℕ

abbrev pub covers : View → ℕ → Bool
covers v x = leb v.address x && ltb x (v.address + v.size)

-- The view that each address is in.
abbrev pub with_view : Array (Option View) → View → Array (Option View)
with_view views v x = if covers v x then some v else views x

abbrev pub without_view : Array (Option View) → View → Array (Option View)
without_view views v x = if covers v x then none else views x

module _ {W : Type 0} (views : W → Array (Option View)) (is_open : W → Array Bool) where
  abbrev pub Untouched : W → W → Type 0
  Untouched w w' = ((x : ℕ) → views w' x ≡ views w x) × ((h : ℕ) → is_open w' h ≡ is_open w h)

  -- A section has a handle of its own.
  abbrev pub Created : W → Option ℕ × W → Type 0
  Created w (none, w') = Untouched w w'
  Created w (some map, w') =
      (map ≢ 0)
      × (is_open w map ≡ false)
      × ((x : ℕ) → views w' x ≡ views w x)
      × ((h : ℕ) → is_open w' h ≡ update (is_open w) map true h)

  -- A range of addresses that is given out fits the address space.
  abbrev pub Allocated : W → ℕ → Option ℕ × W → Type 0
  Allocated w size (none, w') = Untouched w w'
  Allocated w size (some ptr, w') = (ptr ≢ 0) × (ptr + size < 2 ^ 64) × Untouched w w'

  -- A view is mapped only where there is none.
  abbrev pub Mapped : W → View → Bool × W → Type 0
  Mapped w v (false, w') = Untouched w w'
  Mapped w v (true, w') =
      ((x : ℕ) → covers v x ≡ true → views w x ≡ none)
      × ((x : ℕ) → views w' x ≡ with_view (views w) v x)
      × ((h : ℕ) → is_open w' h ≡ is_open w h)

  pub record Maps (system : System W) : Type 0 where
    pub created : (w : W) (size : ℕ) → Created w (system.create_file_mapping w size)
    pub allocated : (w : W) (size : ℕ) → Allocated w size (system.virtual_alloc w size)
    pub freed : (w : W) (ptr : ℕ) → Untouched w (system.virtual_free w ptr)
    pub mapped : (w : W) (v : View) → Mapped w v (system.map_view w v.map v.size v.address)
    pub unmapped :
        (w : W) (v : View)
        → 0 < v.size
        → ((x : ℕ) → covers v x ≡ true → views w x ≡ some v)
        → ((x : ℕ) → views (system.unmap_view w v.address) x ≡ without_view (views w) v x)
          × ((h : ℕ) → is_open (system.unmap_view w v.address) h ≡ is_open w h)
    pub closed :
        (w : W) (map : ℕ)
        → ((x : ℕ) → views (system.close_handle w map) x ≡ views w x)
          × ((h : ℕ) → is_open (system.close_handle w map) h ≡ update (is_open w) map false h)
