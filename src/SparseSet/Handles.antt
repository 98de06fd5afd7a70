-- ===== src/SparseSet/Handles.antt =====
-- Handles: the index and the generation packed in one word, and which handles are valid.
use server_study.Prelude.{ℕ, ◌^◌, ◌<◌, ◌≡◌, arith, true, false}
use server_study.SparseSet.{
  SparseSet, who_of, generation_of, generation_at, get_handle, is_valid, invalid_handle,
}
use server_study.SparseSet.Invariant.{Config, Inv}

pub who_lt : (n : ℕ) (s : SparseSet) (handle : ℕ) → is_valid n s handle ≡ true → who_of handle < n
unfolding is_valid
who_lt n s handle ok = ground arith

pub valid_generation :
    (n : ℕ) (s : SparseSet) (handle : ℕ)
    → is_valid n s handle ≡ true
    → generation_at s (who_of handle) ≡ generation_of handle
unfolding is_valid
valid_generation n s handle ok = ground arith

-- A handle unpacks to the index and the generation that it was made of.
pub get_handle_unpacks :
    {n k : ℕ} {s : SparseSet} (i : ℕ)
    → Config n k
    → Inv n k s
    → i < n
    → (who_of (get_handle s i) ≡ i) × (generation_of (get_handle s i) ≡ generation_at s i)
unfolding get_handle
get_handle_unpacks {s = s} i c v h = omega (arith, c.slots_fit, v.generation_lt i h)

-- A handle is a 64-bit word.
pub get_handle_word :
    {n k : ℕ} {s : SparseSet} (i : ℕ) → Config n k → Inv n k s → i < n → get_handle s i < 2 ^ 64
unfolding get_handle
get_handle_word {s = s} i c v h = omega (arith, c.slots_fit, v.generation_lt i h)

-- A word that unpacks to a valid handle's parts is that handle.
pub handle_of_parts :
    (s : SparseSet) (handle : ℕ)
    → handle < 2 ^ 64
    → generation_at s (who_of handle) ≡ generation_of handle
    → handle ≡ get_handle s (who_of handle)
unfolding get_handle
handle_of_parts s handle h e = omega arith

-- The handle that the set gives out for an index of its own is valid.
pub get_handle-is_valid :
    {n k : ℕ} {s : SparseSet} (i : ℕ)
    → Config n k
    → Inv n k s
    → i < n
    → is_valid n s (get_handle s i) ≡ true
unfolding is_valid
get_handle-is_valid i c v h = let e = get_handle_unpacks i c v h in ground (arith, e.0, e.1)

-- A valid 64-bit handle is the one that the set gives out for its index.
pub valid-get_handle :
    (n : ℕ) (s : SparseSet) (handle : ℕ)
    → handle < 2 ^ 64
    → is_valid n s handle ≡ true
    → handle ≡ get_handle s (who_of handle)
unfolding is_valid
valid-get_handle n s handle h ok = ground (arith, handle_of_parts s handle h)

-- kInvalidHandle is never valid, whatever the set holds.
pub invalid_handle_lem :
    {n k : ℕ} (s : SparseSet) → Config n k → is_valid n s invalid_handle ≡ false
unfolding is_valid
invalid_handle_lem s c = ground (arith, c.slots_fit)
