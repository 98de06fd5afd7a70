-- ===== src/Session/Stream.antt =====
-- Network/Common/Protocol.hpp: a stream of bytes as packets, each with its size in its header.
use server_study.Prelude.{
  ℕ, zero, suc, ◌+◌, ◌*◌, ◌≤◌, ◌<◌, ◌≡◌, refl, ◌⊎◌, Bool, true, false, List, [], ◌∷◌, Array, length,
  window, drop, arith,
}
use server_study.Session.{magic_buffer_size, Env, header_size}

-- The size that the stream gives for its first packet.
abbrev pub size_of : List ℕ → ℕ
size_of [] = 0
size_of (a ∷ []) = 0
size_of (a ∷ b ∷ bytes) = a + 256 * b

-- A stream that is to be kept until more of it has come.
pub record IsPartial (bytes : List ℕ) : Type 0 where
  pub short :
      (length bytes < 4) ⊎ ((length bytes < size_of bytes) × (size_of bytes < magic_buffer_size))
  pub small : length bytes < magic_buffer_size

-- A stream that starts with a whole packet.
pub record IsWhole (bytes : List ℕ) : Type 0 where
  pub at_least : 4 ≤ size_of bytes
  pub below : size_of bytes < magic_buffer_size
  pub complete : size_of bytes ≤ length bytes

pub record IsBad (bytes : List ℕ) : Type 0 where
  pub header : 4 ≤ length bytes
  pub size : (size_of bytes < 4) ⊎ (magic_buffer_size ≤ size_of bytes)

-- The first `length bytes` bytes from position `p` on.
abbrev pub Stands : Array ℕ → ℕ → List ℕ → Type 0
Stands b p bytes = window b magic_buffer_size p (length bytes) ≡ bytes

-- What a stream means: its whole packets are handled one after the other, each in the state that the
-- one before left, up to a partial one, one of a bad size, or one whose handler fails.
pub data Handles {W P : Type 0} (env : Env W P) : W → List ℕ → Bool → W → List ℕ → Type 0 where
  wait : (w : W) (bytes : List ℕ) → IsPartial bytes → Handles env w bytes true w bytes
  bad : (w : W) (bytes : List ℕ) → IsBad bytes → Handles env w bytes false w bytes
  failed :
      (w w' : W) (bytes : List ℕ) (b : Array ℕ) (p : ℕ)
      → IsWhole bytes
      → Stands b p bytes
      → env.execute w b p ≡ (false, w')
      → Handles env w bytes false w' bytes
  handled :
      (w w' w'' : W) (bytes rest : List ℕ) (done : Bool) (b : Array ℕ) (p : ℕ)
      → IsWhole bytes
      → Stands b p bytes
      → env.execute w b p ≡ (true, w')
      → Handles env w' (drop (size_of bytes) bytes) done w'' rest
      → Handles env w bytes done w'' rest

pub size_of-window :
    (b : Array ℕ) (p n : ℕ) → 2 ≤ n → size_of (window b magic_buffer_size p n) ≡ header_size b p
unfolding header_size
size_of-window b p zero h = absurd (omega arith)
size_of-window b p (suc zero) h = absurd (omega arith)
size_of-window b p (suc (suc n)) h = refl
