-- ===== src/SparseSet/Invariant.antt =====
-- The representation invariant of SparseSet, and what it says of positions and states.
use server_study.Prelude.{
  ℕ, zero, suc, ◌+◌, ◌-◌, ◌^◌, ◌≤◌, ◌<◌, ◌≡◌, refl, sym, ap, ◌∙◌, inl, inr, arith, compare_cases,
}
use server_study.SparseSet.{SparseSet, where_of, state_of, generation_at, init}

-- The template arguments: at least one slot and one state, and indices fit in a uint32_t, where
-- the largest value is left to the invalid handle.
pub record Config (n k : ℕ) : Type 0 where
  pub some_slots : 0 < n
  pub slots_fit : n < 2 ^ 32
  pub some_states : 0 < k
  pub states_fit : k < 2 ^ 32

-- `where_` and `dense` are inverse to one another, and the segments of `dense` between the cursors
-- are those of the states.
pub record Inv (n k : ℕ) (s : SparseSet) : Type 0 where
  pub where_lt : (i : ℕ) → i < n → where_of s i < n
  pub dense_where : (i : ℕ) → i < n → s.dense (where_of s i) ≡ i
  pub dense_lt : (p : ℕ) → p < n → s.dense p < n
  pub where_dense : (p : ℕ) → p < n → where_of s (s.dense p) ≡ p
  pub state_lt : (i : ℕ) → i < n → state_of s i < k
  pub above : (i : ℕ) → i < n → s.cursor (state_of s i) ≤ where_of s i
  pub below : (i : ℕ) → i < n → where_of s i < s.cursor (state_of s i + 1)
  pub first : s.cursor 0 ≡ 0
  pub last : s.cursor k ≡ n
  pub generation_lt : (i : ℕ) → i < n → generation_at s i < 2 ^ 32
  pub mono : (j : ℕ) → j < k → s.cursor j ≤ s.cursor (j + 1)

module _ {n k : ℕ} {s : SparseSet} (v : Inv n k s) where
  cursor_mono_by : (d a : ℕ) → a + d ≤ k → s.cursor a ≤ s.cursor (a + d)
  cursor_mono_by zero a h = omega (arith, ap s.cursor (let e : a + 0 ≡ a = omega arith in e))
  cursor_mono_by (suc d) a h = omega (
    arith,
    cursor_mono_by d a (omega arith),
    v.mono (a + d) (omega arith),
    ap s.cursor (let e : a + suc d ≡ a + d + 1 = omega arith in e),
  )

  -- The cursors rise.
  pub cursor_mono : (a b : ℕ) → a ≤ b → b ≤ k → s.cursor a ≤ s.cursor b
  cursor_mono a b h hk = omega (
    arith,
    cursor_mono_by (b - a) a (omega arith),
    ap s.cursor (let e : a + (b - a) ≡ b = omega arith in e),
  )

  pub cursor-le : (j : ℕ) → j ≤ k → s.cursor j ≤ n
  cursor-le j h = omega (arith, cursor_mono j k h (omega arith), v.last)

  -- An index whose position lies in the segment of a state is in that state.
  pub state_of_segment :
      (i j : ℕ)
      → i < n
      → j < k
      → s.cursor j ≤ where_of s i
      → where_of s i < s.cursor (j + 1)
      → state_of s i ≡ j
  state_of_segment i j hi hj lo hi' = elim (compare_cases (state_of s i) j) [
    | inl less ↦
        absurd (
          omega (arith, cursor_mono (state_of s i + 1) j (omega arith) (omega arith), v.below i hi))
    | inr (inl same) ↦ same
    | inr (inr more) ↦ absurd (
        omega (
          arith,
          cursor_mono (j + 1) (state_of s i) (omega arith) (omega (arith, v.state_lt i hi)),
          v.above i hi,
        ))
  ]

  -- Distinct indices stand at distinct positions.
  pub where_injective : (i j : ℕ) → i < n → j < n → where_of s i ≡ where_of s j → i ≡ j
  where_injective i j hi hj e = sym (v.dense_where i hi) ∙ ap s.dense e ∙ v.dense_where j hj

-- The constructor establishes the invariant, with every index idle (in state 0).
pub init-Inv : {n k : ℕ} → Config n k → Inv n k (init n)
unfolding init
init-Inv {n} {k} c = record {
  where_lt = λ i h. omega arith;
  dense_where = λ i h. omega arith;
  dense_lt = λ p h. omega arith;
  where_dense = λ p h. omega arith;
  state_lt = λ i h. omega arith;
  above = λ i h. ground arith;
  below = λ i h. ground arith;
  first = refl;
  last = ground arith;
  generation_lt = λ i h. omega arith;
  mono = λ j h. ground arith;
}
