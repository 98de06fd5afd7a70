-- ===== src/SparseSet/Raise.antt =====
-- SparseSet::IncrementState past its guard: what it writes, and that it keeps the invariant.
use server_study.Prelude.{ℕ, ◌+◌, ◌≤◌, ◌<◌, ◌≡◌, refl, arith, ◌==◌, if◌then◌else◌, sub32}
use server_study.SparseSet.{SparseSet, where_of, state_of, generation_at, exchange, raise}
use server_study.SparseSet.Invariant.{Config, Inv, cursor-le, state_of_segment}
use server_study.SparseSet.Exchange.{
  where-exchange, where_lt-exchange, dense_lt-exchange, dense_where-exchange, where_dense-exchange,
}

-- The position that IncrementState swaps with, the last of the segment.
abbrev pub last_of : SparseSet → ℕ → ℕ
last_of s who = sub32 (s.cursor (state_of s who + 1)) 1

pub where-raise :
    (s : SparseSet) (who i : ℕ)
    → where_of (raise s who) i ≡ where_of (exchange s (where_of s who) (last_of s who)) i
unfolding raise
where-raise s who i = ground arith

pub dense-raise :
    (s : SparseSet) (who j : ℕ)
    → (raise s who).dense j ≡ (exchange s (where_of s who) (last_of s who)).dense j
unfolding raise
dense-raise s who j = refl

pub state-raise :
    (s : SparseSet) (who i : ℕ)
    → state_of (raise s who) i ≡ (if i == who then state_of s who + 1 else state_of s i)
unfolding raise
state-raise s who i = ground arith

pub generation-raise :
    (s : SparseSet) (who i : ℕ) → generation_at (raise s who) i ≡ generation_at s i
unfolding raise
generation-raise s who i = ground arith

pub cursor-raise :
    (s : SparseSet) (who m : ℕ)
    → (raise s who).cursor m ≡ (if m == state_of s who + 1 then last_of s who else s.cursor m)
unfolding raise
cursor-raise s who m = ground arith

module _ {n k : ℕ} (c : Config n k) {s : SparseSet} (v : Inv n k s) (who : ℕ) (hw : who < n) where
  -- The last position of the segment holds an index of that state.
  last_lt : last_of s who < n
  last_lt = omega (
    arith,
    v.below who hw,
    cursor-le v (state_of s who + 1) (omega (arith, v.state_lt who hw)),
    c.slots_fit,
  )

  last_suc : last_of s who + 1 ≡ s.cursor (state_of s who + 1)
  last_suc = omega (
    arith,
    v.below who hw,
    cursor-le v (state_of s who + 1) (omega (arith, v.state_lt who hw)),
    c.slots_fit,
  )

  state_of_last : state_of s (s.dense (last_of s who)) ≡ state_of s who
  state_of_last =
      state_of_segment v (s.dense (last_of s who)) (state_of s who)
        (v.dense_lt (last_of s who) last_lt) (v.state_lt who hw)
        (omega
          (arith, v.where_dense (last_of s who) last_lt, v.above who hw, v.below who hw, last_suc))
        (omega (arith, v.where_dense (last_of s who) last_lt, last_suc))

  raise_state_lt : state_of s who + 1 < k → (i : ℕ) → i < n → state_of (raise s who) i < k
  raise_state_lt h i hi = ground (arith, state-raise s who i, v.state_lt i hi)

  raise_above :
      state_of s who + 1 < k
      → (i : ℕ) → i < n
      → (raise s who).cursor (state_of (raise s who) i) ≤ where_of (raise s who) i
  raise_above h i hi = ground (
    arith,
    state-raise s who i,
    cursor-raise s who (state_of (raise s who) i),
    where-raise s who i,
    where-exchange s (where_of s who) (last_of s who) i,
    v.dense_where who hw,
    v.above i hi,
    v.below i hi,
    v.below who hw,
    v.above who hw,
    last_suc,
    state_of_last,
    v.where_dense (last_of s who) last_lt,
  )

  raise_below :
      state_of s who + 1 < k
      → (i : ℕ) → i < n
      → where_of (raise s who) i < (raise s who).cursor (state_of (raise s who) i + 1)
  raise_below h i hi = ground (
    arith,
    state-raise s who i,
    cursor-raise s who (state_of (raise s who) i + 1),
    where-raise s who i,
    where-exchange s (where_of s who) (last_of s who) i,
    v.dense_where who hw,
    v.dense_where i hi,
    v.above i hi,
    v.below i hi,
    v.below who hw,
    v.mono (state_of s who + 1) h,
    last_suc,
    state_of_last,
  )

  raise_mono :
      state_of s who + 1 < k
      → (j : ℕ) → j < k
      → (raise s who).cursor j ≤ (raise s who).cursor (j + 1)
  raise_mono h j hj = ground (
    arith,
    cursor-raise s who j,
    cursor-raise s who (j + 1),
    v.mono j hj,
    v.above who hw,
    v.below who hw,
    last_suc,
  )

  pub raise-Inv : state_of s who + 1 < k → Inv n k (raise s who)
  raise-Inv h = record {
    where_lt = λ i hi. rw (where-raise s who i) (where_lt-exchange v p q hp last_lt i hi);
    dense_where = λ i hi.
        rw (where-raise s who i, dense-raise s who) (dense_where-exchange v p q hp last_lt i hi);
    dense_lt = λ j hj. rw (dense-raise s who j) (dense_lt-exchange v p q hp last_lt j hj);
    where_dense = λ j hj.
        rw (dense-raise s who j, where-raise s who) (where_dense-exchange v p q hp last_lt j hj);
    state_lt = raise_state_lt h;
    above = raise_above h;
    below = raise_below h;
    first = ground (arith, cursor-raise s who 0, v.first);
    last = ground (arith, cursor-raise s who k, v.last);
    generation_lt = λ i hi. rw (generation-raise s who i) (v.generation_lt i hi);
    mono = raise_mono h;
  }
    where
      p : ℕ
      p = where_of s who

      q : ℕ
      q = last_of s who

      hp : p < n
      hp = v.where_lt who hw
