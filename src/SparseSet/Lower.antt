-- ===== src/SparseSet/Lower.antt =====
-- SparseSet::DecrementState past its guard: what it writes, and that it keeps the invariant.
use server_study.Prelude.{ℕ, ◌+◌, ◌-◌, ◌≤◌, ◌<◌, ◌≡◌, ◌≢◌, refl, arith, ◌==◌, if◌then◌else◌, add32}
use server_study.SparseSet.{SparseSet, where_of, state_of, generation_at, exchange, lower, lower}
use server_study.SparseSet.Invariant.{Config, Inv, cursor_mono, state_of_segment}
use server_study.SparseSet.Exchange.{
  where-exchange, where_lt-exchange, dense_lt-exchange, dense_where-exchange, where_dense-exchange,
}

-- The position that DecrementState swaps with, the first of the segment.
abbrev pub first_of : SparseSet → ℕ → ℕ
first_of s who = s.cursor (state_of s who)

pub where-lower :
    (s : SparseSet) (who i : ℕ)
    → where_of (lower s who) i ≡ where_of (exchange s (where_of s who) (first_of s who)) i
unfolding lower
where-lower s who i = ground arith

pub dense-lower :
    (s : SparseSet) (who j : ℕ)
    → (lower s who).dense j ≡ (exchange s (where_of s who) (first_of s who)).dense j
unfolding lower
dense-lower s who j = refl

pub state-lower :
    (s : SparseSet) (who i : ℕ)
    → state_of (lower s who) i ≡ (if i == who then state_of s who - 1 else state_of s i)
unfolding lower
state-lower s who i = ground arith

pub generation-lower :
    (s : SparseSet) (who i : ℕ) → generation_at (lower s who) i ≡ generation_at s i
unfolding lower
generation-lower s who i = ground arith

pub cursor-lower :
    (s : SparseSet) (who m : ℕ)
    → (lower s who).cursor m ≡ (if m == state_of s who then add32 (s.cursor m) 1 else s.cursor m)
unfolding lower
cursor-lower s who m = ground arith

module _ {n k : ℕ} (c : Config n k) {s : SparseSet} (v : Inv n k s) (who : ℕ) (hw : who < n) where
  -- The first position of the segment holds an index of that state.
  first_lt : first_of s who < n
  first_lt = omega (arith, v.above who hw, v.where_lt who hw)

  first_suc : add32 (first_of s who) 1 ≡ first_of s who + 1
  first_suc = omega (arith, first_lt, c.slots_fit)

  state_of_first : state_of s (s.dense (first_of s who)) ≡ state_of s who
  state_of_first =
      state_of_segment v (s.dense (first_of s who)) (state_of s who)
        (v.dense_lt (first_of s who) first_lt) (v.state_lt who hw)
        (omega (arith, v.where_dense (first_of s who) first_lt))
        (omega (arith, v.where_dense (first_of s who) first_lt, v.above who hw, v.below who hw))

  cursor_pred : state_of s who ≢ 0 → s.cursor (state_of s who - 1) ≤ first_of s who
  cursor_pred h =
      cursor_mono v (state_of s who - 1) (state_of s who) (omega arith)
        (omega (arith, v.state_lt who hw))

  lower_state_lt : state_of s who ≢ 0 → (i : ℕ) → i < n → state_of (lower s who) i < k
  lower_state_lt h i hi = ground (arith, state-lower s who i, v.state_lt i hi)

  lower_above :
      state_of s who ≢ 0
      → (i : ℕ) → i < n
      → (lower s who).cursor (state_of (lower s who) i) ≤ where_of (lower s who) i
  lower_above h i hi = ground (
    arith,
    state-lower s who i,
    cursor-lower s who (state_of (lower s who) i),
    where-lower s who i,
    where-exchange s (where_of s who) (first_of s who) i,
    v.dense_where who hw,
    v.above i hi,
    v.below i hi,
    v.below who hw,
    v.above who hw,
    first_suc,
    cursor_pred h,
    state_of_first,
    v.dense_where i hi,
  )

  lower_below :
      state_of s who ≢ 0
      → (i : ℕ) → i < n
      → where_of (lower s who) i < (lower s who).cursor (state_of (lower s who) i + 1)
  lower_below h i hi = ground (
    arith,
    state-lower s who i,
    cursor-lower s who (state_of (lower s who) i + 1),
    where-lower s who i,
    where-exchange s (where_of s who) (first_of s who) i,
    v.dense_where who hw,
    v.dense_where i hi,
    v.above i hi,
    v.below i hi,
    v.below who hw,
    v.above who hw,
    first_suc,
    state_of_first,
  )

  lower_mono :
      state_of s who ≢ 0 → (j : ℕ) → j < k → (lower s who).cursor j ≤ (lower s who).cursor (j + 1)
  lower_mono h j hj = ground (
    arith,
    cursor-lower s who j,
    cursor-lower s who (j + 1),
    v.mono j hj,
    v.above who hw,
    v.below who hw,
    first_suc,
  )

  pub lower-Inv : state_of s who ≢ 0 → Inv n k (lower s who)
  lower-Inv h = record {
    where_lt = λ i hi. rw (where-lower s who i) (where_lt-exchange v p q hp first_lt i hi);
    dense_where = λ i hi.
        rw (where-lower s who i, dense-lower s who) (dense_where-exchange v p q hp first_lt i hi);
    dense_lt = λ j hj. rw (dense-lower s who j) (dense_lt-exchange v p q hp first_lt j hj);
    where_dense = λ j hj.
        rw (dense-lower s who j, where-lower s who) (where_dense-exchange v p q hp first_lt j hj);
    state_lt = lower_state_lt h;
    above = lower_above h;
    below = lower_below h;
    first = ground (arith, cursor-lower s who 0, v.first);
    last = ground (arith, cursor-lower s who k, v.last, v.state_lt who hw);
    generation_lt = λ i hi. rw (generation-lower s who i) (v.generation_lt i hi);
    mono = lower_mono h;
  }
    where
      p : ℕ
      p = where_of s who

      q : ℕ
      q = first_of s who

      hp : p < n
      hp = v.where_lt who hw
