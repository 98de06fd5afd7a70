-- ===== src/SparseSet/Exchange.antt =====
-- The swap of two dense entries that IncrementState and DecrementState share.
use server_study.Prelude.{ℕ, ◌≡◌, ◌<◌, arith, ◌==◌, if◌then◌else◌}
use server_study.SparseSet.{SparseSet, where_of, state_of, exchange}
use server_study.SparseSet.Invariant.{Inv}

-- Who stands at a position after the swap.
pub dense-exchange :
    (s : SparseSet) (p q j : ℕ)
    → (exchange s p q).dense j
      ≡ (if j == q then s.dense p else if j == p then s.dense q else s.dense j)
unfolding exchange
dense-exchange s p q j = ground arith

-- Where an index stands after the swap.
pub where-exchange :
    (s : SparseSet) (p q i : ℕ)
    → where_of (exchange s p q) i
      ≡ (if i == s.dense p then q else if i == s.dense q then p else where_of s i)
unfolding exchange
where-exchange s p q i = ground arith

pub state-exchange : (s : SparseSet) (p q i : ℕ) → state_of (exchange s p q) i ≡ state_of s i
unfolding exchange
state-exchange s p q i = ground arith

pub generation-exchange :
    (s : SparseSet) (p q i : ℕ) → ((exchange s p q).sparse i).generation ≡ (s.sparse i).generation
unfolding exchange
generation-exchange s p q i = ground arith

-- After a swap of two positions of the set, `where_` and `dense` are inverse to one another.
module _ {n k : ℕ} {s : SparseSet} (v : Inv n k s) (p q : ℕ) (hp : p < n) (hq : q < n) where
  pub where_lt-exchange : (i : ℕ) → i < n → where_of (exchange s p q) i < n
  where_lt-exchange i h = ground (arith, where-exchange s p q i, v.where_lt i h)

  pub dense_lt-exchange : (j : ℕ) → j < n → (exchange s p q).dense j < n
  dense_lt-exchange j h =
      ground (arith, dense-exchange s p q j, v.dense_lt j h, v.dense_lt p hp, v.dense_lt q hq)

  pub dense_where-exchange :
      (i : ℕ) → i < n → (exchange s p q).dense (where_of (exchange s p q) i) ≡ i
  dense_where-exchange i h = ground (
    arith,
    where-exchange s p q i,
    dense-exchange s p q (where_of (exchange s p q) i),
    v.dense_where i h,
    v.where_dense p hp,
    v.where_dense q hq,
  )

  pub where_dense-exchange :
      (j : ℕ) → j < n → where_of (exchange s p q) ((exchange s p q).dense j) ≡ j
  where_dense-exchange j h = ground (
    arith,
    dense-exchange s p q j,
    where-exchange s p q ((exchange s p q).dense j),
    v.where_dense j h,
    v.where_dense p hp,
    v.where_dense q hq,
  )
