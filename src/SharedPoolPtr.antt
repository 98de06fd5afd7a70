-- ===== src/SharedPoolPtr.antt =====
-- Network/Common/Pool/SharedPoolPtr.hpp: the pointer to a pooled object. A member function that
-- writes `*this` or its argument returns the new values beside the pool.
pub mod Ownership
mod Tests
use server_study.Prelude.{ℕ, Bool, true, false, ◌&&◌, Option, none, some, if◌then◌else◌}
use server_study.SparsePool.{Pool, Ptr, Options, null_ptr, is_valid, get_obj, add_ref, release_ref}

module _ {T : Type 0} (o : Options T) where
  -- The constructor from a pool pointer, which may be null, and a handle.
  unfoldable pub construct : Pool T → Bool → ℕ → Ptr × Pool T
  construct p pool handle =
      (record { pool = pool; handle = handle }, if pool then (add_ref o p handle).1 else p)

  unfoldable pub copy : Pool T → Ptr → Ptr × Pool T
  copy p other = (other, if other.pool then (add_ref o p other.handle).1 else p)

  -- `self` says whether `other` is `*this`.
  unfoldable pub copy_assign : Pool T → Bool → (this other : Ptr) → Ptr × Pool T
  copy_assign p self this other =
      let q = if other.pool then (add_ref o p other.handle).1 else p in
      if self then (this, p) else (other, if this.pool then (release_ref o q this.handle).1 else q)

  unfoldable pub move_assign : Pool T → Bool → (this other : Ptr) → Ptr × Ptr × Pool T
  move_assign p self this other =
      if self
      then (this, other, p)
      else (other, null_ptr, if this.pool then (release_ref o p this.handle).1 else p)

  unfoldable pub destroy : Pool T → Ptr → Pool T
  destroy p this =
      if this.pool && is_valid o p this.handle then (release_ref o p this.handle).1 else p

  unfoldable pub is_valid_ptr : Pool T → Ptr → Bool
  is_valid_ptr p this = this.pool && is_valid o p this.handle

  unfoldable pub get : Pool T → Ptr → Option T
  unfolding is_valid_ptr
  get p this = if is_valid_ptr p this then get_obj o p this.handle else none

  -- Reset forgets the handle unless it held the last reference.
  forget : Ptr → Bool × Pool T → Bool × Ptr × Pool T
  forget this (last, q) = if last then (true, this, q) else (false, null_ptr, q)

  unfoldable pub reset : Pool T → Ptr → Bool × Ptr × Pool T
  unfolding forget
  reset p this =
      if this.pool && is_valid o p this.handle
      then forget this (release_ref o p this.handle)
      else (false, this, p)

-- The move constructor, which touches no count: the new pointer, and what is left of the old one.
unfoldable pub move : Ptr → Ptr × Ptr
move other = (other, null_ptr)
