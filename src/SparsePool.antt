-- ===== src/SparsePool.antt =====
-- Network/Common/Pool/SparsePool.hpp with ISparsePool.hpp and ObjectPool.hpp: pooled objects with a
-- reference count each, over a SparseSet of their handles. The calls are modelled one after the
-- other, each as a whole, as under `mutex_`.
pub mod Counted
pub mod Refs
pub mod Acquire
use server_study.Prelude.{
  ℕ, ◌+◌, ◌-◌, ◌^◌, ◌%◌, Bool, true, false, Option, none, some, Array, update, ◌==◌, if◌then◌else◌,
  add64, sub64,
}
use server_study.SparseSet.{SparseSet, who_of, invalid_handle}
use server_study.SparseSet

-- ISparsePool::Slot
pub record Slot (T : Type 0) : Type 0 where
  pub obj : T
  pub handle : ℕ
  pub ref_count : ℕ

pub record Pool (T : Type 0) : Type 0 where
  pub set : SparseSet
  pub slots : Array (Slot T)

-- SharedPoolPtr: `pool` tells whether `pool_` is set. There is one pool.
pub record Ptr : Type 0 where
  pub pool : Bool
  pub handle : ℕ

abbrev pub null_ptr : Ptr
null_ptr = record { pool = false; handle = invalid_handle }

-- The template parameters N, StateCount and isLazy, the deleter and the function of
-- SetPostReleaseFunc (the identity where none is set).
pub record Options (T : Type 0) : Type 0 where
  pub size : ℕ
  pub state_count : ℕ
  pub is_lazy : Bool
  pub deleter : Option (T → T)
  pub post_release : Pool T → Pool T

module _ {T : Type 0} (o : Options T) where
  -- The constructor: `ObjectPool` default-constructs every slot unless it is lazy.
  unfoldable pub init : Array T → Pool T
  init objects = record {
    set = SparseSet.init o.size;
    slots = λ i. record { obj = objects i; handle = invalid_handle; ref_count = 0 };
  }

  unfoldable pub is_valid : Pool T → ℕ → Bool
  is_valid p handle = SparseSet.is_valid o.size p.set handle

  unfoldable pub get_obj : Pool T → ℕ → Option T
  get_obj p handle =
      if SparseSet.is_valid o.size p.set handle then some (p.slots (who_of handle)).obj else none

  abbrev pub ref_count_of : Pool T → ℕ → ℕ
  ref_count_of p i = (p.slots i).ref_count

  pub set_ref_count : Pool T → ℕ → ℕ → Pool T
  set_ref_count p i c = record p { slots = update p.slots i (record (p.slots i) { ref_count = c }) }

  unfoldable pub add_ref : Pool T → ℕ → Bool × Pool T
  unfolding set_ref_count
  add_ref p handle =
      if SparseSet.is_valid o.size p.set handle
      then (true, set_ref_count p (who_of handle) (add64 (ref_count_of p (who_of handle)) 1))
      else (false, p)

  -- ObjectPool::Release. The deleter that SparsePool hands down is always set; it calls the pool's
  -- own deleter if there is one, and does nothing else.
  release_object : Pool T → ℕ → Pool T
  release_object p i = record p {
    slots = update p.slots i (record (p.slots i) {
      obj = elim o.deleter [ none ↦ (p.slots i).obj | some f ↦ f (p.slots i).obj ];
    });
  }

  pub push_back : Pool T → ℕ → Pool T
  push_back p handle = record p { set = (SparseSet.push o.size o.state_count p.set handle).1 }

  -- The last reference is gone: the object is released and its handle pushed back.
  unfoldable pub released : Pool T → ℕ → Pool T
  unfolding set_ref_count release_object push_back
  released p handle =
      let i = who_of handle in
      push_back (release_object (set_ref_count p i (sub64 (ref_count_of p i) 1)) i) handle

  unfoldable pub release_ref : Pool T → ℕ → Bool × Pool T
  unfolding set_ref_count
  release_ref p handle =
      let i = who_of handle in
      if SparseSet.is_valid o.size p.set handle
      then (if ref_count_of p i == 1
          then (true, o.post_release (released p handle))
          else (false, set_ref_count p i (sub64 (ref_count_of p i) 1)))
      else (false, p)

  -- ObjectPool::Acquire constructs anew only if the pool is lazy, then `handle_` is written.
  pub occupy : Pool T → T → ℕ → Pool T
  occupy p made handle =
      let i = who_of handle in
      let slot : Slot T =
        (if o.is_lazy
          then record { obj = made; handle = invalid_handle; ref_count = 0 }
          else p.slots i) in
      record p { slots = update p.slots i (record slot { handle = handle }) }

  -- The pointer's constructor takes the first reference.
  unfoldable pub acquire : Pool T → ℕ → T → Ptr × Pool T
  unfolding occupy
  acquire p state made =
      let (handle, set') = SparseSet.pop o.size o.state_count p.set state in
      let q : Pool T = record p { set = set' } in
      if SparseSet.is_valid o.size set' handle
      then (record { pool = true; handle = handle }, (add_ref (occupy q made handle) handle).1)
      else (null_ptr, q)

  unfoldable pub move_to_state : Pool T → ℕ → ℕ → Bool × Pool T
  move_to_state p handle new_state =
      let (done, set') = SparseSet.move_to_state o.size o.state_count p.set handle new_state in
      (done, record p { set = set' })
