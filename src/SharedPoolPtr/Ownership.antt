-- ===== src/SharedPoolPtr/Ownership.antt =====
-- The special members of SharedPoolPtr keep the reference counts of the pool equal to the numbers
-- of pointers, and give an object back exactly with its last pointer.
use server_study.Prelude.{
  ℕ, ◌+◌, ◌^◌, ◌<◌, ◌≡◌, ◌≢◌, inl, inr, refl, sym, ap, subst, Bool, true, false, ◌&&◌, List, ◌∷◌,
  length, arith, if◌then◌else◌, Bool-cases,
}
use server_study.SparseSet.{SparseSet, who_of, state_of, generation_at, get_handle}
use server_study.SparseSet
use server_study.SparseSet.Invariant.{Config}
use server_study.SparseSet.Handles.{who_lt, valid-get_handle}
use server_study.SparsePool.{Pool, Ptr, Options, null_ptr, is_valid, add_ref, release_ref}
use server_study.SparsePool.Counted.{refs, ptr, Counted}
use server_study.SparsePool.Refs.{
  add_ref-Counted, dropped-Counted, stale-Counted, release_ref-Release, Release, kept, freed,
  Settled, quiet, last, next_handle,
}
use server_study.SharedPoolPtr.{copy_assign, move_assign, destroy, reset, move, forget}

as_ptr : (this : Ptr) → this.pool ≡ true → ptr this.handle ≡ this
as_ptr this e i = record { pool = sym e i; handle = this.handle }

module _ {T : Type 0} {o : Options T} (c : Config o.size o.state_count) where
  -- A pointer with no pool counts nowhere.
  drop_null :
      {p : Pool T} {this : Ptr} {ps : List Ptr}
      → this.pool ≡ false
      → Counted o p (this ∷ ps)
      → Counted o p ps
  drop_null e v = record {
    inv = v.inv;
    counts = λ i hi. ground (arith, v.counts i hi);
    idle = v.idle;
    words = v.words.1;
    few = omega (arith, v.few);
  }

  -- A pointer with no pool may be added.
  add_null :
      {p : Pool T} {ps : List Ptr} (this : Ptr)
      → this.pool ≡ false
      → this.handle < 2 ^ 64
      → length ps + 1 < 2 ^ 64
      → Counted o p ps
      → Counted o p (this ∷ ps)
  add_null this e small room v = record {
    inv = v.inv;
    counts = λ i hi. ground (arith, v.counts i hi);
    idle = v.idle;
    words = (small, v.words);
    few = omega arith;
  }

  swap_first :
      {p : Pool T} {a b : Ptr} {ps : List Ptr} → Counted o p (a ∷ b ∷ ps) → Counted o p (b ∷ a ∷ ps)
  swap_first v = record {
    inv = v.inv;
    counts = λ i hi. omega (arith, v.counts i hi);
    idle = v.idle;
    words = (v.words.1.0, (v.words.0, v.words.1.1));
    few = v.few;
  }

  third_first :
      {p : Pool T} {a b d : Ptr} {ps : List Ptr}
      → Counted o p (a ∷ b ∷ d ∷ ps)
      → Counted o p (d ∷ a ∷ b ∷ ps)
  third_first v = record {
    inv = v.inv;
    counts = λ i hi. omega (arith, v.counts i hi);
    idle = v.idle;
    words = (v.words.1.1.0, (v.words.0, (v.words.1.0, v.words.1.1.1)));
    few = v.few;
  }

  in_use :
      {p : Pool T} {other : Ptr} {ps : List Ptr}
      → Counted o p (other ∷ ps)
      → other.pool ≡ true
      → SparseSet.is_valid o.size p.set other.handle ≡ true
      → state_of p.set (who_of other.handle) ≢ 0
  in_use {p} {other} {ps} v e ok none_left =
      let hi = who_lt o.size p.set other.handle ok in
      let same = valid-get_handle o.size p.set other.handle v.words.0 ok in
      ground (arith, v.counts (who_of other.handle) hi, v.idle (who_of other.handle) hi none_left)

  Settled-map :
      {ps qs : List Ptr} {r : Pool T}
      → ((q : Pool T) → Counted o q ps → Counted o q qs)
      → Settled o ps r
      → Settled o qs r
  Settled-map f (quiet v) = quiet (f _ v)
  Settled-map f (last {q} e v) = last e (f q v)

  Release-Settled :
      {h : ℕ} {ps : List Ptr} {r : Bool × Pool T} → Release o h ps r → Settled o ps r.1
  Release-Settled (kept e v) = quiet v
  Release-Settled (freed {q} e v stale) = last (ap (λ (x : Bool × Pool T). x.1) e) v

  -- The release that the members make of a pointer that is not null.
  dropped-Settled :
      (p : Pool T) (this : Ptr) (ps : List Ptr)
      → Counted o p (this ∷ ps)
      → refs (next_handle this.handle) ps ≡ 0
      → Settled o ps (if this.pool then (release_ref o p this.handle).1 else p)
  dropped-Settled p this ps v free = elim (Bool-cases this.pool) [
    | inl e ↦ rw e (
        Release-Settled (
          release_ref-Release c this.handle
            (subst (λ x. Counted o p (x ∷ ps)) (sym (as_ptr this e)) v) free))
    | inr e ↦ rw e (quiet (drop_null e v))
  ]

  added-Counted :
      (p : Pool T) (other : Ptr) (ps : List Ptr)
      → Counted o p (other ∷ ps)
      → length ps + 2 < 2 ^ 64
      → Counted o (if other.pool then (add_ref o p other.handle).1 else p) (other ∷ other ∷ ps)
  added-Counted p other ps v room = elim (Bool-cases other.pool) [
    | inl e ↦
        subst (λ x. Counted o (if x.pool then (add_ref o p x.handle).1 else p) (x ∷ x ∷ ps))
          (as_ptr other e)
          (add_ref-Counted c (subst (λ x. Counted o p (x ∷ ps)) (sym (as_ptr other e)) v)
            other.handle v.words.0 (in_use v e) (omega arith))
    | inr e ↦
        subst (λ b. Counted o (if b then (add_ref o p other.handle).1 else p) (other ∷ other ∷ ps))
          (sym e) (add_null other e v.words.0 (omega arith) v)
  ]

  -- The move constructor hands the reference over: the counts stay right as they are.
  pub move-Counted :
      (p : Pool T) (other : Ptr) (ps : List Ptr)
      → Counted o p (other ∷ ps)
      → length ps + 2 < 2 ^ 64
      → Counted o p ((move other).0 ∷ (move other).1 ∷ ps)
  unfolding move
  move-Counted p other ps v room = swap_first (add_null null_ptr refl (omega arith) (omega arith) v)

  -- Copy assignment from another pointer makes this one equal to it, takes a reference to its object and
  -- gives up the old one: the counts are right for the two pointers, which are now alike, or when the
  -- release function starts. From itself it changes nothing. The next handle of the old index is not in use.
  pub copy_assign-Settled :
      (p : Pool T) (this other : Ptr) (ps : List Ptr)
      → Counted o p (this ∷ other ∷ ps)
      → length ps + 3 < 2 ^ 64
      → refs (next_handle this.handle) (other ∷ other ∷ ps) ≡ 0
      → ((copy_assign o p false this other).0 ≡ other)
        × Settled o (other ∷ other ∷ ps) (copy_assign o p false this other).1
        × (copy_assign o p true this this ≡ (this, p))
  unfolding copy_assign
  copy_assign-Settled p this other ps v room free = (
    refl,
    dropped-Settled _ this (other ∷ other ∷ ps)
        (third_first (added-Counted p other (this ∷ ps) (swap_first v) (omega arith))) free,
    refl,
  )

  -- Move assignment from another pointer makes this one equal to it and the other one null, gives up the old
  -- reference and hands the other one over: the counts are right for the two pointers, or when the
  -- release function starts. From itself it changes nothing. The next handle of the old index is not in use.
  pub move_assign-Settled :
      (p : Pool T) (this other : Ptr) (ps : List Ptr)
      → Counted o p (this ∷ other ∷ ps)
      → refs (next_handle this.handle) (other ∷ ps) ≡ 0
      → let (new, left, q) = move_assign o p false this other in
        (new ≡ other)
        × (left ≡ null_ptr)
        × Settled o (other ∷ null_ptr ∷ ps) q
        × (move_assign o p true this this ≡ (this, this, p))
  unfolding move_assign
  move_assign-Settled p this other ps v free = (
    refl,
    refl,
    Settled-map (λ q w. swap_first (add_null null_ptr refl (omega arith) (omega (arith, v.few)) w))
        (dropped-Settled p this (other ∷ ps) v free),
    refl,
  )

  -- Destruction gives up the reference, if there is one.
  pub destroy-Settled :
      (p : Pool T) (this : Ptr) (ps : List Ptr)
      → Counted o p (this ∷ ps)
      → refs (next_handle this.handle) ps ≡ 0
      → Settled o ps (destroy o p this)
  unfolding destroy is_valid
  destroy-Settled p this ps v free = elim (Bool-cases this.pool) [
    | inr e ↦ rw e (quiet (drop_null e v))
    | inl e ↦
        let w = subst (λ x. Counted o p (x ∷ ps)) (sym (as_ptr this e)) v in
        elim (Bool-cases (SparseSet.is_valid o.size p.set this.handle)) [
          | inl ok ↦ rw (e, ok) (Release-Settled (release_ref-Release c this.handle w free))
          | inr bad ↦ rw (e, bad) (quiet (dropped-Counted c this.handle w bad))
        ]
  ]

  forget-Settled :
      (this : Ptr) (ps : List Ptr) (r : Bool × Pool T)
      → this.pool ≡ true
      → this.handle < 2 ^ 64
      → length ps + 1 < 2 ^ 64
      → Release o this.handle ps r
      → let (_, new, q) = forget o this r in Settled o (new ∷ ps) q
  unfolding forget
  forget-Settled this ps r e small room (kept done v) =
      rw done (quiet (add_null null_ptr refl (omega arith) room v))
  forget-Settled this ps r e small room (freed {q} eq v stale) = rw eq (
      last refl (
        subst (λ x. Counted o q (x ∷ ps)) (as_ptr this e)
          (stale-Counted c v this.handle small stale room)))

  -- Reset gives up the reference, if there is one. It leaves the handle in the pointer only where
  -- that is not valid any more.
  pub reset-Settled :
      (p : Pool T) (this : Ptr) (ps : List Ptr)
      → Counted o p (this ∷ ps)
      → refs (next_handle this.handle) ps ≡ 0
      → let (_, new, q) = reset o p this in Settled o (new ∷ ps) q
  unfolding reset
  reset-Settled p this ps v free = elim (Bool-cases (this.pool && is_valid o p this.handle)) [
    | inr bad ↦ rw bad (quiet v)
    | inl ok ↦
        let e : this.pool ≡ true = ground arith in
        let w = subst (λ x. Counted o p (x ∷ ps)) (sym (as_ptr this e)) v in
        rw ok (
          forget-Settled this ps _ e v.words.0 (omega (arith, v.few))
            (release_ref-Release c this.handle w free))
  ]
