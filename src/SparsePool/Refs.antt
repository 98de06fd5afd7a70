-- ===== src/SparsePool/Refs.antt =====
-- AddRef and ReleaseRef keep the counts.
use server_study.Prelude.{
  ℕ, suc, ◌+◌, ◌*◌, ◌^◌, ◌<◌, ◌≡◌, ◌≢◌, ◌⊎◌, inl, inr, refl, sym, ap, ◌∙◌, Bool, true, false, List,
  ◌∷◌, length, arith, ◌==◌, if◌then◌else◌, add32, sub64, add64, Bool-cases, ==_iff, ≢→==,
  ℕ_discrete,
}
use server_study.SparseSet.{SparseSet, who_of, state_of, generation_of, generation_at, get_handle}
use server_study.SparseSet
use server_study.SparseSet.Invariant.{Config}
use server_study.SparseSet.Handles.{get_handle_unpacks, valid-get_handle, valid_generation, who_lt}
use server_study.SparseSet.Calls.{push-Pushed}
use server_study.SparsePool.{
  Pool, Ptr, Options, ref_count_of, set_ref_count, add_ref, release_ref, released,
}
use server_study.SparsePool.Counted.{refs, refs-le, ptr, Counted, get_handle-generation, invalid-ne}

module _ {T : Type 0} (o : Options T) where
  count-set_ref_count :
      (p : Pool T) (i c j : ℕ)
      → ref_count_of o (set_ref_count o p i c) j ≡ (if j == i then c else ref_count_of o p j)
  unfolding set_ref_count
  count-set_ref_count p i c j = ground arith

  set-set_ref_count : (p : Pool T) (i c : ℕ) → (set_ref_count o p i c).set ≡ p.set
  unfolding set_ref_count
  set-set_ref_count p i c = refl

  count-released :
      (p : Pool T) (h j : ℕ)
      → ref_count_of o (released o p h) j
        ≡ (if j == who_of h then sub64 (ref_count_of o p (who_of h)) 1 else ref_count_of o p j)
  unfolding released
  count-released p h j = ground arith

  set-released :
      (p : Pool T) (h : ℕ) → (released o p h).set ≡ (SparseSet.push o.size o.state_count p.set h).1
  unfolding released
  set-released p h = refl

  add_ref-valid :
      (p : Pool T) (h : ℕ)
      → SparseSet.is_valid o.size p.set h ≡ true
      → add_ref o p h ≡ (true, set_ref_count o p (who_of h) (add64 (ref_count_of o p (who_of h)) 1))
  unfolding add_ref
  add_ref-valid p h ok = rw ok

  add_ref-invalid :
      (p : Pool T) (h : ℕ) → SparseSet.is_valid o.size p.set h ≡ false → add_ref o p h ≡ (false, p)
  unfolding add_ref
  add_ref-invalid p h bad = rw bad

module _ {T : Type 0} {o : Options T} (c : Config o.size o.state_count) {p : Pool T} {ps : List Ptr}
    (v : Counted o p ps) (h : ℕ) (small : h < 2 ^ 64) where
  -- The present handle of an index is the valid handle `h` exactly at the index of `h`.
  present : SparseSet.is_valid o.size p.set h ≡ true → h ≡ get_handle p.set (who_of h)
  present ok = valid-get_handle o.size p.set h small ok

  present_only : (i : ℕ) → i < o.size → h ≡ get_handle p.set i → i ≡ who_of h
  present_only i hi e = sym (ap who_of e ∙ (get_handle_unpacks i c v.inv hi).0)

  -- A word that is not a valid handle is counted nowhere.
  pub stale-Counted :
      SparseSet.is_valid o.size p.set h ≡ false → length ps + 1 < 2 ^ 64 → Counted o p (ptr h ∷ ps)
  stale-Counted bad room = record {
    inv = v.inv;
    counts = λ i hi. ground (arith, v.counts i hi, invalid-ne h i c v.inv bad hi);
    idle = v.idle;
    words = (small, v.words);
    few = omega arith;
  }

  -- AddRef on behalf of a new pointer, whose handle, if it is valid, is in use.
  pub add_ref-Counted :
      (SparseSet.is_valid o.size p.set h ≡ true → state_of p.set (who_of h) ≢ 0)
      → length ps + 1 < 2 ^ 64
      → Counted o (add_ref o p h).1 (ptr h ∷ ps)
  unfolding set_ref_count
  add_ref-Counted used room = elim (Bool-cases (SparseSet.is_valid o.size p.set h)) [
    | inl ok ↦ rw (add_ref-valid o p h ok) (record {
      inv = v.inv;
      counts = λ i hi.
          ground
            (arith, v.counts i hi, present ok, present_only i hi, refs-le (get_handle p.set i) ps);
      idle = λ i hi e. ground (arith, v.idle i hi e, used ok);
      words = (small, v.words);
      few = omega arith;
    })
    | inr bad ↦ rw (add_ref-invalid o p h bad) (stale-Counted bad room)
  ]

-- The handle that an index is given when `h` is pushed back.
abbrev pub next_handle : ℕ → ℕ
next_handle h = add32 (generation_of h) 1 * 2 ^ 32 + who_of h

-- The counts are right for the pointers `ps` either now or, where the last reference to an object
-- has gone, when the function of SetPostReleaseFunc starts.
pub data Settled {T : Type 0} (o : Options T) (ps : List Ptr) (r : Pool T) : Type 0 where
  quiet : Counted o r ps → Settled o ps r
  last : {q : Pool T} → r ≡ o.post_release q → Counted o q ps → Settled o ps r

-- What ReleaseRef on `h` left: the last reference gone, or something else still holding the object.
pub data Release {T : Type 0} (o : Options T) (h : ℕ) (ps : List Ptr) (r : Bool × Pool T)
    : Type 0 where
  kept : r.0 ≡ false → Counted o r.1 ps → Release o h ps r
  freed :
      {q : Pool T}
      → r ≡ (true, o.post_release q)
      → Counted o q ps
      → SparseSet.is_valid o.size q.set h ≡ false
      → Release o h ps r

module _ {T : Type 0} {o : Options T} (c : Config o.size o.state_count) {p : Pool T} {ps : List Ptr}
    (h : ℕ) (v : Counted o p (ptr h ∷ ps)) where
  small : h < 2 ^ 64
  small = v.words.0

  pub dropped-Counted : SparseSet.is_valid o.size p.set h ≡ false → Counted o p ps
  dropped-Counted bad = record {
    inv = v.inv;
    counts = λ i hi. ground (arith, v.counts i hi, invalid-ne h i c v.inv bad hi);
    idle = v.idle;
    words = v.words.1;
    few = omega arith;
  }

  decremented-Counted :
      SparseSet.is_valid o.size p.set h ≡ true
      → Counted o (set_ref_count o p (who_of h) (sub64 (ref_count_of o p (who_of h)) 1)) ps
  unfolding set_ref_count
  decremented-Counted ok = record {
    inv = v.inv;
    counts = λ i hi. ground (
      arith,
      v.counts i hi,
      present c v h small ok,
      present_only c v h small i hi,
      refs-le (get_handle p.set i) ps,
    );
    idle = λ i hi e. ground (arith, v.idle i hi e, v.counts i hi, present c v h small ok);
    words = v.words.1;
    few = omega arith;
  }

  pushed-handle :
      SparseSet.is_valid o.size p.set h ≡ true
      → get_handle (SparseSet.push o.size o.state_count p.set h).1 (who_of h) ≡ next_handle h
  unfolding get_handle
  pushed-handle ok = rw ((push-Pushed c v.inv h ok).bumped, valid_generation o.size p.set h ok)

  released-Counted :
      SparseSet.is_valid o.size p.set h ≡ true
      → ref_count_of o p (who_of h) ≡ 1
      → refs (next_handle h) ps ≡ 0
      → Counted o (released o p h) ps
  unfolding released
  released-Counted ok one free =
      let pushed = push-Pushed c v.inv h ok in
      let t = (SparseSet.push o.size o.state_count p.set h).1 in
      record {
        inv = pushed.inv;
        counts = λ i hi. elim (ℕ_discrete i (who_of h)) [
          | yes same ↦ rw (same, pushed-handle ok, free) (ground arith)
          | no other ↦
              rw (get_handle-generation p.set t i (pushed.other_generations i other))
                (ground (arith, v.counts i hi, present_only c v h small i hi))
        ];
        idle = λ i hi e. elim (ℕ_discrete i (who_of h)) [
          | yes same ↦ ground arith
          | no other ↦ ground (arith, v.idle i hi, pushed.other_states i other)
        ];
        words = v.words.1;
        few = omega arith;
      }

  released_stale :
      SparseSet.is_valid o.size p.set h ≡ true
      → SparseSet.is_valid o.size (released o p h).set h ≡ false
  unfolding released
  released_stale ok = (push-Pushed c v.inv h ok).stale

  -- The condition is that none of the pointers that stay holds the handle that the index is given
  -- next.
  pub release_ref-Release : refs (next_handle h) ps ≡ 0 → Release o h ps (release_ref o p h)
  unfolding release_ref
  release_ref-Release free = elim (Bool-cases (SparseSet.is_valid o.size p.set h)) [
    | inl ok ↦ elim (ℕ_discrete (ref_count_of o p (who_of h)) 1) [
      | yes one ↦
          freed (rw (ok, (==_iff _ _).1 one)) (released-Counted ok one free) (released_stale ok)
      | no more ↦ rw (ok, ≢→== _ _ more) (kept refl (decremented-Counted ok))
    ]
    | inr bad ↦ rw bad (kept refl (dropped-Counted bad))
  ]

  count_of_held :
      SparseSet.is_valid o.size p.set h ≡ true → ref_count_of o p (who_of h) ≡ suc (refs h ps)
  count_of_held ok =
      let e = present c v h small ok in
      let n = v.counts (who_of h) (who_lt o.size p.set h ok) in
      ground (arith, ap (λ g. refs g ps) e)

  -- ReleaseRef on a valid handle answers true exactly when no other pointer holds the handle; where
  -- one does, it answers false and leaves the set as it was.
  pub release_ref_last :
      SparseSet.is_valid o.size p.set h ≡ true
      → ((refs h ps ≡ 0) × ((release_ref o p h).0 ≡ true))
        ⊎ ((refs h ps ≢ 0) × ((release_ref o p h).0 ≡ false) × ((release_ref o p h).1.set ≡ p.set))
  unfolding release_ref set_ref_count
  release_ref_last ok = elim (ℕ_discrete (refs h ps) 0) [
    | yes none_left ↦ inl (none_left, rw (ok, count_of_held ok, none_left))
    | no more ↦
        let e = ≢→== (suc (refs h ps)) 1 (omega arith) in
        inr (more, rw (ok, count_of_held ok, e), rw (ok, count_of_held ok, e))
  ]
