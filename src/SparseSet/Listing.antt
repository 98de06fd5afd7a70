-- ===== src/SparseSet/Listing.antt =====
-- GetIndicesInState and GetState.
use server_study.Prelude.{
  ℕ, zero, suc, ◌+◌, ◌-◌, ◌^◌, ◌≤◌, ◌<◌, ◌≡◌, ◌↔◌, ◌⊎◌, Bool-cases, arith, true, false, inl, inr,
  ap, sym, ◌∙◌, In, Distinct, lt→leb, compare_cases,
}
use server_study.SparseSet.{
  SparseSet, who_of, where_of, state_of, get_handle, is_valid, collect, get_indices_in_state,
  get_state,
}
use server_study.SparseSet.Invariant.{Config, Inv, cursor-le, state_of_segment}
use server_study.SparseSet.Handles.{
  get_handle_unpacks, get_handle-is_valid, valid-get_handle, who_lt,
}

module _ (s : SparseSet) where
  In-collect :
      (rounds i p h : ℕ)
      → i ≤ p
      → p < i + rounds
      → h ≡ get_handle s (s.dense p)
      → In h (collect s rounds i)
  unfolding collect
  In-collect zero i p h lo hi e = absurd (omega arith)
  In-collect (suc rounds) i p h lo hi e = elim (compare_cases i p) [
    | inl less ↦ inr (In-collect rounds (i + 1) p h (omega arith) (omega arith) e)
    | inr (inl same) ↦ inl (rw same e)
    | inr (inr more) ↦ absurd (omega arith)
  ]

  collect-In :
      (rounds i h : ℕ)
      → In h (collect s rounds i)
      → (p : ℕ) × (i ≤ p) × (p < i + rounds) × (h ≡ get_handle s (s.dense p))
  unfolding collect
  collect-In zero i h m = elim m [ ]
  collect-In (suc rounds) i h (inl e) = (i, omega arith, omega arith, e)
  collect-In (suc rounds) i h (inr m) =
      let (p, lo, hi, e) = collect-In rounds (i + 1) h m in (p, omega arith, omega arith, e)

module _ {n k : ℕ} (c : Config n k) {s : SparseSet} (v : Inv n k s) where
  collect-Distinct : (rounds i : ℕ) → i + rounds ≤ n → Distinct (collect s rounds i)
  unfolding collect
  collect-Distinct zero i h = tt
  collect-Distinct (suc rounds) i h = (once, collect-Distinct rounds (i + 1) (omega arith))
    where
      once : ¬ In (get_handle s (s.dense i)) (collect s rounds (i + 1))
      once m =
          let (p, lo, hi, e) = collect-In s rounds (i + 1) _ m in
          let at_i = get_handle_unpacks (s.dense i) c v (v.dense_lt i (omega arith)) in
          let at_p = get_handle_unpacks (s.dense p) c v (v.dense_lt p (omega arith)) in
          let same = ap (where_of s) (sym at_i.0 ∙ ap who_of e ∙ at_p.0) in
          omega (arith, v.where_dense i (omega arith), v.where_dense p (omega arith))

  module _ (j : ℕ) (hj : j < k) where
    listed : get_indices_in_state k s j ≡ collect s (s.cursor (j + 1) - s.cursor j) (s.cursor j)
    listed = unfold get_indices_in_state in rw (lt→leb j k hj)

    pub listed-In :
        (h : ℕ)
        → In h (get_indices_in_state k s j)
        → (is_valid n s h ≡ true) × (state_of s (who_of h) ≡ j)
    listed-In h m =
        let bound = cursor-le v (j + 1) (omega arith) in
        let (p, lo, hi, e) = collect-In s _ _ h (rw listed at m) in
        let in_range : p < n = omega arith in
        let unpacked = get_handle_unpacks (s.dense p) c v (v.dense_lt p in_range) in
        let at_p = v.where_dense p in_range in
        rw e (
          get_handle-is_valid (s.dense p) c v (v.dense_lt p in_range),
          rw unpacked.0 (
              state_of_segment v (s.dense p) j (v.dense_lt p in_range) hj (omega arith)
                (omega arith)),
        )

    -- Every handle of the list is the one that the set gives out for its index.
    pub listed_handle :
        (h : ℕ) → In h (get_indices_in_state k s j) → (who_of h < n) × (h ≡ get_handle s (who_of h))
    listed_handle h m =
        let bound = cursor-le v (j + 1) (omega arith) in
        let (p, lo, hi, e) = collect-In s _ _ h (rw listed at m) in
        let in_range : p < n = omega arith in
        let own = get_handle_unpacks (s.dense p) c v (v.dense_lt p in_range) in
        let who_lem : who_of h ≡ s.dense p = ap who_of e ∙ own.0 in
        (omega (arith, v.dense_lt p in_range, who_lem), e ∙ ap (get_handle s) (sym who_lem))

    pub In-listed :
        (h : ℕ)
        → h < 2 ^ 64
        → is_valid n s h ≡ true
        → state_of s (who_of h) ≡ j
        → In h (get_indices_in_state k s j)
    In-listed h small ok e =
        let i = who_of h in
        let hi = who_lt n s h ok in
        let low : s.cursor j ≤ where_of s i = rw e at (v.above i hi) in
        let high : where_of s i < s.cursor (j + 1) = rw e at (v.below i hi) in
        rw listed (
          In-collect s _ _ (where_of s i) h low (omega arith)
            (valid-get_handle n s h small ok ∙ ap (get_handle s) (sym (v.dense_where i hi))))

    -- On a state that exists GetIndicesInState lists a 64-bit word exactly if that is a valid handle
    -- in that state.
    pub get_indices_in_state_lem :
        (h : ℕ)
        → h < 2 ^ 64
        → In h (get_indices_in_state k s j)
          ↔ ((is_valid n s h ≡ true) × (state_of s (who_of h) ≡ j))
    get_indices_in_state_lem h small = (listed-In h, λ both. In-listed h small both.0 both.1)

    -- On a state that exists GetIndicesInState lists no handle twice.
    pub get_indices_in_state-Distinct : Distinct (get_indices_in_state k s j)
    get_indices_in_state-Distinct = rw listed (
        collect-Distinct (s.cursor (j + 1) - s.cursor j) (s.cursor j)
          (omega (arith, cursor-le v (j + 1) (omega arith), v.mono j hj)))

  -- GetState answers a valid handle with its state, which is one that exists, and any other word
  -- with -1.
  pub get_state_lem :
      (h : ℕ)
      → ((is_valid n s h ≡ true)
          × (get_state n s h ≡ state_of s (who_of h))
          × (get_state n s h < k))
        ⊎ ((is_valid n s h ≡ false) × (get_state n s h ≡ 2 ^ 64 - 1))
  unfolding get_state
  get_state_lem h = elim (Bool-cases (is_valid n s h)) [
    | inl ok ↦ inl (ok, rw ok, rw ok (v.state_lt (who_of h) (who_lt n s h ok)))
    | inr bad ↦ inr (bad, rw bad)
  ]
