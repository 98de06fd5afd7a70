-- ===== src/Listener/Posting.antt =====
-- PostAccept in one thread.
use server_study.Prelude.{
  ℕ, zero, suc, ◌+◌, ◌-◌, ◌<◌, ◌≤◌, ◌≡◌, refl, ap, ◌∙◌, Bool, true, false, none, some, add64, sub64,
  if◌then◌else◌, leb, ◌⊎◌, inl, inr, arith, Bool-cases,
}
use server_study.Listener.{accept_count, Calls, post_one, post_accept, decrement_pending_accepts}

-- The number of accepts that a world has posted: only `register_accept` adds to it, one where it
-- answers true.
pub record Counts {W P : Type 0} (calls : Calls W P) (posted : W → ℕ) : Type 0 where
  pub created : (w : W) → posted (calls.create_session w).1 ≡ posted w
  pub registered :
      (w : W) (ptr : P)
      → posted (calls.register_accept w ptr).1
        ≡ (if (calls.register_accept w ptr).0 then posted w + 1 else posted w)
  pub listened : (w : W) (ptr : P) → posted (calls.set_listener w ptr) ≡ posted w
  pub disconnected : (w : W) (ptr : P) → posted (calls.disconnect w ptr) ≡ posted w

module _ {W P : Type 0} {calls : Calls W P} {posted : W → ℕ} (counts : Counts calls posted) where
  post_one_lem :
      (pending : ℕ) (w : W)
      → pending < accept_count
      → let (answer, pending', w') = post_one calls (add64 pending 1) w in
        (pending' + posted w ≡ pending + posted w')
        × (((answer ≡ none) × (pending' ≡ pending + 1))
            ⊎ ((answer ≡ some false) × (pending' ≡ pending)))
  unfolding post_one
  post_one_lem pending w h =
      let e = counts.created w in
      let r = counts.registered in
      let l = counts.listened in let d = counts.disconnected in grind (arith, r, l, d)

  -- While no other thread is about and the count is at most 1000, PostAccept ends: a round for each
  -- accept that is missing and one more are enough. The count goes up by the number of accepts posted,
  -- and is 1000 if the answer is true and less if it is false.
  pub post_accept_lem :
      (rounds pending : ℕ) (w : W)
      → pending ≤ accept_count
      → accept_count < pending + rounds
      → (ok : Bool) × (pending' : ℕ) × (w' : W) × (post_accept calls rounds pending w
          ≡ some (ok, pending', w'))
        × (pending' + posted w ≡ pending + posted w')
        × (if ok then pending' ≡ accept_count else (pending' < accept_count))
  unfolding post_accept
  post_accept_lem zero pending w h k = absurd (omega (arith, h, k))
  post_accept_lem (suc rounds) pending w h k = elim (Bool-cases (leb accept_count pending)) [
    | inl full ↦ rw full (true, pending, w, refl, refl, ground arith)
    | inr room ↦
        let (kept, ended) = post_one_lem pending w (ground arith) in
        let r = post_one calls (add64 pending 1) w in
        elim ended [
          | inr (stop, same) ↦ rw (room, stop) (false, r.1, r.2, refl, kept, ground arith)
          | inl (on, more) ↦
              let (ok, pending', w', e, count, last) =
                post_accept_lem rounds r.1 r.2 (ground arith) (omega (arith, k, more)) in
              rw (room, on) (ok, pending', w', e, omega (arith, kept, count), last)
        ]
  ]

  -- So too DecrementPendingAccepts, on a completed accept that is among those counted.
  decrement_pending_accepts_lem :
      (rounds pending : ℕ) (w : W)
      → 0 < pending
      → pending ≤ accept_count
      → accept_count < pending - 1 + rounds
      → (ok : Bool) × (pending' : ℕ) × (w' : W) × (decrement_pending_accepts calls rounds pending w
          ≡ some (ok, pending', w'))
        × (pending' + posted w + 1 ≡ pending + posted w')
        × (if ok then pending' ≡ accept_count else (pending' < accept_count))
  unfolding decrement_pending_accepts
  decrement_pending_accepts_lem rounds pending w h k l =
      let less : sub64 pending 1 ≡ pending - 1 = omega (arith, h, k) in
      let (ok, pending', w', e, count, last) =
        post_accept_lem rounds (pending - 1) w (omega (arith, k)) l in
      (
        ok,
        pending',
        w',
        ap (λ n. post_accept calls rounds n w) less ∙ e,
        omega (arith, h, count),
        last,
      )
