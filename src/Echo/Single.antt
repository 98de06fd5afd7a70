-- ===== src/Echo/Single.antt =====
-- SingleThreadEcho.cpp and MultiThreadEcho.cpp: what comes between opening and closing sockets.
use server_study.Prelude.{
  ℕ, zero, suc, refl, ◌∙◌, Option, none, some, List, [], ◌∷◌, Bool-cases, inl, inr,
}
use server_study.Echo.{Sockets, goes_on, echo_back, echo_loop, reply}
use server_study.Echo.Ledger.{Ledger, Same, Keeps}

module _ {W : Type 0} {l : Ledger W} {sockets : Sockets W} (keeps : Keeps l sockets) where
  joined-Same : (w w1 w2 : W) → Same l w w1 → Same l w1 w2 → Same l w w2
  joined-Same w w1 w2 a b = record {
    sockets = λ h. b.sockets h ∙ a.sockets h;
    starts = b.starts ∙ a.starts;
  }

  goes_on-Same : (w : W) (r : Option ℕ × W) → Same l w r.1 → Same l w (goes_on sockets r).1
  unfolding goes_on
  goes_on-Same w (none, w2) x = x
  goes_on-Same w (some n, w2) x = x

  echo_back-Same :
      (client : ℕ) (w : W) (r : Option (List ℕ) × W)
      → Same l w r.1
      → Same l w (echo_back sockets client r).1
  unfolding echo_back
  echo_back-Same client w (none, w1) x = x
  echo_back-Same client w (some bytes, w1) x =
      goes_on-Same w _ (joined-Same w w1 _ x (keeps.send w1 client bytes))

  pub echo_loop-Same : (rounds client : ℕ) (w : W) → Same l w (echo_loop sockets rounds client w).1
  unfolding echo_loop
  echo_loop-Same zero client w = record { sockets = λ h. refl; starts = refl }
  echo_loop-Same (suc rounds) client w =
      let r = sockets.recv w client 1023 in
      let one = echo_back-Same client w r (keeps.recv w client 1023) in
      let w1 = (echo_back sockets client r).1 in
      elim (Bool-cases (echo_back sockets client r).0) [
        | inl on ↦ rw on (joined-Same w w1 _ one (echo_loop-Same rounds client w1))
        | inr off ↦ rw off one
      ]

  pub reply-Same :
      (client : ℕ) (w : W) (r : Option (List ℕ) × W)
      → Same l w r.1
      → Same l w (reply sockets client r)
  unfolding reply
  reply-Same client w (none, w1) x = x
  reply-Same client w (some [], w1) x = x
  reply-Same client w (some (byte ∷ bytes), w1) x =
      joined-Same w w1 _ x (keeps.send w1 client (byte ∷ bytes))
