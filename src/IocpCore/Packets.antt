-- ===== src/IocpCore/Packets.antt =====
-- IocpCore.cpp: what a worker takes from the completion port.
use server_study.Prelude.{
  ℕ, ◌≡◌, ap, sym, ◌∙◌, Bool, true, Option, none, some, List, [], ◌∷◌, ◌++◌, update,
}
use server_study.IocpCore.{Port, Pc, Machine, after_get, go_on, take}

-- What the system promises of a port that is open: packets come out in the order in which they come in,
-- each with its overlapped structure, and a packet that was posted without failure.
pub record IsFifo {Q C : Type 0} (port : Port Q C) (packets : Q → List (Option C))
    (is_open : Q → Bool) : Type 0 where
  pub posted :
      (q : Q)
      → is_open q ≡ true
      → (packets (port.post q) ≡ packets q ++ none ∷ []) × (is_open (port.post q) ≡ true)
  pub arrived :
      (q : Q) (c : C)
      → is_open q ≡ true
      → (packets (port.arrive q c) ≡ packets q ++ some c ∷ []) × (is_open (port.arrive q c) ≡ true)
  pub blocked : (q : Q) → is_open q ≡ true → packets q ≡ [] → port.get q ≡ (none, q)
  pub quit :
      (q : Q) (ps : List (Option C))
      → is_open q ≡ true
      → packets q ≡ none ∷ ps
      → (q' : Q) × (port.get q ≡ (some (true, none), q')) × (packets q' ≡ ps) × (is_open q' ≡ true)
  pub completed :
      (q : Q) (c : C) (ps : List (Option C))
      → is_open q ≡ true
      → packets q ≡ some c ∷ ps
      → (result : Bool) × (q' : Q) × (port.get q ≡ (some (result, some c), q'))
        × (packets q' ≡ ps)
        × (is_open q' ≡ true)

-- A packet that ends a thread.
unfoldable pub quits : {C : Type 0} → Option C → ℕ
quits none = 1
quits (some c) = 0

-- What a worker does to an open port, and is then at.
pub data Took {Q C : Type 0} (packets : Q → List (Option C)) (is_open : Q → Bool) (m : Machine Q C)
    (t : ℕ) : Machine Q C → Type 0 where
  blocks : packets m.port ≡ [] → Took packets is_open m t m
  quit :
      (q : Q)
      → packets m.port ≡ none ∷ packets q
      → is_open q ≡ true
      → Took packets is_open m t (record m { port = q; at = update m.at t Pc.ended })
  completion :
      (result : Bool) (c : C) (q : Q)
      → packets m.port ≡ some c ∷ packets q
      → is_open q ≡ true
      → Took packets is_open m t (record m { port = q; at = update m.at t (Pc.handling result c) })

module _ {Q C : Type 0} {port : Port Q C} {packets : Q → List (Option C)} {is_open : Q → Bool}
    (fifo : IsFifo port packets is_open) where
  pub take-Took :
      (m : Machine Q C) (t : ℕ) (ps : List (Option C))
      → is_open m.port ≡ true
      → packets m.port ≡ ps
      → Took packets is_open m t (take port m t (port.get m.port))
  unfolding take go_on after_get
  take-Took m t [] usable p = rw (fifo.blocked m.port usable p) (Took.blocks p)
  take-Took m t (none ∷ ps) usable p =
      let (q, got, left, usable') = fifo.quit m.port ps usable p in
      rw got (Took.quit q (p ∙ ap (λ l. none ∷ l) (sym left)) usable')
  take-Took m t (some c ∷ ps) usable p =
      let (result, q, got, left, usable') = fifo.completed m.port c ps usable p in
      rw got (Took.completion result c q (p ∙ ap (λ l. some c ∷ l) (sym left)) usable')
