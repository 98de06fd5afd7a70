-- ===== src/SparsePool/Counted.antt =====
-- Reference counts against the pointers that are alive: the invariant of a pool and its pointers.
use server_study.Prelude.{
  ℕ, ◌+◌, ◌^◌, ◌≤◌, ◌<◌, ◌≡◌, ◌≢◌, refl, sym, ap, ◌∙◌, true, false, ◌&&◌, List, [], ◌∷◌, Array,
  length, arith, ◌==◌, if◌then◌else◌,
}
use server_study.SparseSet.{SparseSet, who_of, state_of, generation_at, get_handle}
use server_study.SparseSet
use server_study.SparseSet.Invariant.{Config, Inv, init-Inv}
use server_study.SparseSet.Handles.{get_handle_unpacks, get_handle-is_valid}
use server_study.SparsePool.{Pool, Ptr, Options, ref_count_of, init}

-- How many of the pointers hold a handle.
abbrev pub refs : ℕ → List Ptr → ℕ
refs h [] = 0
refs h (p ∷ ps) = (if p.pool && p.handle == h then 1 else 0) + refs h ps

-- Every pointer holds a 64-bit word.
abbrev pub Words : List Ptr → Type 0
Words [] = Unit
Words (p ∷ ps) = (p.handle < 2 ^ 64) × Words ps

pub refs-le : (h : ℕ) (ps : List Ptr) → refs h ps ≤ length ps
refs-le h [] = omega arith
refs-le h (p ∷ ps) = ground (arith, refs-le h ps)

abbrev pub ptr : ℕ → Ptr
ptr h = record { pool = true; handle = h }

-- The count of each index is the number of pointers that hold its present handle, and nobody holds
-- an idle index.
pub record Counted {T : Type 0} (o : Options T) (p : Pool T) (ps : List Ptr) : Type 0 where
  pub inv : Inv o.size o.state_count p.set
  pub counts : (i : ℕ) → i < o.size → ref_count_of o p i ≡ refs (get_handle p.set i) ps
  pub idle : (i : ℕ) → i < o.size → state_of p.set i ≡ 0 → ref_count_of o p i ≡ 0
  pub words : Words ps
  pub few : length ps < 2 ^ 64

pub get_handle-generation :
    (s t : SparseSet) (i : ℕ)
    → generation_at t i ≡ generation_at s i
    → get_handle t i ≡ get_handle s i
unfolding get_handle
get_handle-generation s t i e = rw e

pub get_handle_injective :
    {n k : ℕ} {s : SparseSet} (i j : ℕ)
    → Config n k
    → Inv n k s
    → i < n
    → j < n
    → get_handle s i ≡ get_handle s j
    → i ≡ j
get_handle_injective i j c v hi hj e =
    sym (get_handle_unpacks i c v hi).0 ∙ ap who_of e ∙ (get_handle_unpacks j c v hj).0

-- A handle that is not valid is the present handle of no index.
pub invalid-ne :
    {n k : ℕ} {s : SparseSet} (h i : ℕ)
    → Config n k
    → Inv n k s
    → SparseSet.is_valid n s h ≡ false
    → i < n
    → h ≢ get_handle s i
invalid-ne {n} {s = s} h i c v bad hi e =
    let ok = get_handle-is_valid i c v hi in let same = ap (SparseSet.is_valid n s) e in cc

-- A fresh pool with no pointers.
pub init-Counted :
    {T : Type 0} (o : Options T) (objects : Array T)
    → Config o.size o.state_count
    → Counted o (init o objects) []
unfolding init
init-Counted o objects c = record {
  inv = init-Inv c;
  counts = λ i h. refl;
  idle = λ i h e. refl;
  words = tt;
  few = omega arith;
}
