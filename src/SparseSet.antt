-- ===== src/SparseSet.antt =====
-- Network/Common/Pool/SparseSet.hpp: handles 0 .. N-1 kept in one dense array, sorted by state.
-- The template parameters N and stateCount are `n` and `k`; logging is left out.
pub mod Invariant
pub mod Exchange
pub mod Raise
pub mod Lower
pub mod Move
pub mod Handles
pub mod Calls
pub mod Listing
pub mod History
mod Tests
use server_study.Prelude.{
  ℕ, zero, suc, ◌+◌, ◌-◌, ◌*◌, ◌/◌, ◌%◌, ◌^◌, Bool, true, false, ◌&&◌, List, [], ◌∷◌, Array, update,
  ltb, leb, ◌==◌, if◌then◌else◌, sub32, add32, sub64,
}

pub record Slot : Type 0 where
  pub where_ : ℕ
  pub generation : ℕ
  pub state : ℕ

-- The handles of state j stand in `dense` from `cursor j` to `cursor (j + 1) - 1`.
pub record SparseSet : Type 0 where
  pub sparse : Array Slot
  pub dense : Array ℕ
  pub cursor : Array ℕ

abbrev pub invalid_handle : ℕ
invalid_handle = 2 ^ 64 - 1

-- The index of a handle is its low word, the generation its high word.
abbrev pub who_of : ℕ → ℕ
who_of handle = handle % 2 ^ 32

abbrev pub generation_of : ℕ → ℕ
generation_of handle = handle / 2 ^ 32 % 2 ^ 32

abbrev pub where_of : SparseSet → ℕ → ℕ
where_of s i = (s.sparse i).where_

abbrev pub state_of : SparseSet → ℕ → ℕ
state_of s i = (s.sparse i).state

abbrev pub generation_at : SparseSet → ℕ → ℕ
generation_at s i = (s.sparse i).generation

-- The high word is shifted above the low one, so `|` adds them.
unfoldable pub get_handle : SparseSet → ℕ → ℕ
get_handle s who = generation_at s who * 2 ^ 32 + who

abbrev pub set_where : Array Slot → ℕ → ℕ → Array Slot
set_where a i p = update a i (record (a i) { where_ = p })

abbrev pub set_state : Array Slot → ℕ → ℕ → Array Slot
set_state a i j = update a i (record (a i) { state = j })

-- The swap of two dense entries, and the two writes that keep `where_` in step.
unfoldable pub exchange : SparseSet → ℕ → ℕ → SparseSet
exchange s p q =
    let d : Array ℕ = update (update s.dense p (s.dense q)) q (s.dense p) in
    record s { dense = d; sparse = set_where (set_where s.sparse (d p) p) (d q) q }

pub raise : SparseSet → ℕ → SparseSet
unfolding exchange
raise s who =
    let next = state_of s who + 1 in
    let t = exchange s (where_of s who) (sub32 (s.cursor next) 1) in
    record t {
      cursor = update t.cursor next (sub32 (t.cursor next) 1);
      sparse = set_state t.sparse who next;
    }

pub lower : SparseSet → ℕ → SparseSet
unfolding exchange
lower s who =
    let current = state_of s who in
    let t = exchange s (where_of s who) (s.cursor current) in
    record t {
      cursor = update t.cursor current (add32 (t.cursor current) 1);
      sparse = set_state t.sparse who (current - 1);
    }

unfoldable pub bump_generation : SparseSet → ℕ → SparseSet
bump_generation s who = record s {
  sparse =
      update s.sparse who (record (s.sparse who) { generation = add32 (generation_at s who) 1 });
}

-- The loop of GetIndicesInState, over the positions from `i` on.
pub collect : SparseSet → ℕ → ℕ → List ℕ
collect s zero i = []
collect s (suc rounds) i = get_handle s (s.dense i) ∷ collect s rounds (i + 1)

module _ (n : ℕ) where
  unfoldable pub init : SparseSet
  init = record {
    sparse = λ i. record { where_ = i % 2 ^ 32; generation = 0; state = 0 };
    dense = λ i. i % 2 ^ 32;
    cursor = update (λ j. n % 2 ^ 32) 0 0;
  }

  unfoldable pub is_valid : SparseSet → ℕ → Bool
  is_valid s handle =
      ltb (who_of handle) n && (generation_at s (who_of handle) == generation_of handle)

  unfoldable pub get_state : SparseSet → ℕ → ℕ
  get_state s handle = if is_valid s handle then state_of s (who_of handle) else 2 ^ 64 - 1

unfoldable pub decrement_state : SparseSet → ℕ → Bool × SparseSet
unfolding lower
decrement_state s handle =
    if state_of s (who_of handle) == 0 then (false, s) else (true, lower s (who_of handle))

-- The second loop of MoveToState. A round lowers the state by one, so as many rounds as the state
-- are enough.
pub descend : ℕ → SparseSet → (handle new_state : ℕ) → Bool × SparseSet
descend zero s handle new_state = (true, s)
descend (suc rounds) s handle new_state =
    let (done, t) = decrement_state s handle in
    let rest = descend rounds t handle new_state in
    if ltb new_state (state_of s (who_of handle))
    then (if done then rest else (false, t))
    else (true, s)

module _ (k : ℕ) where
  unfoldable pub increment_state : SparseSet → ℕ → Bool × SparseSet
  unfolding raise
  increment_state s handle =
      if leb (sub64 k 1) (state_of s (who_of handle))
      then (false, s)
      else (true, raise s (who_of handle))

  -- The first loop of MoveToState. A round raises the state by one, so `new_state` rounds are enough.
  pub climb : ℕ → SparseSet → (handle new_state : ℕ) → Bool × SparseSet
  climb zero s handle new_state = (true, s)
  climb (suc rounds) s handle new_state =
      let (done, t) = increment_state s handle in
      let rest = climb rounds t handle new_state in
      if ltb (state_of s (who_of handle)) new_state
      then (if done then rest else (false, t))
      else (true, s)

  pub move_loops : SparseSet → (handle new_state : ℕ) → Bool × SparseSet
  move_loops s handle new_state =
      let (up, t) = climb new_state s handle new_state in
      if up then descend (state_of t (who_of handle)) t handle new_state else (false, t)

  unfoldable pub get_indices_in_state : SparseSet → ℕ → List ℕ
  unfolding collect get_handle
  get_indices_in_state s state =
      if leb k state then [] else collect s (s.cursor (state + 1) - s.cursor state) (s.cursor state)

module _ (n k : ℕ) where
  unfoldable pub move_to_state : SparseSet → (handle new_state : ℕ) → Bool × SparseSet
  unfolding move_loops climb descend
  move_to_state s handle new_state =
      if leb k new_state
      then (false, s)
      else (if is_valid n s handle then move_loops k s handle new_state else (false, s))

  -- Pop writes nothing but through MoveToState, whose result it ignores.
  unfoldable pub pop : SparseSet → ℕ → ℕ × SparseSet
  pop s state =
      if leb k state
      then (invalid_handle, s)
      else (if s.cursor 0 == s.cursor 1
          then (invalid_handle, s)
          else (let handle = get_handle s (s.dense (s.cursor 0)) in
              (handle, (move_to_state s handle state).1)))

  unfoldable pub push : SparseSet → ℕ → Bool × SparseSet
  push s handle =
      if is_valid n s handle
      then (true, bump_generation (move_to_state s handle 0).1 (who_of handle))
      else (false, s)
