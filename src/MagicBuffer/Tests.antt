-- ===== src/MagicBuffer/Tests.antt =====
-- A buffer of four bytes at address 8.
use server_study.Prelude.{
  ℕ, zero, suc, ◌+◌, ◌<◌, ◌≤◌, ◌≡◌, refl, Bool, true, false, Option, none, some, [], ◌∷◌, Array,
  update, ◌==◌, ◌&&◌, if◌then◌else◌, ltb, arith, Bool-cases, inl, inr, map, window, fill,
}
use server_study.MagicBuffer.{
  System, MagicBuffer, after_second, after_first, map_halves, place, reserve, construct, destroy,
}
use server_study.MagicBuffer.Views.{
  View, with_view, without_view, Untouched, Created, Allocated, Mapped, Maps,
}
use server_study.MagicBuffer.Mirror.{Constructed, construct-Constructed, construct-destroy}
use server_study.MagicBuffer.Memory.{load, store, clear, load-store}

-- The views, and the handles that are open.
abbrev World : Type 0
World = Array (Option View) × Array Bool

abbrev views : World → Array (Option View)
views w = w.0

abbrev is_open : World → Array Bool
is_open w = w.1

abbrev is_none : Option View → Bool
is_none none = true
is_none (some v) = false

abbrev all_free : Array (Option View) → ℕ → ℕ → Bool
all_free vs x zero = true
all_free vs x (suc n) = is_none (vs x) && all_free vs (x + 1) n

abbrev unmap : World → Option View → World
unmap w none = w
unmap w (some v) = (without_view w.0 v, w.1)

abbrev create : World → Bool → Option ℕ × World
create w true = (none, w)
create w false = (some 7, (w.0, update w.1 7 true))

abbrev allocate : World → Bool → Option ℕ × World
allocate w true = (some 8, w)
allocate w false = (none, w)

abbrev map_at : World → View → Bool → Bool × World
map_at w v true = (true, (with_view w.0 v, w.1))
map_at w v false = (false, w)

-- There is one section, whose handle is 7.
abbrev system : System World
system = record {
  granularity = λ w. 4;
  create_file_mapping = λ w size. create w (w.1 7);
  virtual_alloc = λ w size. allocate w (ltb size 100);
  virtual_free = λ w ptr. w;
  map_view = λ w m size address.
      map_at w (record { map = m; size = size; address = address }) (all_free w.0 address size);
  unmap_view = λ w address. unmap w (w.0 address);
  close_handle = λ w m. (w.0, update w.1 m false);
}

is_none-none : (v : Option View) → is_none v ≡ true → v ≡ none
is_none-none none e = refl
is_none-none (some v) e = absurd (ground (arith, e))

all_free-none :
    (vs : Array (Option View)) (x n y : ℕ)
    → all_free vs x n ≡ true
    → x ≤ y
    → y < x + n
    → vs y ≡ none
all_free-none vs x zero y e lo hi = absurd (omega (arith, lo, hi))
all_free-none vs x (suc n) y e lo hi = elim (Bool-cases (is_none (vs x))) [
  | inr taken ↦ absurd (let f : false ≡ true = rw taken at e in ground (arith, f))
  | inl free ↦
      let rest : all_free vs (x + 1) n ≡ true = rw free at e in
      elim (Bool-cases (y == x)) [
        | inl here ↦ let same : y ≡ x = ground arith in rw same (is_none-none (vs x) free)
        | inr later ↦ all_free-none vs (x + 1) n y rest (ground arith) (omega (arith, hi))
      ]
]

created : (w : World) (b : Bool) → w.1 7 ≡ b → Created views is_open w (create w b)
created w true e = ((λ x. refl), (λ h. refl))
created w false e = (omega arith, e, (λ x. refl), (λ h. refl))

allocated :
    (w : World) (size : ℕ) (b : Bool)
    → ltb size 100 ≡ b
    → Allocated views is_open w size (allocate w b)
allocated w size true e = (omega arith, ground (arith, e), ((λ x. refl), (λ h. refl)))
allocated w size false e = ((λ x. refl), (λ h. refl))

mapped :
    (w : World) (v : View) (b : Bool)
    → all_free w.0 v.address v.size ≡ b
    → Mapped views is_open w v (map_at w v b)
mapped w v true e = (
  (λ x here. all_free-none w.0 v.address v.size x e (ground arith) (ground arith)),
  (λ x. refl),
  (λ h. refl),
)
mapped w v false e = ((λ x. refl), (λ h. refl))

unmapped :
    (w : World) (v : View) (here : Option View)
    → here ≡ some v
    → ((x : ℕ) → views (unmap w here) x ≡ without_view (views w) v x)
      × ((h : ℕ) → is_open (unmap w here) h ≡ is_open w h)
unmapped w v here e = rw e ((λ x. refl), (λ h. refl))

system-Maps : Maps views is_open system
system-Maps = record {
  created = λ w size. created w (w.1 7) refl;
  allocated = λ w size. allocated w size (ltb size 100) refl;
  freed = λ w ptr. ((λ x. refl), (λ h. refl));
  mapped = λ w v. mapped w v (all_free w.0 v.address v.size) refl;
  unmapped = λ w v some_bytes shown. unmapped w v (w.0 v.address) (shown v.address (ground arith));
  closed = λ w m. ((λ x. refl), (λ h. refl));
}

abbrev empty : World
empty = ((λ x. none), (λ h. false))

abbrev buffer : MagicBuffer
buffer = record { map = 7; size = 4; buffer = 8 }

abbrev built : World
built = (construct system empty 4).1

construct_runs : construct system empty 4 ≡ (some buffer, built)
unfolding construct reserve place map_halves after_first after_second
construct_runs = refl

construct-Constructed_example : Constructed views is_open empty 4 (construct system empty 4)
construct-Constructed_example = construct-Constructed system-Maps empty 4 (omega arith)

construct-destroy_example : Untouched views is_open empty (destroy system built buffer)
construct-destroy_example =
    construct-destroy system-Maps empty built 4 buffer (omega arith) (omega arith) construct_runs

-- Three bytes that go across the end of the first half.
load-store_example :
    (load (λ m i. i + 1) (views built) 11 3 ≡ map some (window (λ i. i + 1) 4 3 3))
    × ((j : ℕ)
        → store (λ m i. i + 1) (views built) 11 (5 ∷ 6 ∷ 7 ∷ []) 7 j
          ≡ fill (λ i. i + 1) 4 3 (5 ∷ 6 ∷ 7 ∷ []) j)
    × ((j : ℕ) → (if ltb j 4 then clear (λ m i. i + 1) (views built) buffer 7 j else 0) ≡ 0)
load-store_example =
    load-store system-Maps empty built 4 buffer (λ m i. i + 1) 3 (5 ∷ 6 ∷ 7 ∷ []) (omega arith)
      construct_runs (omega arith)
