-- ===== src/SessionManager/Startup.antt =====
-- SessionManager::Init and RegisterSession: the sockets of the sessions and the completion port.
use server_study.Prelude.{
  ℕ, ◌<◌, ◌≡◌, refl, ap, sym, ◌∙◌, inl, inr, Bool, true, false, Option, none, some, List, [], ◌∷◌,
  ◌++◌, map, In, Distinct, if◌then◌else◌, Bool-cases,
}
use mathlib.Core.List.{append-nil, append_assoc}
use server_study.SparseSet.{get_indices_in_state, who_of}
use server_study.SparseSet.Invariant.{Config, Inv}
use server_study.SparseSet.Listing.{listed-In, get_indices_in_state-Distinct}
use server_study.SparsePool.{Pool, Options, is_valid, get_obj}
use server_study.SessionState.{idle}

-- `register` is IocpCore::Register, `socket` is that of a session. Where GetObj gives a null pointer, it is
-- used all the same, which is undefined; here the answer is none.
module _ {T W : Type 0} (o : Options T) (socket : T → ℕ) (register : W → ℕ → ℕ → Bool × W) where
  unfoldable pub register_obj : Option T → ℕ → W → Option (Bool × W)
  register_obj none handle w = none
  register_obj (some obj) handle w = some (register w (socket obj) handle)

  unfoldable pub register_session : Pool T → ℕ → W → Option (Bool × W)
  register_session p handle w = register_obj (get_obj o p handle) handle w

  -- `all_of`, which stops at the first session that cannot be registered.
  unfoldable pub register_all : Pool T → List ℕ → W → Option (Bool × W)
  register_all p [] w = some (true, w)
  register_all p (handle ∷ handles) w = elim (register_session p handle w) [
    | none ↦ none
    | some (done, w') ↦
        let rest = register_all p handles w' in if done then rest else some (false, w')
  ]

  unfoldable pub init_sessions : Pool T → W → Option (Bool × W)
  init_sessions p w = register_all p (get_indices_in_state o.state_count p.set idle) w

  -- The socket and the key of a handle.
  abbrev pub entry : Pool T → ℕ → ℕ × ℕ
  entry p handle = (socket (p.slots (who_of handle)).obj, handle)

  -- What the completion port promises: it takes what it says.
  abbrev pub Logs : (W → List (ℕ × ℕ)) → Type 0
  Logs registered =
      (w : W) (socket key : ℕ)
      → let (done, w') = register w socket key in
        registered w' ≡ (if done then registered w ++ (socket, key) ∷ [] else registered w)

  -- If it answers false, the completion port refused the first of the rest, after it had taken the others.
  abbrev pub Refused : (W → List (ℕ × ℕ)) → Pool T → W → List ℕ → List ℕ → W → Bool → Type 0
  Refused registered p w done rest w' true = Unit
  Refused registered p w done rest w' false =
      (h : ℕ) × (hs : List ℕ) × (v : W) × (rest ≡ h ∷ hs)
      × (registered v ≡ registered w ++ map (entry p) done)
      × (register v (entry p h).0 h ≡ (false, w'))

  -- The handles that are registered, the rest beginning with the one that could not be.
  pub record Registered (registered : W → List (ℕ × ℕ)) (p : Pool T) (handles : List ℕ) (w : W)
      (ok : Bool) (w' : W) : Type 0 where
    pub done : List ℕ
    pub rest : List ℕ
    pub all : handles ≡ done ++ rest
    pub none_left : (if ok then rest else []) ≡ []
    pub refused : Refused registered p w done rest w' ok
    pub log : registered w' ≡ registered w ++ map (entry p) done

  module _ (registered : W → List (ℕ × ℕ)) (logs : Logs registered) where
    get_obj-valid :
        (p : Pool T) (h : ℕ) → is_valid o p h ≡ true → get_obj o p h ≡ some (p.slots (who_of h)).obj
    unfolding get_obj is_valid
    get_obj-valid p h ok = rw ok refl

    one_more :
        (p : Pool T) (w w1 w2 : W) (h : ℕ) (done rest : List ℕ) (ok : Bool)
        → registered w1 ≡ registered w ++ entry p h ∷ []
        → Refused registered p w1 done rest w2 ok
        → Refused registered p w (h ∷ done) rest w2 ok
    one_more p w w1 w2 h done rest true first refused = tt
    one_more p w w1 w2 h done rest false first (k, ks, v, split, log, fails) = (
      k,
      ks,
      v,
      split,
      log
          ∙ (ap (λ l. l ++ map (entry p) done) first
              ∙ append_assoc (registered w) (entry p h ∷ []) (map (entry p) done)),
      fails,
    )

    register_all-Registered :
        (p : Pool T) (handles : List ℕ) (w : W)
        → ((h : ℕ) → In h handles → is_valid o p h ≡ true)
        → (ok : Bool) × (w' : W) × (register_all p handles w ≡ some (ok, w'))
          × Registered registered p handles w ok w'
    unfolding register_all register_session register_obj
    register_all-Registered p [] w valid = (
      true,
      w,
      refl,
      record {
        done = [];
        rest = [];
        all = refl;
        none_left = refl;
        refused = tt;
        log = sym (append-nil (registered w));
      },
    )
    register_all-Registered p (h ∷ handles) w valid =
        let obj = get_obj-valid p h (valid h (inl refl)) in
        let r = register w (entry p h).0 h in
        let log = logs w (entry p h).0 h in
        elim (Bool-cases r.0) [
          | inl done ↦
              let (ok, w', runs, reg) =
                register_all-Registered p handles r.1 (λ k m. valid k (inr m)) in
              let first : registered r.1 ≡ registered w ++ entry p h ∷ [] = rw done at log in
              (
                ok,
                w',
                rw (register_all, obj, done) runs,
                record {
                  done = h ∷ reg.done;
                  rest = reg.rest;
                  all = ap (λ l. h ∷ l) reg.all;
                  none_left = reg.none_left;
                  refused = one_more p w r.1 w' h reg.done reg.rest ok first reg.refused;
                  log =
                      reg.log
                      ∙ (ap (λ l. l ++ map (entry p) reg.done) first
                          ∙ append_assoc (registered w) (entry p h ∷ []) (map (entry p) reg.done));
                },
              )
          | inr fails ↦
              let same : registered r.1 ≡ registered w = rw fails at log in
              (
                false,
                r.1,
                rw (register_all, obj, fails) refl,
                record {
                  done = [];
                  rest = h ∷ handles;
                  all = refl;
                  none_left = refl;
                  refused = (
                    h,
                    handles,
                    w,
                    refl,
                    sym (append-nil (registered w)),
                    ap (λ b. (b, r.1)) fails,
                  );
                  log = same ∙ sym (append-nil (registered w));
                },
              )
        ]

    -- With the pool in order, and a completion port that takes what it says: Init uses no null pointer, and
    -- registers the sockets of sessions that are idle, each once and with its own handle as the key, in the order in
    -- which GetIndicesInState lists them: all of them if it answers true, and those before the first one
    -- that could not be registered if it answers false. The list has no handle twice.
    pub init_sessions_lem :
        (p : Pool T) (w : W)
        → Config o.size o.state_count
        → Inv o.size o.state_count p.set
        → idle < o.state_count
        → let handles = get_indices_in_state o.state_count p.set idle in
          ((ok : Bool) × (w' : W) × (init_sessions p w ≡ some (ok, w'))
            × Registered registered p handles w ok w')
          × Distinct handles
    unfolding init_sessions is_valid
    init_sessions_lem p w c v some_states = (
      register_all-Registered p (get_indices_in_state o.state_count p.set idle) w
          (λ h m. (listed-In c v idle some_states h m).0),
      get_indices_in_state-Distinct c v idle some_states,
    )
