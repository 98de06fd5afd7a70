-- ===== src/Echo/Ledger.antt =====
-- What the calls of Winsock do to sockets.
use server_study.Prelude.{
  ℕ, ◌+◌, ◌<◌, ◌≡◌, Bool, true, false, Option, none, some, List, Array, update, if◌then◌else◌,
}
use server_study.Echo.{Sockets}

-- What the system promises: the sockets that are open, how often Winsock was started and not cleaned up.
pub record Ledger (W : Type 0) : Type 0 where
  pub is_open : W → Array Bool
  pub starts : W → ℕ

module _ {W : Type 0} (l : Ledger W) where
  pub record Same (w w' : W) : Type 0 where
    pub sockets : (h : ℕ) → l.is_open w' h ≡ l.is_open w h
    pub starts : l.starts w' ≡ l.starts w

  pub record Opened (w : W) (s : ℕ) (w' : W) : Type 0 where
    pub unused : l.is_open w s ≡ false
    pub sockets : (h : ℕ) → l.is_open w' h ≡ update (l.is_open w) s true h
    pub starts : l.starts w' ≡ l.starts w

  abbrev pub MayOpen : W → Option ℕ × W → Type 0
  MayOpen w (none, w') = Same w w'
  MayOpen w (some s, w') = Opened w s w'

  pub record Keeps (sockets : Sockets W) : Type 0 where
    pub startup :
        (w : W)
        → ((h : ℕ) → l.is_open (sockets.startup w).1 h ≡ l.is_open w h)
          × (l.starts (sockets.startup w).1
              ≡ (if (sockets.startup w).0 then l.starts w + 1 else l.starts w))
    pub socket : (w : W) → MayOpen w (sockets.socket w)
    pub bind : (w : W) (s : ℕ) → Same w (sockets.bind w s).1
    pub listen : (w : W) (s : ℕ) → Same w (sockets.listen w s).1
    pub accept : (w : W) (s : ℕ) → MayOpen w (sockets.accept w s)
    pub recv : (w : W) (s n : ℕ) → Same w (sockets.recv w s n).1
    pub send : (w : W) (s : ℕ) (bytes : List ℕ) → Same w (sockets.send w s bytes).1
    pub closed :
        (w : W) (s : ℕ)
        → ((h : ℕ) → l.is_open (sockets.close w s) h ≡ update (l.is_open w) s false h)
          × (l.starts (sockets.close w s) ≡ l.starts w)
    pub cleaned :
        (w : W)
        → 0 < l.starts w
        → ((h : ℕ) → l.is_open (sockets.cleanup w) h ≡ l.is_open w h)
          × (l.starts (sockets.cleanup w) + 1 ≡ l.starts w)
