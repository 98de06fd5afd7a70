-- ===== src/Echo/Leaving.antt =====
-- SingleThreadEcho.cpp: what the server leaves open.
use server_study.Prelude.{
  update_back, ℕ, ◌+◌, ◌≡◌, ap, sym, ◌∙◌, Bool, true, false, Option, none, some, update, ◌==◌,
  if◌then◌else◌, arith,
}
use server_study.Echo.{
  Sockets, echo_loop, after_loop, after_accept, after_listen, after_bind, after_socket,
  after_startup, single_main,
}
use server_study.Echo.Ledger.{Ledger, Same, Opened, MayOpen, Keeps}
use server_study.Echo.Single.{echo_loop-Same}

module _ {W : Type 0} (l : Ledger W) where
  -- The sockets that are open and the starts of Winsock are as they were.
  pub record Clean (w w' : W) : Type 0 where
    pub sockets : (h : ℕ) → l.is_open w' h ≡ l.is_open w h
    pub starts : l.starts w' ≡ l.starts w

  abbrev pub Ended : W → Option (ℕ × W) → Type 0
  Ended w none = Unit
  Ended w (some (code, w')) = Clean w w'

  -- Winsock is started, and one socket is open.
  record Listens (w : W) (server : ℕ) (w' : W) : Type 0 where
    pub unused : l.is_open w server ≡ false
    pub sockets : (h : ℕ) → l.is_open w' h ≡ update (l.is_open w) server true h
    pub starts : l.starts w' ≡ l.starts w + 1

module _ {W : Type 0} {l : Ledger W} {sockets : Sockets W} (keeps : Keeps l sockets) where
  still-Listens :
      (w w1 w2 : W) (server : ℕ) → Listens l w server w1 → Same l w1 w2 → Listens l w server w2
  still-Listens w w1 w2 server a b = record {
    unused = a.unused;
    sockets = λ h. b.sockets h ∙ a.sockets h;
    starts = b.starts ∙ a.starts;
  }

  -- The listening socket is closed, and Winsock cleaned up.
  leaves :
      (w w1 : W) (server : ℕ)
      → Listens l w server w1
      → Clean l w (sockets.cleanup (sockets.close w1 server))
  leaves w w1 server a =
      let (shut, starts) = keeps.closed w1 server in
      let (kept, cleaned) =
        keeps.cleaned (sockets.close w1 server) (omega (arith, starts, a.starts)) in
      record {
        sockets = λ h.
            kept h
            ∙ (shut h
                ∙ (ap (λ b. if h == server then false else b) (a.sockets h)
                    ∙ update_back (l.is_open w) server true false a.unused h));
        starts = omega (arith, cleaned, starts, a.starts);
      }

  -- The client's socket was open, and is closed.
  back-Listens :
      (w w1 w2 w3 : W) (server client : ℕ)
      → Listens l w server w1
      → Opened l w1 client w2
      → ((h : ℕ) → l.is_open w3 h ≡ l.is_open w2 h)
      → l.starts w3 ≡ l.starts w2
      → Listens l w server (sockets.close w3 client)
  back-Listens w w1 w2 w3 server client a o kept starts =
      let (shut, shut_starts) = keeps.closed w3 client in
      record {
        unused = a.unused;
        sockets = λ h.
            shut h
            ∙ (ap (λ b. if h == client then false else b) (kept h ∙ o.sockets h)
                ∙ (update_back (l.is_open w1) client true false o.unused h ∙ a.sockets h));
        starts = shut_starts ∙ (starts ∙ (o.starts ∙ a.starts));
      }

  loop-Ended :
      (w w1 w2 w3 : W) (server client : ℕ) (on : Bool)
      → Listens l w server w1
      → Opened l w1 client w2
      → Same l w2 w3
      → Ended l w (after_loop sockets server client (on, w3))
  unfolding after_loop
  loop-Ended w w1 w2 w3 server client true a o e = tt
  loop-Ended w w1 w2 w3 server client false a o e =
      leaves w _ server (back-Listens w w1 w2 w3 server client a o e.sockets e.starts)

  accept-Ended :
      (rounds : ℕ) (w w1 : W) (server : ℕ) (r : Option ℕ × W)
      → Listens l w server w1
      → MayOpen l w1 r
      → Ended l w (after_accept sockets rounds server r)
  unfolding after_accept
  accept-Ended rounds w w1 server (none, w2) a o =
      leaves w w2 server (still-Listens w w1 w2 server a o)
  accept-Ended rounds w w1 server (some client, w2) a o =
      let e = echo_loop-Same keeps rounds client w2 in
      loop-Ended w w1 w2 (echo_loop sockets rounds client w2).1 server client
        (echo_loop sockets rounds client w2).0 a o e

  listen-Ended :
      (rounds : ℕ) (w w1 : W) (server : ℕ) (r : Bool × W)
      → Listens l w server w1
      → Same l w1 r.1
      → Ended l w (after_listen sockets rounds server r)
  unfolding after_listen
  listen-Ended rounds w w1 server (false, w2) a o =
      leaves w w2 server (still-Listens w w1 w2 server a o)
  listen-Ended rounds w w1 server (true, w2) a o =
      accept-Ended rounds w w2 server _ (still-Listens w w1 w2 server a o) (keeps.accept w2 server)

  bind-Ended :
      (rounds : ℕ) (w w1 : W) (server : ℕ) (r : Bool × W)
      → Listens l w server w1
      → Same l w1 r.1
      → Ended l w (after_bind sockets rounds server r)
  unfolding after_bind
  bind-Ended rounds w w1 server (false, w2) a o =
      leaves w w2 server (still-Listens w w1 w2 server a o)
  bind-Ended rounds w w1 server (true, w2) a o =
      listen-Ended rounds w w2 server _ (still-Listens w w1 w2 server a o) (keeps.listen w2 server)

  socket-Ended :
      (rounds : ℕ) (w w1 : W) (r : Option ℕ × W)
      → ((h : ℕ) → l.is_open w1 h ≡ l.is_open w h)
      → l.starts w1 ≡ l.starts w + 1
      → MayOpen l w1 r
      → Ended l w (after_socket sockets rounds r)
  unfolding after_socket
  socket-Ended rounds w w1 (none, w2) kept starts o =
      let (kept2, cleaned) = keeps.cleaned w2 (omega (arith, o.starts, starts)) in
      record {
        sockets = λ h. kept2 h ∙ (o.sockets h ∙ kept h);
        starts = omega (arith, cleaned, o.starts, starts);
      }
  socket-Ended rounds w w1 (some server, w2) kept starts o =
      let a : Listens l w server w2 = record {
        unused = sym (kept server) ∙ o.unused;
        sockets = λ h. o.sockets h ∙ ap (λ b. if h == server then true else b) (kept h);
        starts = o.starts ∙ starts;
      } in
      bind-Ended rounds w w2 server _ a (keeps.bind w2 server)

  startup-Ended :
      (rounds : ℕ) (w : W) (r : Bool × W)
      → ((h : ℕ) → l.is_open r.1 h ≡ l.is_open w h)
      → l.starts r.1 ≡ (if r.0 then l.starts w + 1 else l.starts w)
      → Ended l w (after_startup sockets rounds r)
  unfolding after_startup
  startup-Ended rounds w (false, w1) kept starts = record { sockets = kept; starts = starts }
  startup-Ended rounds w (true, w1) kept starts =
      socket-Ended rounds w w1 _ kept starts (keeps.socket w1)

  -- Whichever call fails, and whatever the client does: when main of SingleThreadEcho has returned, after any
  -- number of rounds of its loop, the sockets that are open are those that were open before, and Winsock has been
  -- cleaned up as often as it was started.
  pub single_main-Ended : (rounds : ℕ) (w : W) → Ended l w (single_main sockets rounds w)
  unfolding single_main
  single_main-Ended rounds w =
      let (kept, starts) = keeps.startup w in startup-Ended rounds w (sockets.startup w) kept starts
