-- ===== src/Http/Listeners.antt =====
-- The goroutines of a server, and its listeners.
use asio_ipfs.Base.{
  ℕ, ◌+◌, ◌≡◌, refl, ap, ◌∙◌, Option, some, List, [], ◌∷◌, ◌++◌, map, length, Bytes, String, Result,
  good, bad, check, ◌>>=◌, wrap, ret, inl, inr, wrap_out, Ensures-bind, Ensures-weaken, Ends,
  Ensures,
}
use mathlib.Core.List.{append-nil, append_assoc}
use asio_ipfs.Config.Ports.{Component}
use asio_ipfs.Config.{Config, Handle}
use asio_ipfs.World
use asio_ipfs.World.{Call, IsMade, Libraries, CommandContext, Op, Reply}
use asio_ipfs.System.{System, ServeOption, Task, spawn, make_chan, perform}
use asio_ipfs.System.Stable.{Allows}
use asio_ipfs.Start.Env.{prefixed}
use asio_ipfs.Http.{Messages, spawn_servers, serve_all, listen_all, config_of}

-- A goroutine for each listener, and the one that closes the channel after them.
abbrev pub servers : ℕ → Handle → List ServeOption → List Handle → List Task
servers errc node opts ls =
    map (λ lis. Task.serve errc node lis opts) ls ++ (Task.close_when_served errc (length ls) ∷ [])

module _ {W : Type 0} where
  -- No goroutine was started and no channel made.
  abbrev pub IsQuiet : System W → System W → Type 0
  IsQuiet s t = (t.tasks ≡ s.tasks) × (t.next_chan ≡ s.next_chan)

  -- The server reports on a new channel, and its goroutines are the only ones that were started.
  abbrev pub IsServing : System W → List Handle → Option ℕ → System W → Type 0
  IsServing s ls r t =
      (node : Handle) × (opts : List ServeOption) × (r ≡ some s.next_chan)
      × (t.next_chan ≡ s.next_chan + 1)
      × (t.tasks ≡ s.tasks ++ servers s.next_chan node opts ls)

  pub IsQuiet-Allows : (s : System W) → Allows (IsQuiet s)
  IsQuiet-Allows s t op r w plain h = h

  spawn_servers_lem :
      (errc : ℕ) (node : Handle) (opts : List ServeOption) (ls : List Handle) (s : System W)
      → spawn_servers errc node opts ls s
        ≡ ret tt (record s { tasks = s.tasks ++ map (λ lis. Task.serve errc node lis opts) ls })
  unfolding spawn_servers spawn ◌>>=◌
  spawn_servers_lem errc node opts [] s = rw (append-nil s.tasks) (refl)
  spawn_servers_lem errc node opts (l ∷ ls) s =
      spawn_servers_lem errc node opts ls _
      ∙ rw
          (append_assoc s.tasks (Task.serve errc node l opts ∷ [])
            (map (λ lis. Task.serve errc node lis opts) ls))
          (refl)

  pub Ensures-serve_all :
      (s : System W) (P : List Call → Type 0) (node : Handle) (opts : List ServeOption)
      (ls : List Handle)
      → Ensures
          (λ t. IsQuiet s t × P t.trace)
          (serve_all node opts ls)
          (λ r t. P t.trace × IsServing s ls r t)
          (IsQuiet s)
  unfolding serve_all make_chan spawn ◌>>=◌
  Ensures-serve_all s P node opts ls = record {
    at = λ t (h, p).
        rw (spawn_servers_lem t.next_chan node opts ls (record t { next_chan = t.next_chan + 1 })) (
          (
            p,
            (
              node,
              opts,
              ap some h.1,
              ap (λ c. c + 1) h.1,
              append_assoc t.tasks _ _ ∙ (rw h.0 (rw h.1 (refl))),
            ),
          ));
  }

module _ {W : Type 0} (x : Libraries W) where
  -- The listeners are those that the addresses, in order, were parsed and listened at for.
  abbrev pub IsListening : List Bytes → List Handle → List Call → Type 0
  IsListening [] [] t = Unit
  IsListening [] (l ∷ ls) t = ⊥
  IsListening (a ∷ addrs) [] t = ⊥
  IsListening (a ∷ addrs) (l ∷ ls) t =
      ((maddr : List Component) × (x.parsers.new_multiaddr a ≡ good maddr)
        × IsMade (World.Op.listen maddr) (good l) t)
      × IsListening addrs ls t

  pub IsListening-later :
      (addrs : List Bytes) (ls : List Handle) (c : Call) (t : List Call)
      → IsListening addrs ls t
      → IsListening addrs ls (c ∷ t)
  IsListening-later [] [] c t h = tt
  IsListening-later [] (l ∷ ls) c t h = h
  IsListening-later (a ∷ addrs) [] c t h = h
  IsListening-later (a ∷ addrs) (l ∷ ls) c t ((maddr, e, k), h) =
      ((maddr, e, inr k), IsListening-later addrs ls c t h)

  -- The server's configuration is the one that go-ipfs answered, and it listens at its addresses.
  abbrev pub IsConfigured : (Config → List Bytes) → List Handle → List Call → Type 0
  IsConfigured addresses ls t =
      (cctx : CommandContext) × (cfg : Config) × IsMade (World.Op.get_config cctx) (good cfg) t
      × IsListening (addresses cfg) ls t

  answered_lem :
      {A : Type 0} (f : String → String) (P : System W → Type 0)
      (K : Result String A → System W → Type 0) (t : System W) (r : Result String A)
      → P t
      → K r t
      → Ends (λ a u. P u × K (good a) u) P (wrap_out f (check r t))
  answered_lem f P K t (good a) p k = (p, k)
  answered_lem f P K t (bad e) p k = p

  Ensures-listen :
      (f : String → String) (P : System W → Type 0) (maddr : List Component)
      → Allows P
      → Ensures P
          (wrap f (perform x (World.Op.listen maddr) >>= check))
          (λ l t. P t × IsMade (World.Op.listen maddr) (good l) t.trace)
          P
  unfolding wrap perform ◌>>=◌
  Ensures-listen f P maddr allows = record {
    at = λ s p.
        answered_lem f P (λ r u. IsMade (World.Op.listen maddr) r u.trace) _ _
          (allows s (World.Op.listen maddr) _ _ refl p) (inl refl);
  }

  pub Ensures-config_of :
      (what : String) (P : System W → Type 0) (cctx : CommandContext)
      → Allows P
      → Ensures P
          (config_of x what cctx)
          (λ cfg t. P t × IsMade (World.Op.get_config cctx) (good cfg) t.trace)
          P
  unfolding config_of wrap perform ◌>>=◌
  Ensures-config_of what P cctx allows = record {
    at = λ s p.
        answered_lem (prefixed what) P (λ r u. IsMade (World.Op.get_config cctx) r u.trace) _ _
          (allows s (World.Op.get_config cctx) _ _ refl p) (inl refl);
  }

  Ensures-parse :
      (f : String → String) (P : System W → Type 0) (a : Bytes) (r : Result String (List Component))
      → x.parsers.new_multiaddr a ≡ r
      → Ensures P (wrap f (check r)) (λ maddr t. P t × (x.parsers.new_multiaddr a ≡ good maddr)) P
  unfolding wrap
  Ensures-parse f P a r e = record {
    at = λ s p. answered_lem f P (λ r u. x.parsers.new_multiaddr a ≡ r) s r p e;
  }

  abbrev IsParsed : (System W → Type 0) → Bytes → List Component → System W → Type 0
  IsParsed P a maddr t = P t × (x.parsers.new_multiaddr a ≡ good maddr)

  abbrev IsHeard : (System W → Type 0) → Bytes → List Component → Handle → System W → Type 0
  IsHeard P a maddr l t = IsParsed P a maddr t × IsMade (World.Op.listen maddr) (good l) t.trace

  pub Ensures-listen_all :
      (m : Messages) (addrs : List Bytes) (P : System W → Type 0)
      → Allows P
      → Ensures P (listen_all x m addrs) (λ ls t. P t × IsListening addrs ls t.trace) P
  unfolding listen_all ◌>>=◌
  Ensures-listen_all m [] P allows = record { at = λ s p. (p, tt) }
  Ensures-listen_all m (a ∷ addrs) P allows =
      Ensures-bind (IsParsed P a) (Ensures-parse _ P a (x.parsers.new_multiaddr a) refl) λ maddr.
        Ensures-weaken (IsParsed P a maddr) (λ t q. q.0)
          (Ensures-bind (IsHeard P a maddr)
            (Ensures-listen _ (IsParsed P a maddr) maddr
              λ t op r w plain q. (allows t op r w plain q.0, q.1))
            λ l.
              Ensures-weaken (IsHeard P a maddr l) (λ t r. r.0)
                (Ensures-bind (λ ls t. IsHeard P a maddr l t × IsListening addrs ls t.trace)
                  (Ensures-listen_all m addrs (IsHeard P a maddr l)
                    λ t op r w plain ((p, e), k). ((allows t op r w plain p, e), inr k))
                  λ ls. record { at = λ t (((p, e), k), h). (p, ((maddr, e, k), h)) }))
