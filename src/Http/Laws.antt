-- ===== src/Http/Laws.antt =====
-- What a server has started when its function returns, and when it fails.
use asio_ipfs.Base.{
  ℕ, ◌≡◌, refl, false, Option, none, some, List, [], ◌∷◌, is_empty, Bytes, String, good, Out, throw,
  Ensures_of_Keeps, ◌>>=◌, pure, wrap, ret, panicked, index_range, inr, Ensures-bind,
  Ensures-weaken, Keeps, Keeps-bind, Keeps-check, Keeps-wrap, Ends, Ensures, Ensures-after,
  if◌then◌else◌, get_elem?,
}
use asio_ipfs.Config.{AsioConfig, Config, Handle}
use asio_ipfs.World
use asio_ipfs.World.{Call, IsMade, Libraries, CommandContext, Op, Reply}
use asio_ipfs.System.{System, Fallible, Node, ServeOption, load, perform}
use asio_ipfs.System.Stable.{Allows, Keeps-load, Keeps-deref, Keeps-perform}
use asio_ipfs.Http.{
  Messages, serve_all, first, listen_all, config_of, serve_api, maybe_serve_http_api, serve_gateway,
  maybe_serve_http_gateway,
}
use asio_ipfs.Http.Stable.{Keeps-first}
use asio_ipfs.Start.Env.Stable.{Keeps-construct_node}
use asio_ipfs.Http.Listeners.{
  IsQuiet, IsServing, IsQuiet-Allows, Ensures-serve_all, IsListening, IsListening-later,
  IsConfigured, Ensures-config_of, Ensures-listen_all,
}

module _ {W : Type 0} (x : Libraries W) where
  module _ (s : System W) where
    -- Quiet so far, with the configuration that was answered.
    abbrev IsRead : CommandContext → Config → System W → Type 0
    IsRead cctx cfg t = IsQuiet s t × IsMade (World.Op.get_config cctx) (good cfg) t.trace

    IsRead-Allows : (cctx : CommandContext) (cfg : Config) → Allows (IsRead cctx cfg)
    IsRead-Allows cctx cfg t op r w plain (q, k) = (q, inr k)

    -- Quiet so far, with all listeners.
    abbrev IsOpen : List Bytes → List Handle → CommandContext → Config → System W → Type 0
    IsOpen addrs ls cctx cfg t = IsRead cctx cfg t × IsListening x addrs ls t.trace

    IsOpen-Allows :
        (addrs : List Bytes) (ls : List Handle) (cctx : CommandContext) (cfg : Config)
        → Allows (IsOpen addrs ls cctx cfg)
    IsOpen-Allows addrs ls cctx cfg t op r w plain ((q, k), h) =
        ((q, inr k), IsListening-later x addrs ls (op, r) t.trace h)

    -- What a server has that returns: its configuration, its listeners, its channel and goroutines.
    abbrev pub IsUp : (Config → List Bytes) → Option ℕ → System W → Type 0
    IsUp addresses r t =
        (ls : List Handle) × IsConfigured x addresses ls t.trace × IsServing s ls r t

    served_lem :
        (addresses : Config → List Bytes) (node : Handle) (opts : List ServeOption)
        (ls : List Handle) (cctx : CommandContext) (cfg : Config)
        → Ensures
            (IsOpen (addresses cfg) ls cctx cfg)
            (serve_all node opts ls)
            (IsUp addresses)
            (IsQuiet s)
    served_lem addresses node opts ls cctx cfg = record {
      at = λ t ((q, k), h). up_out _ (
          (Ensures-serve_all s (IsConfigured x addresses ls) node opts ls).at t
            (q, (cctx, cfg, k, h)));
    }
      where
        up_out :
            (o : Out String (System W) (Option ℕ))
            → Ends (λ r t. IsConfigured x addresses ls t.trace × IsServing s ls r t) (IsQuiet s) o
            → Ends (IsUp addresses) (IsQuiet s) o
        up_out (ret r t) h = (ls, h.0, h.1)
        up_out (throw e t) h = h
        up_out (panicked p) h = tt

    -- A part that keeps what is known so far.
    Ensures-IsQuiet :
        {A : Type 0} {P : System W → Type 0} {m : Fallible W A}
        → ((t : System W) → P t → IsQuiet s t)
        → Keeps P m
        → Ensures P m (λ a. P) (IsQuiet s)
    Ensures-IsQuiet {P} quiet h = Ensures-weaken P quiet (Ensures_of_Keeps h)

    Ensures-opened :
        (m : Messages) (addrs : List Bytes) (cctx : CommandContext) (cfg : Config)
        → Ensures
            (IsRead cctx cfg)
            (listen_all x m addrs)
            (λ ls. IsOpen addrs ls cctx cfg)
            (IsQuiet s)
    Ensures-opened m addrs cctx cfg =
        Ensures-weaken (IsRead cctx cfg) (λ t q. q.0)
          (Ensures-listen_all x m addrs (IsRead cctx cfg) (IsRead-Allows cctx cfg))

    Ensures-serve_api :
        (n : ℕ) → Ensures (IsQuiet s) (serve_api x n) (IsUp (λ cfg. cfg.api)) (IsQuiet s)
    unfolding serve_api ◌>>=◌
    Ensures-serve_api n = Ensures-after (Keeps-load n) λ node.
        Ensures-after (Keeps-deref node.cctx) λ cctx.
          Ensures-bind (IsRead cctx) (Ensures-config_of x _ (IsQuiet s) cctx (IsQuiet-Allows s))
            λ cfg.
              Ensures-bind (λ ls. IsOpen cfg.api ls cctx cfg) (Ensures-opened _ cfg.api cctx cfg)
                λ ls.
                  let allows = IsOpen-Allows cfg.api ls cctx cfg in
                  Ensures-bind (λ h. IsOpen cfg.api ls cctx cfg)
                    (Ensures-IsQuiet (λ t q. q.0.0) (Keeps-deref node.node))
                    λ ipfs_node.
                      Ensures-bind (λ h. IsOpen cfg.api ls cctx cfg)
                        (Ensures-IsQuiet (λ t q. q.0.0) (Keeps-first x allows ls))
                        λ lis.
                          Ensures-bind (λ u. IsOpen cfg.api ls cctx cfg)
                            (Ensures-IsQuiet (λ t q. q.0.0)
                              (Keeps-wrap _
                                (Keeps-bind (Keeps-perform allows x _ refl) Keeps-check)))
                            λ u. served_lem (λ c. c.api) ipfs_node _ ls cctx cfg

    Ensures-serve_gateway :
        (n : ℕ) → Ensures (IsQuiet s) (serve_gateway x n) (IsUp (λ cfg. cfg.gateway)) (IsQuiet s)
    unfolding serve_gateway ◌>>=◌
    Ensures-serve_gateway n = Ensures-after (Keeps-load n) λ node.
        Ensures-after (Keeps-deref node.cctx) λ cctx.
          Ensures-bind (IsRead cctx) (Ensures-config_of x _ (IsQuiet s) cctx (IsQuiet-Allows s))
            λ cfg.
              Ensures-bind (λ ls. IsOpen cfg.gateway ls cctx cfg)
                (Ensures-opened _ cfg.gateway cctx cfg)
                λ ls.
                  Ensures-bind (λ h. IsOpen cfg.gateway ls cctx cfg)
                    (Ensures-IsQuiet (λ t q. q.0.0) (Keeps-wrap _ (Keeps-construct_node n)))
                    λ ipfs_node. served_lem (λ c. c.gateway) ipfs_node _ ls cctx cfg

  -- What a server owes that is configured with addresses, or without.
  abbrev pub IsServed : Bytes → (Config → List Bytes) → System W → Option ℕ → System W → Type 0
  IsServed [] addresses s r t = (r ≡ none) × (t ≡ s)
  IsServed (a ∷ addrs) addresses s r t = IsUp s addresses r t

  IsServed-if :
      (addrs : Bytes) (addresses : Config → List Bytes) (s : System W) (m : Fallible W (Option ℕ))
      → Ensures (IsQuiet s) m (IsUp s addresses) (IsQuiet s)
      → Ends (IsServed addrs addresses s) (IsQuiet s) ((if is_empty addrs then pure none else m) s)
  IsServed-if [] addresses s m h = (refl, refl)
  IsServed-if (a ∷ addrs) addresses s m h = h.at s (refl, refl)

  -- The API server and the gateway alike: without an address in the caller's configuration the
  -- function returns no channel and changes nothing. Otherwise, if it returns, go-ipfs has answered
  -- with a configuration, each address that this lists for the server, in order, was parsed and
  -- listened at, one new channel was made, which is returned, and one goroutine was started for
  -- each listener and one that closes the channel, and no other. If it fails, it has made no
  -- channel and started no goroutine.
  pub servers_serve :
      (s : System W) (n : ℕ) (acfg : AsioConfig)
      → Ends
          (IsServed acfg.api_address (λ cfg. cfg.api) s)
          (IsQuiet s)
          (maybe_serve_http_api x n acfg s)
        × Ends
            (IsServed acfg.gateway_address (λ cfg. cfg.gateway) s)
            (IsQuiet s)
            (maybe_serve_http_gateway x n acfg s)
  unfolding maybe_serve_http_api maybe_serve_http_gateway
  servers_serve s n acfg = (
    IsServed-if acfg.api_address (λ cfg. cfg.api) s (serve_api x n) (Ensures-serve_api s n),
    IsServed-if acfg.gateway_address (λ cfg. cfg.gateway) s (serve_gateway x n)
        (Ensures-serve_gateway s n),
  )

  -- The API server panics when the repository's configuration lists no address for it, although the
  -- caller's does: the first listener is read and there is none. The node and its command context
  -- are set, and the configuration is the one that go-ipfs answers.
  pub serve_api_no_address :
      (s : System W) (n : ℕ) (acfg : AsioConfig) (node : Node) (cctx : CommandContext) (h : Handle)
      (cfg : Config)
      → is_empty acfg.api_address ≡ false
      → get_elem? s.heap n ≡ some node
      → node.cctx ≡ some cctx
      → node.node ≡ some h
      → (x.answer (World.Op.get_config cctx) s.world).0 ≡ good cfg
      → cfg.api ≡ []
      → maybe_serve_http_api x n acfg s ≡ panicked index_range
  unfolding maybe_serve_http_api serve_api load config_of perform listen_all first wrap ◌>>=◌
  serve_api_no_address s n acfg node cctx h cfg empty loaded context built answered none_listed =
      rw empty (rw loaded (rw context (rw answered (rw none_listed (rw built (refl))))))
