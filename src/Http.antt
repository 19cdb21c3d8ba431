-- ===== src/Http.antt =====
-- src/ipfs_bindings/ipfs_api.go: the API server and the gateway.
pub mod Stable
pub mod Listeners
pub mod Laws
use asio_ipfs.Base.{
  ℕ, String, ◌<>◌, str_eq, true, false, Option, none, some, List, [], ◌∷◌, ◌++◌, Bytes, length,
  is_empty, ◌>>=◌, ◌>>◌, pure, check, wrap, panic, index_range, if◌then◌else◌,
}
use asio_ipfs.Config.{AsioConfig, Config, Handle}
use asio_ipfs.World
use asio_ipfs.World.{Libraries, CommandContext}
use asio_ipfs.System.{
  Fallible, ServeOption, Task, load, deref, spawn, make_chan, perform, metrics_collection,
  default_mux, mutex_fraction, metrics_scraping, open_census, check_version, version_option,
  log_option, hostname, p2p_proxy, commands, commands_ro, gateway_option, redirect,
}
use asio_ipfs.Start.Env.{prefixed, construct_node}

-- What the two servers say of an address that cannot be used.
pub record Messages : Type 0 where
  pub invalid : String
  pub not_listening : String

abbrev pub api_messages : Messages
api_messages = record {
  invalid = "maybeServeHTTPApi: invalid API address: ";
  not_listening = "serveHTTPApi: manet.Listen(";
}

abbrev pub gateway_messages : Messages
gateway_messages = record {
  invalid = "maybeServeHTTPGateway: invalid gateway address: ";
  not_listening = "maybeServeHTTPGateway: manet.Listen(";
}

-- `if len(cfg.Gateway.RootRedirect) > 0 { … }`
abbrev redirect_option : Config → List ServeOption
redirect_option cfg = if str_eq cfg.root_redirect "" then [] else redirect "" cfg.root_redirect ∷ []

unfoldable pub gateway_options : CommandContext → Config → List ServeOption
gateway_options cmdctx cfg =
    (metrics_collection "gateway"
      ∷ hostname
      ∷ gateway_option cfg.writable ("/ipfs" ∷ "/ipns" ∷ [])
      ∷ version_option
      ∷ check_version
      ∷ commands_ro cmdctx
      ∷ [])
    ++ ((if cfg.p2p_http_proxy then p2p_proxy ∷ [] else []) ++ redirect_option cfg)

module _ {W : Type 0} where
  -- The loop that starts a goroutine for each listener.
  unfoldable pub spawn_servers : ℕ → Handle → List ServeOption → List Handle → Fallible W (Unit {0})
  spawn_servers errc node opts [] = pure tt
  spawn_servers errc node opts (lis ∷ listeners) = do
    spawn (Task.serve errc node lis opts)
    spawn_servers errc node opts listeners

  -- The channel, the servers, and the goroutine that waits for all of them and closes the channel.
  -- The servers of the API read `n.node` when they start; it is set once, before.
  unfoldable pub serve_all : Handle → List ServeOption → List Handle → Fallible W (Option ℕ)
  serve_all node opts listeners = do
    errc ← make_chan
    spawn_servers errc node opts listeners
    spawn (Task.close_when_served errc (length listeners))
    pure (some errc)

  -- `listeners[0]`
  unfoldable pub first : List Handle → Fallible W Handle
  first [] = panic index_range
  first (lis ∷ listeners) = pure lis

module _ {W : Type 0} (x : Libraries W) where
  unfoldable pub api_options : CommandContext → Config → List ServeOption
  api_options cctx cfg =
      (metrics_collection "api"
        ∷ open_census
        ∷ check_version
        ∷ commands cctx
        ∷ gateway_option false x.web_ui_paths
        ∷ version_option
        ∷ default_mux "/debug/vars"
        ∷ default_mux "/debug/pprof/"
        ∷ mutex_fraction "/debug/pprof-mutex/"
        ∷ metrics_scraping "/debug/metrics/prometheus"
        ∷ log_option
        ∷ [])
      ++ redirect_option cfg

  -- The loop over the addresses of a server. A failure leaves the listeners before it open.
  unfoldable pub listen_all : Messages → List Bytes → Fallible W (List Handle)
  listen_all m [] = pure []
  listen_all m (addr ∷ addrs) = do
    maddr ←
        wrap (λ e. m.invalid <> (x.show_addr addr <> (" (err: " <> (e <> ")"))))
          (check (x.parsers.new_multiaddr addr))
    lis ←
        wrap (λ e. m.not_listening <> (x.show_multiaddr maddr <> (") failed: " <> e)))
          (perform x (World.Op.listen maddr) >>= check)
    listeners ← listen_all m addrs
    pure (lis ∷ listeners)

  -- `n.cctx.GetConfig()`
  unfoldable pub config_of : String → CommandContext → Fallible W Config
  config_of what cctx = wrap (prefixed what) (perform x (World.Op.get_config cctx) >>= check)

  unfoldable pub serve_api : ℕ → Fallible W (Option ℕ)
  serve_api n = do
    node ← load n
    cctx ← deref node.cctx
    cfg ← config_of "maybeServeHTTPApi: GetConfig() failed: " cctx
    listeners ← listen_all api_messages cfg.api
    ipfs_node ← deref node.node
    lis ← first listeners
    wrap (prefixed "serveHTTPApi: SetAPIAddr() failed: ")
        (perform x (World.Op.set_api_addr ipfs_node lis) >>= check)
    serve_all ipfs_node (api_options cctx cfg) listeners

  -- With no address in the caller's configuration there is no server, and its channel is nil.
  unfoldable pub maybe_serve_http_api : ℕ → AsioConfig → Fallible W (Option ℕ)
  maybe_serve_http_api n acfg = if is_empty acfg.api_address then pure none else serve_api n

  unfoldable pub serve_gateway : ℕ → Fallible W (Option ℕ)
  serve_gateway n = do
    node ← load n
    cctx ← deref node.cctx
    cfg ← config_of "maybeServeHTTPGateway: GetConfig() failed: " cctx
    listeners ← listen_all gateway_messages cfg.gateway
    ipfs_node ← wrap (prefixed "maybeServeHTTPGateway: ConstructNode() failed: ") (construct_node n)
    serve_all ipfs_node (gateway_options (record cctx { gateway = true }) cfg) listeners

  unfoldable pub maybe_serve_http_gateway : ℕ → AsioConfig → Fallible W (Option ℕ)
  maybe_serve_http_gateway n acfg =
      if is_empty acfg.gateway_address then pure none else serve_gateway n
