-- ===== src/Start.antt =====
-- src/ipfs_bindings/ipfs_node.go: `start_node` and the two exported functions that start the node;
-- `maybeRunGC` of ipfs_gc.go. What `printVersion`, `printSwarmAddrs` and `printPeers` log is left out.
pub mod Env
pub mod Stable
pub mod Once
pub mod Failed
pub mod Errors
pub mod Ready
use asio_ipfs.Base.{
  nil_pointer, ℕ, String, Bool, true, false, Option, none, some, Out, ret, throw, panicked, Go,
  Panic, Result, good, bad, ◌==◌, ◌>>=◌, ◌>>◌, pure, check, wrap, attempt, panic,
  already_registered, state_cb_missing, if◌then◌else◌,
}
use asio_ipfs.Codes.{
  Code, success, parse_config_fail, mprome_inject_failed, build_env_failed, create_repo_failed,
  open_repo_failed, read_config_failed, start_node_failed, plugins_failed, api_access_failed,
}
use asio_ipfs.Codes
use asio_ipfs.Config.{AsioConfig, Config, Handle}
use asio_ipfs.Config.Build.{make_build_cfg}
use asio_ipfs.World
use asio_ipfs.World.{Libraries, CommandContext}
use asio_ipfs.System.{
  execute, void_cb, System, Action, Fallible, Task, gets, update, load, store, spawn, execute,
  make_chan, deref, perform, void_cb,
}
use asio_ipfs.Lifecycle.{allocate_node}
use asio_ipfs.Repo.{init_repo, open_repo}
use asio_ipfs.Http.{maybe_serve_http_api, maybe_serve_http_gateway}
use Env.{build_env}

-- What ends in a code: a failed step of `start_node` returns its code.
abbrev pub Step : Type 0 → Type 0 → Type 0
Step W A = Go Code (System W) A

-- `if err != nil { return code }`
abbrev pub or_code : {W A : Type 0} → Code → Fallible W A → Step W A
or_code code m = wrap (λ _. code) m

-- The pointer that is assigned together with an error: nil if there is one.
abbrev pub to_option : {A : Type 0} → Result String A → Option A
to_option (good a) = some a
to_option (bad e) = none

-- A panic of a call that does not touch the state.
abbrev pub no_panic : {W A : Type 0} → Result Panic A → Step W A
no_panic (good a) = pure a
no_panic (bad p) = panic p

-- `maybeRunGC`
unfoldable pub maybe_run_gc : {W : Type 0} → ℕ → AsioConfig → Fallible W (Option ℕ)
maybe_run_gc n acfg =
    if acfg.run_gc
    then (do errc ← make_chan; spawn (Task.periodic_gc n errc); pure (some errc))
    else pure none

module _ {W : Type 0} (x : Libraries W) where
  unfoldable pub inject_metrics_once : Bool → Step W (Unit {0})
  inject_metrics_once true = pure tt
  inject_metrics_once false = do
    or_code mprome_inject_failed (perform x World.Op.inject_metrics >>= check)
    update (λ s. record s { mprome_injected = true })

  -- `if !g_mprome_injected { … }`
  unfoldable pub inject_metrics : Step W (Unit {0})
  inject_metrics = do injected ← gets (λ s. s.mprome_injected); inject_metrics_once injected

  -- `n.cctx, err = buildEnv(n, repoRoot)`
  unfoldable pub make_env : ℕ → String → Step W CommandContext
  make_env n repo_root = do
    r ← attempt (build_env x repo_root)
    store n (λ m. record m { cctx = to_option r })
    or_code build_env_failed (check r)

  unfoldable pub ensure_repo : String → AsioConfig → Bool → Step W (Unit {0})
  ensure_repo repo_root asiocfg true = pure tt
  ensure_repo repo_root asiocfg false = or_code create_repo_failed (init_repo x repo_root asiocfg)

  -- From the plugins to the repository's configuration, which the command context remembers.
  unfoldable pub prepare : ℕ → String → AsioConfig → Step W (Handle × Config)
  prepare n repo_root asiocfg = do
    cctx ← make_env n repo_root
    initialized ← perform x (World.Op.is_initialized cctx.config_root)
    ensure_repo cctx.config_root asiocfg initialized
    repo ← or_code open_repo_failed (open_repo x cctx.config_root asiocfg)
    cfg ← or_code read_config_failed (perform x (World.Op.repo_config repo) >>= check)
    store n (λ m. record m { cctx = some (record cctx { load_config = some (repo_root, cfg) }) })
    pure (repo, cfg)

  -- `n.node, err = core.NewNode(n.ctx, bcfg)`, `n.node.IsDaemon = true`, and the start of the
  -- plugins.
  unfoldable pub build_node : ℕ → Handle × Config → Step W Handle
  build_node n (repo, cfg) = do
    bcfg ← no_panic (make_build_cfg repo cfg.routing_type)
    node ← load n
    r ← perform x (World.Op.new_node node.ctx bcfg)
    store n (λ m. record m { node = to_option r })
    h ← or_code start_node_failed (check r)
    perform x (World.Op.set_is_daemon h)
    cctx ← deref node.cctx
    or_code plugins_failed (perform x (World.Op.start_plugins cctx.plugins h) >>= check)
    pure h

  -- The channels of the GC, the API server and the gateway; nil for what is disabled.
  abbrev pub Channels : Type 0
  Channels = Option ℕ × Option ℕ × Option ℕ

  unfoldable pub run_services : ℕ → AsioConfig → Step W Channels
  run_services n asiocfg = do
    gc ← or_code Codes.Code.gc_failed (maybe_run_gc n asiocfg)
    api ← or_code Codes.Code.api_failed (maybe_serve_http_api x n asiocfg)
    gateway ← or_code Codes.Code.gateway_failed (maybe_serve_http_gateway x n asiocfg)
    pure (gc, api, gateway)

  -- `prometheus.MustRegister` and `promauto` panic where the registry refuses.
  unfoldable pub must : Bool → Step W (Unit {0})
  must true = pure tt
  must false = panic already_registered

  unfoldable pub register_info : Bool → Step W (Unit {0})
  register_info true = pure tt
  register_info false = do
    ok ← perform x World.Op.register_info_metric
    must ok
    update (λ s. record s { mprome_metrics = true })

  -- The metrics and the API of the node `h`, by which its collector is known too.
  unfoldable pub publish_node : ℕ → Handle → Step W (Unit {0})
  publish_node n h = do
    registered ← gets (λ s. s.mprome_metrics)
    register_info registered
    store n (λ m. record m { collector = some h })
    ok ← perform x (World.Op.register_collector h)
    must ok
    r ← perform x (World.Op.new_core_api h)
    store n (λ m. record m { api = to_option r })
    or_code api_access_failed (check r) >>= λ _. pure tt

  unfoldable pub launch_monitor : ℕ → Channels → Step W (Unit {0})
  launch_monitor n (none, none, none) = pure tt
  launch_monitor n (gc, api, gateway) = spawn (Task.monitor n gc api gateway)

  -- The state callback is checked last, and the monitor is started if there is a channel.
  unfoldable pub finish_start : ℕ → Channels → Step W (Unit {0})
  finish_start n channels = do
    node ← load n
    if node.state_cb == 0 then panic state_cb_missing else launch_monitor n channels

  unfoldable pub start_steps : String → ℕ → String → Step W (Unit {0})
  start_steps jsoncfg n repo_root = do
    asiocfg ← or_code parse_config_fail (check (x.unmarshal jsoncfg))
    inject_metrics
    opened ← prepare n repo_root asiocfg
    h ← build_node n opened
    channels ← run_services n asiocfg
    publish_node n h
    finish_start n channels

  -- The code that a run of the steps returns.
  abbrev pub code_out : Out Code (System W) (Unit {0}) → Out ⊥ (System W) Code
  code_out (ret u s) = ret success s
  code_out (throw code s) = ret code s
  code_out (panicked p) = panicked p

  unfoldable pub start_node : String → ℕ → String → Action W Code
  start_node jsoncfg n repo_root s = code_out (start_steps jsoncfg n repo_root s)

  unfoldable pub start_allocated : String → String → Code → Option ℕ → Action W Code
  start_allocated cfg repo_root success (some n) = start_node cfg n repo_root
  start_allocated cfg repo_root success none = panic nil_pointer
  start_allocated cfg repo_root err g = pure err

  -- After a failed start nothing is freed: `_ = go_asio_ipfs_free` makes no call.
  unfoldable pub go_asio_ipfs_start_blocking : String → String → ℕ → ℕ → Action W Code
  go_asio_ipfs_start_blocking cfg repo_root state_cb state_cb_arg = do
    err ← allocate_node state_cb state_cb_arg
    g ← gets (λ s. s.g_node)
    start_allocated cfg repo_root err g

  unfoldable pub schedule_start : String → String → ℕ → ℕ → Code → Option ℕ → Action W (Unit {0})
  schedule_start cfg repo_root fn fn_arg success (some n) =
      spawn (Task.start n cfg repo_root fn fn_arg)
  schedule_start cfg repo_root fn fn_arg success none = panic nil_pointer
  schedule_start cfg repo_root fn fn_arg err g = spawn (Task.void_reply fn err fn_arg)

  -- The goroutine of `go_asio_ipfs_start_async`.
  unfoldable pub run_start : ℕ → String → String → ℕ → ℕ → Action W (Unit {0})
  run_start n cfg repo_root fn fn_arg = do
    err ← start_node cfg n repo_root
    execute (void_cb fn err fn_arg)

  unfoldable pub go_asio_ipfs_start_async : String → String → ℕ → ℕ → ℕ → ℕ → Action W (Unit {0})
  go_asio_ipfs_start_async cfg repo_root state_cb state_cb_arg fn fn_arg = do
    err ← allocate_node state_cb state_cb_arg
    g ← gets (λ s. s.g_node)
    schedule_start cfg repo_root fn fn_arg err g
