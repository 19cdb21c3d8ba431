-- ===== src/Start/Env.antt =====
-- src/ipfs_bindings/ipfs_node.go: `loadPlugins`, `buildEnv` and the closures that the command
-- context holds.
pub mod Stable
use asio_ipfs.Base.{
  ℕ, String, ◌<>◌, str_eq, Bool, true, false, Option, none, some, ◌>>=◌, ◌>>◌, pure, fail, check,
  wrap, panic, nil_pointer, load_config_path, if◌then◌else◌,
}
use asio_ipfs.Config.{Config, Handle}
use asio_ipfs.World
use asio_ipfs.World.{Libraries, CommandContext}
use asio_ipfs.System.{Action, Fallible, gets, update, load, perform}

-- `fmt.Errorf("…: %s", err)`
abbrev pub prefixed : String → String → String
prefixed what e = what <> e

module _ {W : Type 0} (x : Libraries W) where
  -- Plugins can be injected once in a process. Later loaders are told that they were:
  -- 4 is the state `loaderInjected`.
  unfoldable pub inject_once : Bool → Handle → Fallible W (Unit {0})
  inject_once false plugins = do
    wrap (prefixed "error initializing plugins: ")
        (perform x (World.Op.inject_plugins plugins) >>= check)
    update (λ s. record s { plugins_injected = true })
  inject_once true plugins = perform x (World.Op.set_plugin_state plugins 4)

  -- `if !g_plugins_injected { … } else { … }`
  unfoldable pub inject_plugins : Handle → Fallible W (Unit {0})
  inject_plugins plugins = do
    injected ← gets (λ s. s.plugins_injected)
    inject_once injected plugins

  unfoldable pub load_plugins : String → Fallible W Handle
  load_plugins repo_path = do
    plugins ←
        wrap (prefixed "error loading plugins: ")
          (perform x (World.Op.new_plugin_loader repo_path) >>= check)
    wrap (prefixed "error initializing plugins: ")
        (perform x (World.Op.initialize_plugins plugins) >>= check)
    inject_plugins plugins
    pure plugins

  unfoldable pub build_env : String → Fallible W CommandContext
  build_env repo_root = do
    plugins ← load_plugins repo_root
    pure
        (record { config_root = repo_root; load_config = none; plugins = plugins; gateway = false })

module _ {W : Type 0} where
  unfoldable pub construct : Option Handle → Fallible W Handle
  construct none = fail "unexpected ConstructNode, n.node is still nil"
  construct (some h) = pure h

  -- `n.cctx.ConstructNode()`
  unfoldable pub construct_node : ℕ → Fallible W Handle
  construct_node n = do node ← load n; construct node.node

  -- `n.cctx.LoadConfig(path)`, which go-ipfs calls: first nil, then the closure of `start_node`.
  unfoldable pub load_config : Option (String × Config) → String → Action W Config
  load_config none path = panic nil_pointer
  load_config (some (repo_root, cfg)) path =
      if str_eq path repo_root then pure cfg else panic load_config_path
