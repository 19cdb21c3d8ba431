-- ===== src/World.antt =====
-- What the bindings ask of the libraries and of the operating system: each call is an `Op`, with
-- the type of its answer. How it is answered is a parameter of the whole model.
use asio_ipfs.Base.{[], ◌∷◌, ◌≡◌, ◌⊎◌, ℕ, ℤ, String, Bool, Option, List, Bytes, Result}
use asio_ipfs.Config.{AsioConfig, Config, Parsers, Handle}
use asio_ipfs.Config.Build.{BuildCfg}
use asio_ipfs.Config.Ports.{Component}

-- A `context.Context`: the marks of the `WithCancel` calls that made it, its own first. It is done
-- once one of them is cancelled. `context.Background()` has none.
abbrev pub Context : Type 0
Context = List ℕ

-- What `errors.Is`, `os.IsNotExist` and `os.IsPermission` tell apart.
pub data IoKind : Type 0 where
  not_exist permission_denied other_kind : IoKind

pub record IoError : Type 0 where
  pub kind : IoKind
  pub message : String

-- What the switch on the type of `Unixfs().Get` tells apart.
pub data FileNode : Type 0 where
  file : Handle → FileNode
  directory other_node : FileNode

-- The fields of `oldcmds.Context` that are set here. `load_config` holds what the closure of
-- `start_node` captures, the repository's path and its configuration.
pub record CommandContext : Type 0 where
  pub config_root : String
  pub load_config : Option (String × Config)
  pub plugins : Handle
  pub gateway : Bool

-- `options.Unixfs.HashOnly(true)` and `options.Unixfs.Pin(b)`.
pub data AddOption : Type 0 where
  hash_only : AddOption
  pin : Bool → AddOption

pub data Op : Type 0 where
  -- os
  stat create remove : String → Op
  mkdir : String → ℕ → Op
  write_string : Handle → String → Op
  close_file : Handle → Op
  -- metrics
  inject_metrics register_info_metric : Op
  register_collector unregister_collector peers_total_values : Handle → Op
  -- plugins
  new_plugin_loader : String → Op
  initialize_plugins inject_plugins close_plugins : Handle → Op
  set_plugin_state : Handle → ℕ → Op
  start_plugins : Handle → Handle → Op
  -- configuration and repository
  create_identity : Op
  init_with_identity : Handle → Op
  transform : String → Config → Op
  is_initialized open_repo : String → Op
  init_repo : String → Config → Op
  repo_config : Handle → Op
  clone_config : Config → Op
  set_config : Handle → Config → Op
  -- the node, its interfaces and its servers
  new_node : Context → BuildCfg → Op
  close_node new_core_api format_identity set_is_daemon : Handle → Op
  key_encoder_from_string : String → Op
  get_config : CommandContext → Op
  listen : List Component → Op
  set_api_addr : Handle → Handle → Op
  -- requests: the flag says whether the context is done when the call is made
  unixfs_add : Handle → Context → Bool → Bytes → AddOption → Op
  unixfs_get pin_add pin_rm : Handle → Context → Bool → String → Op
  read_all : Handle → Op
  now_plus : ℤ → Op
  publish_with_eol : Handle → Context → Bool → String → Handle → Op
  collect_garbage : Handle → Context → Bool → Op

abbrev pub Reply : Op → Type 0
Reply (stat _) = Option IoError
Reply (create _) = Result IoError Handle
Reply (remove _) = Result IoError (Unit {0})
Reply (mkdir _ _) = Result IoError (Unit {0})
Reply (write_string _ _) = Result IoError (Unit {0})
Reply (close_file _) = Unit {0}
Reply inject_metrics = Result String (Unit {0})
Reply register_info_metric = Bool
Reply (register_collector _) = Bool
Reply (unregister_collector _) = Unit {0}
Reply (peers_total_values _) = List ℕ
Reply (new_plugin_loader _) = Result String Handle
Reply (initialize_plugins _) = Result String (Unit {0})
Reply (inject_plugins _) = Result String (Unit {0})
Reply (close_plugins _) = Result String (Unit {0})
Reply (set_plugin_state _ _) = Unit {0}
Reply (start_plugins _ _) = Result String (Unit {0})
Reply create_identity = Result String Handle
Reply (init_with_identity _) = Result String Config
Reply (transform _ _) = Result String Config
Reply (is_initialized _) = Bool
Reply (open_repo _) = Result String Handle
Reply (init_repo _ _) = Result String (Unit {0})
Reply (repo_config _) = Result String Config
Reply (clone_config _) = Result String Config
Reply (set_config _ _) = Result String (Unit {0})
Reply (new_node _ _) = Result String Handle
Reply (close_node _) = Unit {0}
Reply (set_is_daemon _) = Unit {0}
Reply (new_core_api _) = Result String Handle
Reply (format_identity _) = String
Reply (key_encoder_from_string _) = Result String Handle
Reply (get_config _) = Result String Config
Reply (listen _) = Result String Handle
Reply (set_api_addr _ _) = Result String (Unit {0})
Reply (unixfs_add _ _ _ _ _) = Result String Bytes
Reply (unixfs_get _ _ _ _) = Result String FileNode
Reply (pin_add _ _ _ _) = Result String (Unit {0})
Reply (pin_rm _ _ _ _) = Result String (Unit {0})
Reply (read_all _) = Result String Bytes
Reply (now_plus _) = Handle
Reply (publish_with_eol _ _ _ _ _) = Result String (Unit {0})
Reply (collect_garbage _ _ _) = Result String (Unit {0})

-- A call that was made, with its answer.
abbrev pub Call : Type 0
Call = (op : Op) × Reply op

-- The call was made and had this answer.
abbrev pub IsMade : (op : Op) → Reply op → List Call → Type 0
IsMade op r [] = ⊥
IsMade op r (c ∷ t) = (◌≡◌ {A = Call} c (op, r)) ⊎ IsMade op r t

-- The libraries over a state `W` of the world, and the functions of theirs that have no effect.
-- `prom.MustRegister` panics where `register_collector` answers `false`, and so does `promauto`.
pub record Libraries (W : Type 0) : Type 0 where
  pub parsers : Parsers
  pub unmarshal : String → Result String AsioConfig
  pub clean : String → String
  pub join : String → String → String
  pub has_profile : String → Bool
  pub parse_cid_to_path : String → Result String String
  pub new_path : String → String
  pub show_addr : Bytes → String
  pub show_multiaddr : List Component → String
  pub web_ui_paths : List String
  pub answer : (op : Op) → W → Reply op × W
