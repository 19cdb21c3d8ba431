-- ===== src/Examples.antt =====
-- The theorems at concrete data: a process with one started node, and libraries that count their
-- calls and answer as if all went well.
pub mod Starts
pub mod Answers
pub mod Monitors
pub mod Repos
pub mod Addresses
use asio_ipfs.Base.{
  routing_option, ℕ, zero, suc, Option, ◌+◌, ◌<◌, ◌≡◌, refl, ◌≢◌, pos, true, false, none, some,
  List, [], ◌∷◌, arith, good, bad, ret, panicked, log_cb_nil, Returns, get_elem?, All, contains,
}
use asio_ipfs.Codes.{gc_failed, success, no_node, node_exists}
use asio_ipfs.Config.{
  AsioConfig, Config, Parsers, flag_default, service_unset, unthrottled, update_config,
}
use asio_ipfs.Config.Build.{BuildCfg, Routing, make_build_cfg, dht_client}
use asio_ipfs.Config.Build.Laws.{IsRouting, build_cfg, make_build_cfg_lem}
use asio_ipfs.Config.Ports.Laws.{IfGood}
use asio_ipfs.Config.Laws.{IsUpdated, update_config_good}
use asio_ipfs.World.{Op, Reply, Libraries, Context, file}
use asio_ipfs.System.{System, Node, initial, is_done}
use asio_ipfs.Cancel.{go_asio_ipfs_cancel}
use asio_ipfs.Cancel.Uses.{Use, start_and_use, cancel-with_cancel}
use asio_ipfs.Cancel.Allocation.{allocate_many, AllDistinct, allocate_many-AllDistinct}
use asio_ipfs.Lifecycle.{allocate_node, go_asio_ipfs_free}
use asio_ipfs.Lifecycle.Laws.{IsLinked, go_asio_ipfs_free_lem}
use asio_ipfs.Log.{Logger, LogState, stderr, go_asio_ipfs_redirect_logs, write}
use asio_ipfs.Log.Laws.{redirect_logs-write, redirect_logs_nil_panics}

abbrev answers : (op : Op) → ℕ → Reply op × ℕ
answers (Op.stat _) w = (none, w + 1)
answers (Op.create _) w = (good 5, w + 1)
answers (Op.remove _) w = (good tt, w + 1)
answers (Op.mkdir _ _) w = (good tt, w + 1)
answers (Op.write_string _ _) w = (good tt, w + 1)
answers (Op.close_file _) w = (tt, w + 1)
answers Op.inject_metrics w = (good tt, w + 1)
answers Op.register_info_metric w = (true, w + 1)
answers (Op.register_collector _) w = (true, w + 1)
answers (Op.unregister_collector _) w = (tt, w + 1)
answers (Op.peers_total_values _) w = (4 ∷ 3 ∷ [], w + 1)
answers (Op.new_plugin_loader _) w = (good 5, w + 1)
answers (Op.initialize_plugins _) w = (good tt, w + 1)
answers (Op.inject_plugins _) w = (good tt, w + 1)
answers (Op.close_plugins _) w = (good tt, w + 1)
answers (Op.set_plugin_state _ _) w = (tt, w + 1)
answers (Op.start_plugins _ _) w = (good tt, w + 1)
answers Op.create_identity w = (good 5, w + 1)
answers (Op.init_with_identity _) w = (bad "no configuration", w + 1)
answers (Op.transform _ _) w = (bad "no configuration", w + 1)
answers (Op.is_initialized _) w = (true, w + 1)
answers (Op.open_repo _) w = (good 5, w + 1)
answers (Op.init_repo _ _) w = (good tt, w + 1)
answers (Op.repo_config _) w = (bad "no configuration", w + 1)
answers (Op.clone_config _) w = (bad "no configuration", w + 1)
answers (Op.set_config _ _) w = (good tt, w + 1)
answers (Op.new_node _ _) w = (good 5, w + 1)
answers (Op.close_node _) w = (tt, w + 1)
answers (Op.set_is_daemon _) w = (tt, w + 1)
answers (Op.new_core_api _) w = (good 5, w + 1)
answers (Op.format_identity _) w = ("id", w + 1)
answers (Op.key_encoder_from_string _) w = (good 5, w + 1)
answers (Op.get_config _) w = (bad "no configuration", w + 1)
answers (Op.listen _) w = (good 5, w + 1)
answers (Op.set_api_addr _ _) w = (good tt, w + 1)
answers (Op.unixfs_add _ _ _ _ _) w = (good (1 ∷ 2 ∷ 3 ∷ []), w + 1)
answers (Op.unixfs_get _ _ _ _) w = (good (file 9), w + 1)
answers (Op.pin_add _ _ _ _) w = (good tt, w + 1)
answers (Op.pin_rm _ _ _ _) w = (good tt, w + 1)
answers (Op.read_all _) w = (good (1 ∷ 2 ∷ 3 ∷ []), w + 1)
answers (Op.now_plus _) w = (7, w + 1)
answers (Op.publish_with_eol _ _ _ _ _) w = (good tt, w + 1)
answers (Op.collect_garbage _ _ _) w = (good tt, w + 1)

abbrev tcp_only : Parsers
tcp_only = record {
  new_multiaddr = λ addr. good (record { protocol = 6; value = b'4' ∷ [] } ∷ []);
  addr_infos = λ maddrs. good (3 ∷ []);
  parse_bootstrap_peers = λ peers. good (4 ∷ []);
  bootstrap_peer_strings = λ peers. "peer" ∷ [];
}

abbrev libraries : Libraries ℕ
libraries = record {
  parsers = tcp_only;
  unmarshal = λ text. bad "not a configuration";
  clean = λ path. path;
  join = λ path name. path;
  has_profile = λ name. false;
  parse_cid_to_path = λ cid. good cid;
  new_path = λ cid. cid;
  show_addr = λ addr. "address";
  show_multiaddr = λ maddr. "multiaddress";
  web_ui_paths = [];
  answer = answers;
}

abbrev started_node : Node
started_node = record {
  ctx = 0 ∷ [];
  cctx = none;
  node = some 11;
  api = some 12;
  collector = some 13;
  cancel = 0;
  next_cancel_signal_id = 0;
  cancel_signals = [];
  state_cb = 1;
  state_cb_arg = 2;
}

abbrev running : System ℕ
running = record (initial 0) { g_node = some 0; heap = started_node ∷ []; next_mark = 1 }

-- Another request runs under the signal 8, which is used and freed before the signal 7 is used.
abbrev uses : List Use
uses = Use.request 8 ∷ Use.cancel 8 ∷ Use.allocate ∷ Use.free 8 ∷ []

cancel-with_cancel_example :
    Returns
      (λ ctx mid.
        Returns
          (λ _ t.
            (is_done t.cancelled ctx ≡ true)
            × ((other : Context)
                → contains other 1 ≡ false
                → is_done t.cancelled other ≡ is_done mid.cancelled other))
          (go_asio_ipfs_cancel 7 mid))
      (start_and_use 0 7 uses running)
cancel-with_cancel_example =
    cancel-with_cancel running 0 7 started_node uses refl refl
      (omega arith, (tt, (tt, (omega arith, tt))))

allocate_many-AllDistinct_example : Returns (λ ids t. AllDistinct ids) (allocate_many 3 running)
allocate_many-AllDistinct_example =
    allocate_many-AllDistinct 3 running 0 started_node refl refl (omega arith)

abbrev empty : System ℕ
empty = initial 0

running-IsLinked : IsLinked running
running-IsLinked zero e = (started_node, refl)
running-IsLinked (suc n) e = absurd (cc)

go_asio_ipfs_free_example :
    Returns
      (λ code t.
        (t.g_node ≡ none)
        × ((n : ℕ) (node : Node) (ctx : Context)
            → running.g_node ≡ some n
            → get_elem? running.heap n ≡ some node
            → contains ctx node.cancel ≡ true
            → (code ≡ success) × (is_done t.cancelled ctx ≡ true))
        × (running.g_node ≡ none → (code ≡ no_node) × (t ≡ running)))
      (go_asio_ipfs_free libraries running)
go_asio_ipfs_free_example = go_asio_ipfs_free_lem libraries running running-IsLinked

make_build_cfg_example :
    ((r : Routing) → IsRouting "dhtclient" r → make_build_cfg 5 "dhtclient" ≡ good (build_cfg 5 r))
    × (((r : Routing) → ¬ IsRouting "dhtclient" r)
        → make_build_cfg 5 "dhtclient" ≡ bad (routing_option "dhtclient"))
make_build_cfg_example = make_build_cfg_lem 5 "dhtclient"

abbrev settings : AsioConfig
settings = record {
  low_water = pos 10;
  high_water = pos 20;
  grace_period = "20s";
  auto_relay = true;
  relay_hop = false;
  bootstrap = [];
  peering = [];
  swarm_port = pos 5;
  api_address = [];
  gateway_address = [];
  default_profile = "";
  storage_max = "1GB";
  auto_nat = true;
  auto_nat_limit = pos 1;
  auto_nat_peer_limit = pos 1;
  swarm_key = "";
  routing_type = "dht";
  run_gc = true;
}

abbrev stored : Config
stored = record {
  low_water = pos 1;
  high_water = pos 2;
  grace_period = "1s";
  enable_auto_relay = false;
  enable_relay_hop = true;
  relay = flag_default;
  routing_type = "none";
  storage_max = "";
  service_mode = service_unset;
  nat_throttle = unthrottled;
  swarm = (b'/' ∷ b't' ∷ b'c' ∷ b'p' ∷ b'/' ∷ b'4' ∷ []) ∷ [];
  api = [];
  gateway = [];
  bootstrap = "peer" ∷ [];
  peers = [];
  root_redirect = "";
  writable = false;
  p2p_http_proxy = false;
  other = 0;
}

update_config_example :
    IfGood (IsUpdated tcp_only stored settings) (update_config tcp_only stored settings)
update_config_example = update_config_good tcp_only stored settings

abbrev logger : Logger
logger = record { with_date = true; with_time = true; output = stderr }

abbrev logged : LogState
logged = record { calls = []; next_ptr = 1; c_live = [] }

redirect_logs-write_example :
    write (go_asio_ipfs_redirect_logs 5 logger).output (b'h' ∷ b'i' ∷ 10 ∷ []) logged
    ≡ ret 3 (record logged { calls = (5, b'h' ∷ b'i' ∷ []) ∷ []; next_ptr = 2 })
redirect_logs-write_example =
    redirect_logs-write 5 logger (b'h' ∷ b'i' ∷ []) 10 logged (omega arith)

redirect_logs_nil_panics_example :
    write (go_asio_ipfs_redirect_logs 0 logger).output (b'h' ∷ []) logged ≡ panicked log_cb_nil
redirect_logs_nil_panics_example = redirect_logs_nil_panics logger (b'h' ∷ []) logged
