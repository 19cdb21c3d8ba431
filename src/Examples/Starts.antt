-- ===== src/Examples/Starts.antt =====
-- The theorems on starting the node at concrete data: libraries with a configuration, and hosts that
-- start the node more than once.
use asio_ipfs.Base.{
  ℕ, ◌+◌, ◌≡◌, ◌⊎◌, is_some, ◌≤◌, refl, false, Option, none, some, List, [], ◌∷◌, good, Out, ret,
  throw, panicked, index_range, Ends, length,
}
use asio_ipfs.Codes.{Code, success, node_exists}
use asio_ipfs.Config.{AsioConfig, Config}
use asio_ipfs.World.{Op, Reply, Libraries, CommandContext}
use asio_ipfs.System.{System, initial}
use asio_ipfs.System.Stable.{is_metrics_injection, is_plugins_injection}
use asio_ipfs.Base.{wrap, attempt, ◌>>=◌}
use asio_ipfs.Config.{update_config}
use asio_ipfs.Config.Build.{make_build_cfg}
use asio_ipfs.System.{perform, load, store, spawn, make_chan}
use asio_ipfs.Lifecycle.{allocate_node}
use asio_ipfs.Repo.{
  open_repo, config_unlocked, form_repo_path, is_missing, is_not_exist, store_config, update_repo,
  check_io,
}
use asio_ipfs.Start.Env.{
  build_env, load_plugins, inject_plugins, inject_once, construct_node, construct,
}
use asio_ipfs.Http.{
  maybe_serve_http_api, maybe_serve_http_gateway, serve_api, serve_gateway, config_of, listen_all,
  first, serve_all, spawn_servers, api_options, gateway_options,
}
use asio_ipfs.Http.Listeners.{IsQuiet}
use asio_ipfs.Http.Laws.{IsServed, servers_serve, serve_api_no_address}
use asio_ipfs.Start.{
  go_asio_ipfs_start_blocking, start_allocated, start_node, start_steps, inject_metrics,
  inject_metrics_once, prepare, make_env, ensure_repo, build_node, run_services, maybe_run_gc,
  publish_node, register_info, must, finish_start, launch_monitor,
}
use asio_ipfs.Start.Once.{injections}
use asio_ipfs.Start.Errors.{IsStartFailure}
use asio_ipfs.Tasks.Starts.{Schedules, async_start_answers}
use asio_ipfs.Start.Ready.{IsComplete, start_ready}
use asio_ipfs.Process.Refinement.{Request, start, LifeRun, call_all, calls_refine}
use asio_ipfs.Process.Answers.{AnswersAll, start_then_answers}
use asio_ipfs.Start.Failed.{start_then_start}
use asio_ipfs.Process.{Event, start_blocking, free, handle_all, handle_all_injects_once}
use asio_ipfs.Examples.{answers, libraries, settings, stored, empty, started_node, running}

-- A repository with a configuration, which lists one address of the API.
abbrev pub listed : Config
listed = record stored { api = (b'/' ∷ []) ∷ []; gateway = (b'/' ∷ []) ∷ []; routing_type = "dht" }

abbrev pub configured_answers : Config → (op : Op) → ℕ → Reply op × ℕ
configured_answers cfg (Op.init_with_identity _) w = (good cfg, w + 1)
configured_answers cfg (Op.transform _ _) w = (good cfg, w + 1)
configured_answers cfg (Op.repo_config _) w = (good cfg, w + 1)
configured_answers cfg (Op.clone_config _) w = (good cfg, w + 1)
configured_answers cfg (Op.get_config _) w = (good cfg, w + 1)
configured_answers cfg op w = answers op w

abbrev with_api : AsioConfig
with_api = record settings { api_address = b'/' ∷ []; gateway_address = b'/' ∷ [] }

abbrev pub configured : Config → Libraries ℕ
configured cfg = record libraries {
  unmarshal = λ text. good with_api;
  answer = configured_answers cfg;
}

abbrev twice : List Event
twice = start_blocking "{}" "/repo" 3 4 ∷ free ∷ start_blocking "{}" "/repo" 3 4 ∷ []

handle_all_injects_once_example :
    Ends
      (λ _ t.
        (injections is_metrics_injection t.trace ≤ 1)
        × (injections is_plugins_injection t.trace ≤ 1))
      (λ t. ⊥)
      (handle_all (configured listed) twice (initial 0))
handle_all_injects_once_example = handle_all_injects_once (configured listed) 0 twice

start_then_start_example :
    Ends
      (λ code t.
        (t.g_node ≡ some (length empty.heap))
        × (go_asio_ipfs_start_blocking (configured listed) "{ }" "/repo" 3 4 t ≡ ret node_exists t))
      (λ t. ⊥)
      (go_asio_ipfs_start_blocking (configured listed) "{}" "/repo" 3 4 empty)
start_then_start_example = start_then_start (configured listed) empty "{}" "/repo" "{ }" 3 4 refl

start_ready_example :
    Ends
      (λ code t.
        ((code ≡ success) × (t.g_node ≡ some 0) × IsComplete (configured listed) 0 t)
        ⊎ IsStartFailure code)
      (λ t. ⊥)
      (go_asio_ipfs_start_blocking (configured listed) "{}" "/repo" 3 4 empty)
start_ready_example = start_ready (configured listed) empty "{}" "/repo" 3 4 refl

start_then_answers_example :
    Ends
      (λ code t. ((code ≡ success) × AnswersAll (configured listed) 0 t) ⊎ IsStartFailure code)
      (λ t. ⊥)
      (go_asio_ipfs_start_blocking (configured listed) "{}" "/repo" 3 4 empty)
start_then_answers_example = start_then_answers (configured listed) empty "{}" "/repo" 3 4 refl

async_start_answers_example : Schedules (configured listed) none "{}" "/repo" 3 4 8 9 empty
async_start_answers_example = async_start_answers (configured listed) empty "{}" "/repo" 3 4 8 9

abbrev requests : List Request
requests = start "{}" "/repo" 3 4 ∷ start "{}" "/repo" 3 4 ∷ Request.free ∷ Request.free ∷ []

calls_refine_example :
    Ends
      (λ l t. LifeRun false l (is_some t.g_node))
      (λ t. ⊥)
      (call_all (configured listed) requests empty)
calls_refine_example = calls_refine (configured listed) requests empty

abbrev context : CommandContext
context = record {
  config_root = "/repo";
  load_config = some ("/repo", listed);
  plugins = 5;
  gateway = false;
}

abbrev serving : System ℕ
serving = record running { heap = record started_node { cctx = some context } ∷ [] }

servers_serve_example :
    Ends
      (IsServed (configured listed) with_api.api_address (λ cfg. cfg.api) serving)
      (IsQuiet serving)
      (maybe_serve_http_api (configured listed) 0 with_api serving)
    × Ends
        (IsServed (configured listed) with_api.gateway_address (λ cfg. cfg.gateway) serving)
        (IsQuiet serving)
        (maybe_serve_http_gateway (configured listed) 0 with_api serving)
servers_serve_example = servers_serve (configured listed) serving 0 with_api

serve_api_no_address_example :
    maybe_serve_http_api (configured stored) 0 with_api serving ≡ panicked index_range
serve_api_no_address_example =
    serve_api_no_address (configured stored) serving 0 with_api
      (record started_node { cctx = some context }) context 11 stored refl refl refl refl refl refl

-- The code that a function returned.
abbrev pub code_of : Out ⊥ (System ℕ) Code → Option Code
code_of (ret code s) = some code
code_of (throw e s) = none
code_of (panicked p) = none

start_test :
    code_of (go_asio_ipfs_start_blocking (configured listed) "{}" "/repo" 3 4 empty) ≡ some success
unfolding go_asio_ipfs_start_blocking allocate_node start_allocated start_node start_steps
    inject_metrics inject_metrics_once wrap attempt ◌>>=◌ perform prepare make_env build_env
    load_plugins inject_plugins inject_once store load ensure_repo open_repo config_unlocked
    form_repo_path is_missing is_not_exist store_config update_repo check_io build_node run_services
    maybe_run_gc make_chan spawn maybe_serve_http_api maybe_serve_http_gateway serve_api
    serve_gateway config_of listen_all first serve_all spawn_servers construct_node construct
    publish_node register_info must finish_start launch_monitor make_build_cfg update_config
    api_options gateway_options
start_test = refl
