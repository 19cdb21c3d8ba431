-- ===== src/Start/Errors.antt =====
-- The codes that a start can return.
use asio_ipfs.Base.{
  ℕ, String, Bool, true, false, Option, none, some, Result, good, bad, Panic, ◌>>=◌, Throws,
  Throws-bind, Throws-pure, Throws-panic, Throws-if, Throws-wrap, Throws-attempt, ◌==◌,
}
use asio_ipfs.Codes
use asio_ipfs.Codes.{
  Code, success, parse_config_fail, mprome_inject_failed, build_env_failed, create_repo_failed,
  open_repo_failed, read_config_failed, start_node_failed, plugins_failed, api_access_failed,
}
use asio_ipfs.Config.{AsioConfig, Config, Handle}
use asio_ipfs.Config.Build.{make_build_cfg}
use asio_ipfs.World.{Op, Libraries}
use asio_ipfs.System.{System, Node, Task, gets, deref, load, store, spawn, perform}
use asio_ipfs.Start.{
  no_panic, Channels, inject_metrics, inject_metrics_once, make_env, ensure_repo, prepare,
  build_node, run_services, must, register_info, publish_node, launch_monitor, finish_start,
  start_steps,
}

-- The codes of the steps of a start.
abbrev pub IsStartFailure : Code → Type 0
IsStartFailure parse_config_fail = Unit
IsStartFailure mprome_inject_failed = Unit
IsStartFailure build_env_failed = Unit
IsStartFailure create_repo_failed = Unit
IsStartFailure open_repo_failed = Unit
IsStartFailure read_config_failed = Unit
IsStartFailure start_node_failed = Unit
IsStartFailure plugins_failed = Unit
IsStartFailure Codes.Code.gc_failed = Unit
IsStartFailure Codes.Code.api_failed = Unit
IsStartFailure Codes.Code.gateway_failed = Unit
IsStartFailure api_access_failed = Unit
IsStartFailure code = ⊥

module _ {W : Type 0} {E : Type 0} {Q : E → Type 0} where
  Throws-gets : {A : Type 0} (f : System W → A) → Throws Q (gets f)
  Throws-gets f = record { at = λ s. tt }

  Throws-deref : {A : Type 0} (o : Option A) → Throws Q (deref {W = W} o)
  Throws-deref none = Throws-panic _
  Throws-deref (some a) = Throws-pure a

  Throws-load : (n : ℕ) → Throws Q (load {W = W} n)
  unfolding load
  Throws-load n = record { at = λ s. (Throws-deref _).at s }

  Throws-store : (n : ℕ) (f : Node → Node) → Throws Q (store {W = W} n f)
  unfolding store
  Throws-store n f = record { at = λ s. tt }

  Throws-spawn : (t : Task) → Throws Q (spawn {W = W} t)
  unfolding spawn
  Throws-spawn t = record { at = λ s. tt }

  Throws-perform : (x : Libraries W) (op : Op) → Throws Q (perform x op)
  unfolding perform
  Throws-perform x op = record { at = λ s. tt }

module _ {W : Type 0} (x : Libraries W) where
  Throws-inject_metrics_once : (b : Bool) → Throws IsStartFailure (inject_metrics_once x b)
  unfolding inject_metrics_once ◌>>=◌
  Throws-inject_metrics_once true = Throws-pure tt
  Throws-inject_metrics_once false =
      Throws-bind (Throws-wrap _ _ (λ e. tt)) λ u. record { at = λ s. tt }

  Throws-inject_metrics : Throws IsStartFailure (inject_metrics x)
  unfolding inject_metrics ◌>>=◌
  Throws-inject_metrics = record { at = λ s. (Throws-inject_metrics_once s.mprome_injected).at s }

  Throws-make_env : (n : ℕ) (repo_root : String) → Throws IsStartFailure (make_env x n repo_root)
  unfolding make_env ◌>>=◌
  Throws-make_env n repo_root =
      Throws-bind (Throws-attempt _)
        λ r. Throws-bind (Throws-store n _) λ u. Throws-wrap _ _ (λ e. tt)

  Throws-ensure_repo :
      (repo_root : String) (asiocfg : AsioConfig) (b : Bool)
      → Throws IsStartFailure (ensure_repo x repo_root asiocfg b)
  unfolding ensure_repo
  Throws-ensure_repo repo_root asiocfg true = Throws-pure tt
  Throws-ensure_repo repo_root asiocfg false = Throws-wrap _ _ (λ e. tt)

  Throws-prepare :
      (n : ℕ) (repo_root : String) (asiocfg : AsioConfig)
      → Throws IsStartFailure (prepare x n repo_root asiocfg)
  unfolding prepare ◌>>=◌
  Throws-prepare n repo_root asiocfg = Throws-bind (Throws-make_env n repo_root) λ cctx.
      Throws-bind (Throws-perform x _) λ initialized.
        Throws-bind (Throws-ensure_repo cctx.config_root asiocfg initialized) λ u.
          Throws-bind (Throws-wrap _ _ (λ e. tt)) λ repo.
            Throws-bind (Throws-wrap _ _ (λ e. tt))
              λ cfg. Throws-bind (Throws-store n _) λ v. Throws-pure _

  Throws-no_panic : {A : Type 0} (r : Result Panic A) → Throws IsStartFailure (no_panic {W = W} r)
  Throws-no_panic (good a) = Throws-pure a
  Throws-no_panic (bad p) = Throws-panic p

  Throws-build_node :
      (n : ℕ) (opened : Handle × Config) → Throws IsStartFailure (build_node x n opened)
  unfolding build_node ◌>>=◌
  Throws-build_node n (repo, cfg) =
      Throws-bind (Throws-no_panic (make_build_cfg repo cfg.routing_type)) λ bcfg.
        Throws-bind (Throws-load n) λ node. Throws-bind (Throws-perform x _) λ r.
          Throws-bind (Throws-store n _) λ u. Throws-bind (Throws-wrap _ _ (λ e. tt)) λ h.
            Throws-bind (Throws-perform x _) λ d.
              Throws-bind (Throws-deref node.cctx)
                λ cctx. Throws-bind (Throws-wrap _ _ (λ e. tt)) λ v. Throws-pure h

  Throws-run_services :
      (n : ℕ) (asiocfg : AsioConfig) → Throws IsStartFailure (run_services x n asiocfg)
  unfolding run_services ◌>>=◌
  Throws-run_services n asiocfg = Throws-bind (Throws-wrap _ _ (λ e. tt)) λ gc.
      Throws-bind (Throws-wrap _ _ (λ e. tt))
        λ api. Throws-bind (Throws-wrap _ _ (λ e. tt)) λ gateway. Throws-pure _

  Throws-must : (b : Bool) → Throws IsStartFailure (must x b)
  unfolding must
  Throws-must true = Throws-pure tt
  Throws-must false = Throws-panic _

  Throws-register_info : (b : Bool) → Throws IsStartFailure (register_info x b)
  unfolding register_info ◌>>=◌
  Throws-register_info true = Throws-pure tt
  Throws-register_info false =
      Throws-bind (Throws-perform x _)
        λ ok. Throws-bind (Throws-must ok) λ u. record { at = λ s. tt }

  Throws-publish_node : (n : ℕ) (h : Handle) → Throws IsStartFailure (publish_node x n h)
  unfolding publish_node ◌>>=◌
  Throws-publish_node n h = Throws-bind (Throws-gets _) λ registered.
      Throws-bind (Throws-register_info registered) λ u. Throws-bind (Throws-store n _) λ v.
        Throws-bind (Throws-perform x _) λ ok. Throws-bind (Throws-must ok) λ w.
          Throws-bind (Throws-perform x _) λ r.
            Throws-bind (Throws-store n _)
              λ y. Throws-bind (Throws-wrap _ _ (λ e. tt)) λ z. Throws-pure tt

  Throws-launch_monitor : (n : ℕ) (c : Channels x) → Throws IsStartFailure (launch_monitor x n c)
  unfolding launch_monitor
  Throws-launch_monitor n (none, none, none) = Throws-pure tt
  Throws-launch_monitor n (some a, none, none) = Throws-spawn _
  Throws-launch_monitor n (none, some b, none) = Throws-spawn _
  Throws-launch_monitor n (some a, some b, none) = Throws-spawn _
  Throws-launch_monitor n (none, none, some c) = Throws-spawn _
  Throws-launch_monitor n (some a, none, some c) = Throws-spawn _
  Throws-launch_monitor n (none, some b, some c) = Throws-spawn _
  Throws-launch_monitor n (some a, some b, some c) = Throws-spawn _

  Throws-finish_start : (n : ℕ) (c : Channels x) → Throws IsStartFailure (finish_start x n c)
  unfolding finish_start ◌>>=◌
  Throws-finish_start n c =
      Throws-bind (Throws-load n)
        λ node. Throws-if (node.state_cb == 0) (Throws-panic _) (Throws-launch_monitor n c)

  pub Throws-start_steps :
      (jsoncfg : String) (n : ℕ) (repo_root : String)
      → Throws IsStartFailure (start_steps x jsoncfg n repo_root)
  unfolding start_steps ◌>>=◌
  Throws-start_steps jsoncfg n repo_root = Throws-bind (Throws-wrap _ _ (λ e. tt)) λ acfg.
      Throws-bind Throws-inject_metrics λ u. Throws-bind (Throws-prepare n repo_root acfg) λ opened.
        Throws-bind (Throws-build_node n opened) λ h.
          Throws-bind (Throws-run_services n acfg)
            λ channels. Throws-bind (Throws-publish_node n h) λ v. Throws-finish_start n channels
