-- ===== src/Start/Stable.antt =====
-- A start keeps every stable property, whether it succeeds or fails.
use asio_ipfs.Base.{
  ◌∷◌, Out, check, ℕ, ◌≡◌, refl, String, Bool, true, false, Option, none, some, Result, good, bad,
  Panic, ◌>>=◌, wrap, Keeps, Keeps-bind, Keeps-pure, Keeps-check, Keeps-wrap, Keeps-attempt,
  Keeps-if, Keeps-panic, Ends, ret, throw, panicked, ◌==◌,
}
use asio_ipfs.Codes.{Code, success, mprome_inject_failed}
use asio_ipfs.Config.{AsioConfig, Config, Handle}
use asio_ipfs.Config.Build.{make_build_cfg}
use asio_ipfs.World
use asio_ipfs.World.{Libraries, CommandContext}
use asio_ipfs.System.{System, perform, update}
use asio_ipfs.System.Stable.{
  Executes, Stores, Stable, Relinks, Keeps-execute, Keeps-perform, Keeps-load, Keeps-deref,
  Keeps-spawn, Keeps-make_chan, Keeps-store, Keeps-gets,
}
use asio_ipfs.Lifecycle.Stable.{Keeps-allocate_node}
use asio_ipfs.Start.Env.Stable.{Keeps-build_env}
use asio_ipfs.Repo.Stable.{Keeps-init_repo, Keeps-open_repo}
use asio_ipfs.Http.Stable.{Keeps-maybe_serve_http_api, Keeps-maybe_serve_http_gateway}
use asio_ipfs.Start.{
  or_code, code_out, Channels, no_panic, maybe_run_gc, inject_metrics_once, inject_metrics,
  make_env, ensure_repo, prepare, build_node, run_services, must, register_info, publish_node,
  launch_monitor, finish_start, start_steps, start_node, start_allocated, schedule_start, run_start,
  go_asio_ipfs_start_blocking, go_asio_ipfs_start_async,
}

module _ {W : Type 0} (x : Libraries W) {P : System W → Type 0} (stable : Stable P) where
  injection_answered :
      (s : System W) (r : Result String (Unit {0})) (w : W)
      → s.mprome_injected ≡ false
      → P s
      → Ends
          (λ _. P)
          P
          ((or_code mprome_inject_failed (check r) >>= λ _.
              update (λ t. record t { mprome_injected = true }))
            (record s { world = w; trace = (World.Op.inject_metrics, r) ∷ s.trace }))
  unfolding ◌>>=◌ wrap
  injection_answered s (good u) w e h = stable.metrics_injected s w e h
  injection_answered s (bad err) w e h =
      stable.injection_refused s World.Op.inject_metrics (bad err) w refl h

  inject_keeps :
      (s : System W) (b : Bool)
      → s.mprome_injected ≡ b
      → P s
      → Ends (λ _. P) P (inject_metrics_once x b s)
  unfolding inject_metrics_once ◌>>=◌ wrap perform
  inject_keeps s true e h = h
  inject_keeps s false e h = injection_answered s _ _ e h

  pub Keeps-inject_metrics : Keeps P (inject_metrics x)
  unfolding inject_metrics ◌>>=◌
  Keeps-inject_metrics = record { at = λ s h. inject_keeps s s.mprome_injected refl h }

  Keeps-ensure_repo :
      (repo_root : String) (asiocfg : AsioConfig) (b : Bool)
      → Keeps P (ensure_repo x repo_root asiocfg b)
  unfolding ensure_repo
  Keeps-ensure_repo repo_root asiocfg true = Keeps-pure tt
  Keeps-ensure_repo repo_root asiocfg false =
      Keeps-wrap _ (Keeps-init_repo x stable repo_root asiocfg)

  pub Keeps-no_panic : {A : Type 0} (r : Result Panic A) → Keeps P (no_panic {W = W} r)
  Keeps-no_panic (good a) = Keeps-pure a
  Keeps-no_panic (bad p) = Keeps-panic p

  Keeps-maybe_run_gc : (n : ℕ) (acfg : AsioConfig) → Keeps P (maybe_run_gc {W = W} n acfg)
  unfolding maybe_run_gc ◌>>=◌
  Keeps-maybe_run_gc n acfg =
      Keeps-if acfg.run_gc
        (Keeps-bind (Keeps-make_chan stable)
          λ errc. Keeps-bind (Keeps-spawn stable _) λ _. Keeps-pure _)
        (Keeps-pure _)

  pub Keeps-run_services : (n : ℕ) (acfg : AsioConfig) → Keeps P (run_services x n acfg)
  unfolding run_services ◌>>=◌
  Keeps-run_services n acfg = Keeps-bind (Keeps-wrap _ (Keeps-maybe_run_gc n acfg)) λ gc.
      Keeps-bind (Keeps-wrap _ (Keeps-maybe_serve_http_api x stable n acfg)) λ api.
        Keeps-bind (Keeps-wrap _ (Keeps-maybe_serve_http_gateway x stable n acfg))
          λ gateway. Keeps-pure _

  pub Keeps-must : (b : Bool) → Keeps P (must x b)
  unfolding must
  Keeps-must true = Keeps-pure tt
  Keeps-must false = Keeps-panic _

  pub Keeps-register_info : (b : Bool) → Keeps P (register_info x b)
  unfolding register_info ◌>>=◌
  Keeps-register_info true = Keeps-pure tt
  Keeps-register_info false =
      Keeps-bind (Keeps-perform stable.called x _ refl)
        λ ok. Keeps-bind (Keeps-must ok) λ _. record { at = λ s h. stable.info_registered s h }

  Keeps-launch_monitor : (n : ℕ) (c : Channels x) → Keeps P (launch_monitor x n c)
  unfolding launch_monitor
  Keeps-launch_monitor n (none, none, none) = Keeps-pure tt
  Keeps-launch_monitor n (some a, none, none) = Keeps-spawn stable _
  Keeps-launch_monitor n (none, some b, none) = Keeps-spawn stable _
  Keeps-launch_monitor n (some a, some b, none) = Keeps-spawn stable _
  Keeps-launch_monitor n (none, none, some c) = Keeps-spawn stable _
  Keeps-launch_monitor n (some a, none, some c) = Keeps-spawn stable _
  Keeps-launch_monitor n (none, some b, some c) = Keeps-spawn stable _
  Keeps-launch_monitor n (some a, some b, some c) = Keeps-spawn stable _

  pub Keeps-finish_start : (n : ℕ) (c : Channels x) → Keeps P (finish_start x n c)
  unfolding finish_start ◌>>=◌
  Keeps-finish_start n c =
      Keeps-bind (Keeps-load n)
        λ node. Keeps-if (node.state_cb == 0) (Keeps-panic _) (Keeps-launch_monitor n c)

  code_keeps :
      (o : Out Code (System W) (Unit {0})) → Ends (λ _. P) P o → Ends (λ _. P) P (code_out x o)
  code_keeps (ret u s) h = h
  code_keeps (throw code s) h = h
  code_keeps (panicked p) h = tt

  Keeps-schedule_start :
      (cfg repo_root : String) (fn fn_arg : ℕ) (code : Code) (g : Option ℕ)
      → Keeps P (schedule_start x cfg repo_root fn fn_arg code g)
  unfolding schedule_start
  Keeps-schedule_start cfg repo_root fn fn_arg success (some n) = Keeps-spawn stable _
  Keeps-schedule_start cfg repo_root fn fn_arg success none = Keeps-panic _
  Keeps-schedule_start cfg repo_root fn fn_arg code g = Keeps-spawn stable _

  pub Keeps-go_asio_ipfs_start_async :
      Relinks P
      → (cfg repo_root : String) (state_cb state_cb_arg fn fn_arg : ℕ)
      → Keeps P (go_asio_ipfs_start_async x cfg repo_root state_cb state_cb_arg fn fn_arg)
  unfolding go_asio_ipfs_start_async ◌>>=◌
  Keeps-go_asio_ipfs_start_async relinks cfg repo_root state_cb state_cb_arg fn fn_arg =
      Keeps-bind (Keeps-allocate_node stable relinks state_cb state_cb_arg)
        λ err. Keeps-bind (Keeps-gets _) λ g. Keeps-schedule_start cfg repo_root fn fn_arg err g

  module _ (stores : Stores P) where
    Keeps-make_env : (n : ℕ) (repo_root : String) → Keeps P (make_env x n repo_root)
    unfolding make_env ◌>>=◌
    Keeps-make_env n repo_root =
        Keeps-bind (Keeps-attempt (Keeps-build_env x stable repo_root))
          λ r. Keeps-bind (Keeps-store stores n _) λ _. Keeps-wrap _ (Keeps-check r)

    pub Keeps-prepare :
        (n : ℕ) (repo_root : String) (asiocfg : AsioConfig)
        → Keeps P (prepare x n repo_root asiocfg)
    unfolding prepare ◌>>=◌
    Keeps-prepare n repo_root asiocfg = Keeps-bind (Keeps-make_env n repo_root) λ cctx.
        Keeps-bind (Keeps-perform stable.called x _ refl) λ initialized.
          Keeps-bind (Keeps-ensure_repo cctx.config_root asiocfg initialized) λ _.
            Keeps-bind (Keeps-wrap _ (Keeps-open_repo x stable _ asiocfg)) λ repo.
              Keeps-bind
                (Keeps-wrap _ (Keeps-bind (Keeps-perform stable.called x _ refl) Keeps-check))
                λ cfg. Keeps-bind (Keeps-store stores n _) λ _. Keeps-pure _

    Keeps-build_node : (n : ℕ) (opened : Handle × Config) → Keeps P (build_node x n opened)
    unfolding build_node ◌>>=◌
    Keeps-build_node n (repo, cfg) =
        Keeps-bind (Keeps-no_panic (make_build_cfg repo cfg.routing_type)) λ bcfg.
          Keeps-bind (Keeps-load n) λ node. Keeps-bind (Keeps-perform stable.called x _ refl) λ r.
            Keeps-bind (Keeps-store stores n _) λ _. Keeps-bind (Keeps-wrap _ (Keeps-check r)) λ h.
              Keeps-bind (Keeps-perform stable.called x _ refl) λ d.
                Keeps-bind (Keeps-deref _) λ cctx.
                  Keeps-bind
                    (Keeps-wrap _ (Keeps-bind (Keeps-perform stable.called x _ refl) Keeps-check))
                    λ _. Keeps-pure h

    Keeps-publish_node : (n : ℕ) (h : Handle) → Keeps P (publish_node x n h)
    unfolding publish_node ◌>>=◌
    Keeps-publish_node n h = Keeps-bind (Keeps-gets _) λ registered.
        Keeps-bind (Keeps-register_info registered) λ _. Keeps-bind (Keeps-store stores n _) λ _.
          Keeps-bind (Keeps-perform stable.called x _ refl) λ ok. Keeps-bind (Keeps-must ok) λ _.
            Keeps-bind (Keeps-perform stable.called x _ refl) λ r.
              Keeps-bind (Keeps-store stores n _)
                λ _. Keeps-bind (Keeps-wrap _ (Keeps-check r)) λ _. Keeps-pure tt

    Keeps-start_steps :
        (jsoncfg : String) (n : ℕ) (repo_root : String)
        → Keeps P (start_steps x jsoncfg n repo_root)
    unfolding start_steps ◌>>=◌
    Keeps-start_steps jsoncfg n repo_root = Keeps-bind (Keeps-wrap _ (Keeps-check _)) λ acfg.
        Keeps-bind Keeps-inject_metrics λ _. Keeps-bind (Keeps-prepare n repo_root acfg) λ opened.
          Keeps-bind (Keeps-build_node n opened) λ h.
            Keeps-bind (Keeps-run_services n acfg)
              λ channels. Keeps-bind (Keeps-publish_node n h) λ _. Keeps-finish_start n channels

    pub Keeps-start_node :
        (jsoncfg : String) (n : ℕ) (repo_root : String) → Keeps P (start_node x jsoncfg n repo_root)
    unfolding start_node
    Keeps-start_node jsoncfg n repo_root = record {
      at = λ s h.
          code_keeps (start_steps x jsoncfg n repo_root s)
            ((Keeps-start_steps jsoncfg n repo_root).at s h);
    }

    Keeps-start_allocated :
        (cfg repo_root : String) (code : Code) (g : Option ℕ)
        → Keeps P (start_allocated x cfg repo_root code g)
    unfolding start_allocated
    Keeps-start_allocated cfg repo_root success (some n) = Keeps-start_node cfg n repo_root
    Keeps-start_allocated cfg repo_root success none = Keeps-panic _
    Keeps-start_allocated cfg repo_root code g = Keeps-pure _

    pub Keeps-run_start :
        Executes P
        → (n : ℕ) (cfg repo_root : String) (fn fn_arg : ℕ)
        → Keeps P (run_start x n cfg repo_root fn fn_arg)
    unfolding run_start ◌>>=◌
    Keeps-run_start executes n cfg repo_root fn fn_arg =
        Keeps-bind (Keeps-start_node cfg n repo_root) λ err. Keeps-execute executes _

    pub Keeps-go_asio_ipfs_start_blocking :
        Relinks P
        → (cfg repo_root : String) (state_cb state_cb_arg : ℕ)
        → Keeps P (go_asio_ipfs_start_blocking x cfg repo_root state_cb state_cb_arg)
    unfolding go_asio_ipfs_start_blocking ◌>>=◌
    Keeps-go_asio_ipfs_start_blocking relinks cfg repo_root state_cb state_cb_arg =
        Keeps-bind (Keeps-allocate_node stable relinks state_cb state_cb_arg)
          λ err. Keeps-bind (Keeps-gets _) λ g. Keeps-start_allocated cfg repo_root err g
