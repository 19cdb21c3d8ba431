-- ===== src/Start/Env/Stable.antt =====
-- The plugins and the command context keep every stable property.
use asio_ipfs.Base.{
  ℕ, ◌≡◌, refl, String, Bool, true, false, Option, none, some, Result, good, bad, ◌>>=◌, wrap,
  Keeps, Keeps-bind, Keeps-pure, Keeps-fail, check, Keeps-check, Keeps-wrap, Ends, ◌∷◌,
}
use asio_ipfs.Config.{Handle}
use asio_ipfs.World
use asio_ipfs.World.{Libraries, CommandContext, Reply}
use asio_ipfs.System.{System, perform, update}
use asio_ipfs.System.Stable.{Stable, Keeps-perform, Keeps-load}
use asio_ipfs.Start.Env.{
  inject_once, inject_plugins, load_plugins, build_env, construct, construct_node, prefixed,
}

module _ {W : Type 0} (x : Libraries W) {P : System W → Type 0} (stable : Stable P) where
  injection_answered :
      (s : System W) (l : Handle) (r : Result String (Unit {0})) (w : W)
      → s.plugins_injected ≡ false
      → P s
      → Ends
          (λ _. P)
          P
          ((wrap (prefixed "error initializing plugins: ") (check r) >>= λ _.
              update (λ t. record t { plugins_injected = true }))
            (record s { world = w; trace = (World.Op.inject_plugins l, r) ∷ s.trace }))
  unfolding ◌>>=◌ wrap
  injection_answered s l (good u) w e h = stable.plugins_injected s l w e h
  injection_answered s l (bad err) w e h =
      stable.injection_refused s (World.Op.inject_plugins l) (bad err) w refl h

  inject_keeps :
      (s : System W) (l : Handle) (b : Bool)
      → s.plugins_injected ≡ b
      → P s
      → Ends (λ _. P) P (inject_once x b l s)
  unfolding inject_once ◌>>=◌ wrap perform
  inject_keeps s l true e h = stable.called s (World.Op.set_plugin_state l 4) _ _ refl h
  inject_keeps s l false e h = injection_answered s l _ _ e h

  Keeps-inject_plugins : (l : Handle) → Keeps P (inject_plugins x l)
  unfolding inject_plugins ◌>>=◌
  Keeps-inject_plugins l = record { at = λ s h. inject_keeps s l s.plugins_injected refl h }

  Keeps-load_plugins : (repo_path : String) → Keeps P (load_plugins x repo_path)
  unfolding load_plugins ◌>>=◌ wrap
  Keeps-load_plugins repo_path =
      Keeps-bind (Keeps-wrap _ (Keeps-bind (Keeps-perform stable.called x _ refl) Keeps-check))
        λ plugins.
          Keeps-bind (Keeps-wrap _ (Keeps-bind (Keeps-perform stable.called x _ refl) Keeps-check))
            λ _. Keeps-bind (Keeps-inject_plugins plugins) λ _. Keeps-pure plugins

  pub Keeps-build_env : (repo_root : String) → Keeps P (build_env x repo_root)
  unfolding build_env ◌>>=◌
  Keeps-build_env repo_root = Keeps-bind (Keeps-load_plugins repo_root) λ plugins. Keeps-pure _

module _ {W : Type 0} {P : System W → Type 0} where
  Keeps-construct : (o : Option Handle) → Keeps P (construct {W = W} o)
  unfolding construct
  Keeps-construct none = Keeps-fail _
  Keeps-construct (some h) = Keeps-pure h

  pub Keeps-construct_node : (n : ℕ) → Keeps P (construct_node {W = W} n)
  unfolding construct_node ◌>>=◌
  Keeps-construct_node n = Keeps-bind (Keeps-load n) λ node. Keeps-construct node.node
