-- ===== src/Start/Ready.antt =====
-- What a start that succeeds leaves behind: a node that answers requests.
use asio_ipfs.Base.{
  ℕ, ◌≡◌, refl, ◌⊎◌, inl, inr, String, Option, none, some, get_elem?, get_elem?-modify,
  get_elem?-modify_self, get_elem?-append_end, length, Result, good, bad, ◌>>=◌, check, wrap, Out,
  ret, throw, panicked, Ends, Ends-imp, Keeps-bind, Keeps-wrap, Keeps-check, Ensures, Ensures-bind,
  Ensures-Keeps, ThrowsOnly,
}
use asio_ipfs.Codes.{Code, success, start_node_failed, api_access_failed}
use asio_ipfs.Config.{Config, Handle}
use asio_ipfs.Config.Build.{make_build_cfg}
use asio_ipfs.World.{Libraries}
use asio_ipfs.System.{System, Node, store}
use asio_ipfs.System.Stable.{Stable, Stores, Keeps-perform, Keeps-load, Keeps-deref, Keeps-gets}
use asio_ipfs.Start.{
  or_code, to_option, code_out, build_node, publish_node, start_steps, start_node, start_allocated,
  go_asio_ipfs_start_blocking,
}
use asio_ipfs.Start.Stable.{
  Keeps-inject_metrics, Keeps-prepare, Keeps-run_services, Keeps-register_info, Keeps-must,
  Keeps-finish_start, Keeps-no_panic, Keeps-start_node,
}
use asio_ipfs.Lifecycle.{allocate_node}
use asio_ipfs.Start.Failed.{HasNode, HasNode-Stable}
use asio_ipfs.Start.Errors.{IsStartFailure, Throws-start_steps}

abbrev IsAny : Node → Type 0
IsAny node = Unit

-- The node that go-ipfs built is in place.
abbrev IsBuilt : Option Handle → Node → Type 0
IsBuilt o node = node.node ≡ o

abbrev IsCollected : Handle → Node → Type 0
IsCollected h node = (node.node ≡ some h) × (node.collector ≡ some h)

abbrev IsPublished : Handle → Option Handle → Node → Type 0
IsPublished h api node = (node.node ≡ some h) × (node.collector ≡ some h) × (node.api ≡ api)

module _ {W : Type 0} where
  -- The node `n` is there and has `Q`.
  unfoldable pub Holds : ℕ → (Node → Type 0) → System W → Type 0
  Holds n Q s = (node : Node) × (get_elem? s.heap n ≡ some node) × Q node

  Holds-Stable : (n : ℕ) (Q : Node → Type 0) → Stable (Holds n Q)
  unfolding Holds
  Holds-Stable n Q = record {
    called = λ s op r w plain h. h;
    injection_refused = λ s op r w refused h. h;
    metrics_injected = λ s w flag h. h;
    plugins_injected = λ s l w flag h. h;
    spawned = λ s t h. h;
    chan_made = λ s h. h;
    info_registered = λ s h. h;
    mark_cancelled = λ s m h. h;
  }

  Holds-Stores : (n : ℕ) → Stores (Holds n IsAny)
  unfolding Holds
  Holds-Stores n s m f (node, found, q) =
      let (other, kept) = get_elem?-modify s.heap m n f found in (other, kept, tt)

  Ensures-store :
      {E : Type 0} (n : ℕ) (f : Node → Node) (Q R : Node → Type 0)
      → ((node : Node) → Q node → R (f node))
      → Ensures (Holds n Q) (store {E = E} n f) (λ u. Holds n R) (λ _. Unit)
  unfolding Holds store
  Ensures-store n f Q R h = record {
    at = λ s (node, found, q). (f node, get_elem?-modify_self s.heap n f found, h node q);
  }

  -- The result that is checked is the one that was stored.
  Ensures-checked :
      (n : ℕ) (code : Code) (r : Result String Handle) (Q : Option Handle → Node → Type 0)
      → Ensures
          (Holds n (Q (to_option r)))
          (or_code code (check r))
          (λ h. Holds n (Q (some h)))
          (λ _. Unit)
  unfolding wrap
  Ensures-checked n code (good h) Q = record { at = λ s k. k }
  Ensures-checked n code (bad e) Q = record { at = λ s k. tt }

module _ {W : Type 0} (x : Libraries W) (n : ℕ) where
  Ensures-build_node :
      (opened : Handle × Config)
      → Ensures
          (Holds n IsAny)
          (build_node x n opened)
          (λ h. Holds n (IsBuilt (some h)))
          (λ _. Unit)
  unfolding build_node ◌>>=◌
  Ensures-build_node (repo, cfg) =
      Ensures-bind (λ _. Holds n IsAny)
        (Ensures-Keeps
          (Keeps-no_panic x (Holds-Stable n IsAny) (make_build_cfg repo cfg.routing_type)))
        λ bcfg.
          Ensures-bind (λ _. Holds n IsAny) (Ensures-Keeps (Keeps-load n))
            λ node.
              Ensures-bind (λ _. Holds n IsAny)
                (Ensures-Keeps (Keeps-perform (Holds-Stable n IsAny).called x _ refl))
                λ r.
                  Ensures-bind (λ _. Holds n (IsBuilt (to_option r)))
                    (Ensures-store n _ IsAny (IsBuilt (to_option r)) (λ m q. refl))
                    λ u.
                      Ensures-bind (λ h. Holds n (IsBuilt (some h)))
                        (Ensures-checked n start_node_failed r IsBuilt)
                        λ h.
                          Ensures-bind (λ _. Holds n (IsBuilt (some h)))
                            (Ensures-Keeps
                              (Keeps-perform (Holds-Stable n (IsBuilt (some h))).called x _ refl))
                            λ d.
                              Ensures-bind (λ _. Holds n (IsBuilt (some h)))
                                (Ensures-Keeps (Keeps-deref node.cctx))
                                λ cctx.
                                  Ensures-bind (λ _. Holds n (IsBuilt (some h)))
                                    (Ensures-Keeps (
                                      Keeps-wrap _ (
                                        Keeps-bind
                                          (Keeps-perform (Holds-Stable n (IsBuilt (some h))).called
                                            x _ refl)
                                          Keeps-check)))
                                    λ v. record { at = λ s k. k }

  Ensures-publish_node :
      (h : Handle)
      → Ensures
          (Holds n (IsBuilt (some h)))
          (publish_node x n h)
          (λ u s. (a : Handle) × Holds n (IsPublished h (some a)) s)
          (λ _. Unit)
  unfolding publish_node ◌>>=◌
  Ensures-publish_node h =
      Ensures-bind (λ _. Holds n (IsBuilt (some h))) (Ensures-Keeps (Keeps-gets _))
        λ registered.
          Ensures-bind (λ _. Holds n (IsBuilt (some h)))
            (Ensures-Keeps (Keeps-register_info x (Holds-Stable n (IsBuilt (some h))) registered))
            λ u.
              Ensures-bind (λ _. Holds n (IsCollected h))
                (Ensures-store n _ (IsBuilt (some h)) (IsCollected h) (λ m q. (q, refl)))
                λ v.
                  Ensures-bind (λ _. Holds n (IsCollected h))
                    (Ensures-Keeps (Keeps-perform (Holds-Stable n (IsCollected h)).called x _ refl))
                    λ ok.
                      Ensures-bind (λ _. Holds n (IsCollected h))
                        (Ensures-Keeps (Keeps-must x (Holds-Stable n (IsCollected h)) ok))
                        λ w.
                          Ensures-bind (λ _. Holds n (IsCollected h))
                            (Ensures-Keeps
                              (Keeps-perform (Holds-Stable n (IsCollected h)).called x _ refl))
                            λ r.
                              Ensures-bind (λ _. Holds n (IsPublished h (to_option r)))
                                (Ensures-store n _ (IsCollected h) (IsPublished h (to_option r))
                                  (λ m q. (q.0, q.1, refl)))
                                λ y.
                                  Ensures-bind (λ a. Holds n (IsPublished h (some a)))
                                    (Ensures-checked n api_access_failed r (IsPublished h))
                                    λ a. record { at = λ s k. (a, k) }

  -- The node is built, its API and its collector are set.
  abbrev pub IsComplete : System W → Type 0
  IsComplete s = (h : Handle) × (a : Handle) × Holds n (IsPublished h (some a)) s

  Ensures-start_steps :
      (jsoncfg repo_root : String)
      → Ensures (Holds n IsAny) (start_steps x jsoncfg n repo_root) (λ u. IsComplete) (λ _. Unit)
  unfolding start_steps ◌>>=◌
  Ensures-start_steps jsoncfg repo_root =
      Ensures-bind (λ _. Holds n IsAny) (Ensures-Keeps (Keeps-wrap _ (Keeps-check _)))
        λ acfg.
          Ensures-bind (λ _. Holds n IsAny)
            (Ensures-Keeps (Keeps-inject_metrics x (Holds-Stable n IsAny)))
            λ u.
              Ensures-bind (λ _. Holds n IsAny)
                (Ensures-Keeps
                  (Keeps-prepare x (Holds-Stable n IsAny) (Holds-Stores n) n repo_root acfg))
                λ opened.
                  Ensures-bind (λ h. Holds n (IsBuilt (some h))) (Ensures-build_node opened)
                    λ h.
                      Ensures-bind (λ _. Holds n (IsBuilt (some h)))
                        (Ensures-Keeps
                          (Keeps-run_services x (Holds-Stable n (IsBuilt (some h))) n acfg))
                        λ channels.
                          Ensures-bind (λ v s. (a : Handle) × Holds n (IsPublished h (some a)) s)
                            (Ensures-publish_node h)
                            λ v. record {
                              at = λ s (a, k).
                                  Ends-imp (Holds n (IsPublished h (some a))) IsComplete _
                                    ((Keeps-finish_start x (Holds-Stable n (IsPublished h (some a)))
                                        n channels).at
                                      s k)
                                    (λ t r. (h, a, r));
                            }

  -- Success with a complete node, or the code of the step that failed.
  abbrev IsStarted : Code → System W → Type 0
  IsStarted code t = ((code ≡ success) × (t.g_node ≡ some n) × IsComplete t) ⊎ IsStartFailure code

  code_lem :
      (o : Out Code (System W) (Unit {0}))
      → Ends (λ u. IsComplete) (λ _. Unit) o
      → ThrowsOnly IsStartFailure o
      → Ends (λ _. HasNode n) (HasNode n) (code_out x o)
      → Ends IsStarted (λ _. ⊥) (code_out x o)
  unfolding HasNode
  code_lem (ret u s) h k l = inl (refl, l, h)
  code_lem (throw code s) h k l = inr k
  code_lem (panicked p) h k l = tt

module _ {W : Type 0} (x : Libraries W) where
  -- A start that found no node and returns has either succeeded, and then `g_node` points to the new
  -- node, which go-ipfs has built and whose API and collector are set; or its code is that of one
  -- of the steps of a start.
  pub start_ready :
      (s : System W) (cfg repo_root : String) (state_cb state_cb_arg : ℕ)
      → s.g_node ≡ none
      → Ends
          (λ code t.
            ((code ≡ success) × (t.g_node ≡ some (length s.heap)) × IsComplete x (length s.heap) t)
            ⊎ IsStartFailure code)
          (λ t. ⊥)
          (go_asio_ipfs_start_blocking x cfg repo_root state_cb state_cb_arg s)
  unfolding go_asio_ipfs_start_blocking allocate_node start_allocated start_node HasNode Holds ◌>>=◌
  start_ready s cfg repo_root state_cb state_cb_arg h =
      let n = length s.heap in
      rw h (
        code_lem x n (start_steps x cfg n repo_root _)
          ((Ensures-start_steps x n cfg repo_root).at _ (_, get_elem?-append_end s.heap _, tt))
          ((Throws-start_steps x cfg n repo_root).at _)
          ((Keeps-start_node x (HasNode-Stable n) (λ t m f k. k) cfg n repo_root).at _ refl))
