-- ===== src/Start/Failed.antt =====
-- What a start leaves in `g_node`. A failed start means to free the node, but `_ = go_asio_ipfs_free`
-- only names the function.
use asio_ipfs.Base.{
  ℕ, String, none, some, ◌≡◌, refl, ◌>>=◌, Out, ret, throw, panicked, Ends, length,
}
use asio_ipfs.Codes.{Code, node_exists}
use asio_ipfs.World.{Libraries}
use asio_ipfs.System.{System}
use asio_ipfs.System.Stable.{Stable}
use asio_ipfs.Lifecycle.{allocate_node}
use asio_ipfs.Start.{start_allocated, go_asio_ipfs_start_blocking}
use asio_ipfs.Start.Stable.{Keeps-start_node}

module _ {W : Type 0} where
  -- `g_node` points to the node `n`.
  unfoldable pub HasNode : ℕ → System W → Type 0
  HasNode n s = s.g_node ≡ some n

  pub HasNode-Stable : (n : ℕ) → Stable (HasNode n)
  unfolding HasNode
  HasNode-Stable n = record {
    called = λ s op r w plain h. h;
    injection_refused = λ s op r w refused h. h;
    metrics_injected = λ s w flag h. h;
    plugins_injected = λ s l w flag h. h;
    spawned = λ s t h. h;
    chan_made = λ s h. h;
    info_registered = λ s h. h;
    mark_cancelled = λ s m h. h;
  }

module _ {W : Type 0} (x : Libraries W) where
  pub start_refused :
      (s : System W) (n : ℕ) (cfg repo_root : String) (state_cb state_cb_arg : ℕ)
      → s.g_node ≡ some n
      → go_asio_ipfs_start_blocking x cfg repo_root state_cb state_cb_arg s ≡ ret node_exists s
  unfolding go_asio_ipfs_start_blocking allocate_node start_allocated ◌>>=◌
  start_refused s n cfg repo_root state_cb state_cb_arg h = rw h (refl)

  refused_out :
      (n : ℕ) (again repo_root : String) (state_cb state_cb_arg : ℕ) (o : Out ⊥ (System W) Code)
      → Ends (λ _. HasNode n) (HasNode n) o
      → Ends
          (λ code t.
            (t.g_node ≡ some n)
            × (go_asio_ipfs_start_blocking x again repo_root state_cb state_cb_arg t
                ≡ ret node_exists t))
          (λ t. ⊥)
          o
  unfolding HasNode
  refused_out n again repo_root state_cb state_cb_arg (ret code t) h =
      (h, start_refused t n again repo_root state_cb state_cb_arg h)
  refused_out n again repo_root state_cb state_cb_arg (throw e t) h = e
  refused_out n again repo_root state_cb state_cb_arg (panicked p) h = tt

  -- A start that found no node leaves one, whichever code it returns and whatever the libraries
  -- answered: `g_node` points to the new node, and the next start answers `IPFS_NODE_EXISTS` and
  -- changes nothing. (If the start panics, nothing is owed.)
  pub start_then_start :
      (s : System W) (cfg repo_root again : String) (state_cb state_cb_arg : ℕ)
      → s.g_node ≡ none
      → Ends
          (λ code t.
            (t.g_node ≡ some (length s.heap))
            × (go_asio_ipfs_start_blocking x again repo_root state_cb state_cb_arg t
                ≡ ret node_exists t))
          (λ t. ⊥)
          (go_asio_ipfs_start_blocking x cfg repo_root state_cb state_cb_arg s)
  unfolding HasNode go_asio_ipfs_start_blocking allocate_node start_allocated ◌>>=◌
  start_then_start s cfg repo_root again state_cb state_cb_arg h = rw h (
      refused_out (length s.heap) again repo_root state_cb state_cb_arg _ (
        (Keeps-start_node x (HasNode-Stable (length s.heap)) (λ t m f k. k) cfg (length s.heap)
            repo_root).at
          _ refl))
