-- ===== src/Lifecycle.antt =====
-- src/ipfs_bindings/ipfs_node.go: `allocate_node`, `go_asio_ipfs_free` and
-- `go_asio_ipfs_node_id`.
pub mod Laws
pub mod Stable
use asio_ipfs.Base.{
  ℕ, Option, none, some, [], ◌∷◌, ◌++◌, length, ◌>>=◌, ◌>>◌, pure, panic, key_encoder, Result, good,
  bad, String,
}
use asio_ipfs.Config.{Handle}
use asio_ipfs.Codes.{Code, success, node_exists, no_node}
use asio_ipfs.World
use asio_ipfs.World.{CommandContext, Libraries}
use asio_ipfs.System.{
  Action, gets, update, load, with_cancel_of, cancel_mark, c_alloc, deref, perform,
}

module _ {W : Type 0} where
  allocate_at : Option ℕ → ℕ → ℕ → Action W Code
  unfolding ◌>>=◌
  allocate_at (some n) state_cb state_cb_arg = pure node_exists
  allocate_at none state_cb state_cb_arg = do
    (ctx, cancel) ← with_cancel_of []
    update (λ s. record s {
      g_node = some (length s.heap);
      heap =
          s.heap
          ++ (record {
            ctx = ctx;
            cctx = none;
            node = none;
            api = none;
            collector = none;
            cancel = cancel;
            next_cancel_signal_id = 0;
            cancel_signals = [];
            state_cb = state_cb;
            state_cb_arg = state_cb_arg;
          }
              ∷ []);
    })
    pure success

  unfoldable pub allocate_node : ℕ → ℕ → Action W Code
  unfolding allocate_at with_cancel_of ◌>>=◌
  allocate_node state_cb state_cb_arg = do
    n ← gets (λ s. s.g_node)
    allocate_at n state_cb state_cb_arg

module _ {W : Type 0} (x : Libraries W) where
  unregister : Option Handle → Action W (Unit {0})
  unregister none = pure tt
  unregister (some c) = perform x (World.Op.unregister_collector c)

  close : Option Handle → Action W (Unit {0})
  close none = pure tt
  close (some h) = perform x (World.Op.close_node h)

  -- The error of `Plugins.Close` is only logged.
  close_plugins : Option CommandContext → Action W (Unit {0})
  unfolding ◌>>=◌
  close_plugins none = pure tt
  close_plugins (some c) = do r ← perform x (World.Op.close_plugins c.plugins); pure tt

  closing : Option Handle → Option Handle → Option CommandContext → Action W Code
  unfolding ◌>>=◌
  closing collector node cctx = do
    unregister collector
    close node
    close_plugins cctx
    update (λ s. record s { g_node = none })
    pure success

  -- `<- n.ctx.Done()` does not wait, since `n.cancel` has been called.
  free_at : Option ℕ → Action W Code
  unfolding ◌>>=◌
  free_at none = pure no_node
  free_at (some n) = do
    node ← load n
    cancel_mark node.cancel
    closing node.collector node.node node.cctx

  unfoldable pub go_asio_ipfs_free : Action W Code
  unfolding free_at closing unregister close close_plugins load cancel_mark perform ◌>>=◌
  go_asio_ipfs_free = gets (λ s. s.g_node) >>= free_at

  encode : Result String ℕ → Option Handle → Action W (ℕ × String)
  unfolding ◌>>=◌
  encode (bad e) ipfs_node = panic (key_encoder e)
  encode (good ke) ipfs_node = do
    h ← deref ipfs_node
    id ← perform x (World.Op.format_identity h)
    ptr ← c_alloc
    pure (ptr, id)

  node_id_at : Option ℕ → Action W (ℕ × String)
  unfolding ◌>>=◌
  node_id_at none = do ptr ← c_alloc; pure (ptr, "")
  node_id_at (some n) = do
    ke ← perform x (World.Op.key_encoder_from_string "b58mh")
    node ← load n
    encode ke node.node

  -- The pointer that C receives, and the text that it points to.
  unfoldable pub go_asio_ipfs_node_id : Action W (ℕ × String)
  unfolding node_id_at encode load c_alloc perform ◌>>=◌
  go_asio_ipfs_node_id = gets (λ s. s.g_node) >>= node_id_at
