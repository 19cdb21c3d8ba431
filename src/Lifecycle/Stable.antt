-- ===== src/Lifecycle/Stable.antt =====
-- What `allocate_node` and `go_asio_ipfs_free` keep.
use asio_ipfs.Base.{ℕ, refl, Option, none, some, Keeps, Keeps-bind, Keeps-pure, ◌>>=◌}
use asio_ipfs.Config.{Handle}
use asio_ipfs.Codes.{success}
use asio_ipfs.World
use asio_ipfs.World.{CommandContext, Libraries}
use asio_ipfs.System.{System, update, with_cancel_of}
use asio_ipfs.System.Stable.{
  Stable, Relinks, Keeps-gets, Keeps-load, Keeps-perform, Keeps-cancel_mark,
}
use asio_ipfs.Lifecycle.{
  allocate_at, allocate_node, unregister, close, close_plugins, closing, free_at, go_asio_ipfs_free,
}

module _ {W : Type 0} {P : System W → Type 0} (stable : Stable P) (relinks : Relinks P) where
  Keeps-allocate_at :
      (g : Option ℕ) (state_cb state_cb_arg : ℕ) → Keeps P (allocate_at g state_cb state_cb_arg)
  unfolding allocate_at with_cancel_of ◌>>=◌
  Keeps-allocate_at none state_cb state_cb_arg = record { at = λ s h. relinks s _ _ _ h }
  Keeps-allocate_at (some n) state_cb state_cb_arg = Keeps-pure _

  pub Keeps-allocate_node :
      (state_cb state_cb_arg : ℕ) → Keeps P (allocate_node state_cb state_cb_arg)
  unfolding allocate_node ◌>>=◌
  Keeps-allocate_node state_cb state_cb_arg =
      Keeps-bind (Keeps-gets _) λ g. Keeps-allocate_at g state_cb state_cb_arg

  module _ (x : Libraries W) where
    Keeps-unregister : (c : Option Handle) → Keeps P (unregister x c)
    unfolding unregister
    Keeps-unregister none = Keeps-pure tt
    Keeps-unregister (some c) = Keeps-perform stable.called x (World.Op.unregister_collector c) refl

    Keeps-close : (h : Option Handle) → Keeps P (close x h)
    unfolding close
    Keeps-close none = Keeps-pure tt
    Keeps-close (some h) = Keeps-perform stable.called x (World.Op.close_node h) refl

    Keeps-close_plugins : (c : Option CommandContext) → Keeps P (close_plugins x c)
    unfolding close_plugins ◌>>=◌
    Keeps-close_plugins none = Keeps-pure tt
    Keeps-close_plugins (some c) =
        Keeps-bind (Keeps-perform stable.called x _ refl) λ r. Keeps-pure tt

    Keeps-unlink : Keeps P (update {W = W} {E = ⊥} (λ s. record s { g_node = none }))
    Keeps-unlink = record { at = λ s k. relinks s none s.heap s.next_mark k }

    Keeps-closing :
        (c h : Option Handle) (cctx : Option CommandContext) → Keeps P (closing x c h cctx)
    unfolding closing ◌>>=◌
    Keeps-closing c h cctx = Keeps-bind (Keeps-unregister c) λ _. Keeps-bind (Keeps-close h) λ _.
        Keeps-bind (Keeps-close_plugins cctx) λ _. Keeps-bind Keeps-unlink λ _. Keeps-pure success

    Keeps-free_at : (g : Option ℕ) → Keeps P (free_at x g)
    unfolding free_at ◌>>=◌
    Keeps-free_at none = Keeps-pure _
    Keeps-free_at (some n) = Keeps-bind (Keeps-load n) λ node.
        Keeps-bind (Keeps-cancel_mark stable node.cancel)
          λ _. Keeps-closing node.collector node.node node.cctx

    pub Keeps-go_asio_ipfs_free : Keeps P (go_asio_ipfs_free x)
    unfolding go_asio_ipfs_free ◌>>=◌
    Keeps-go_asio_ipfs_free = Keeps-bind (Keeps-gets _) Keeps-free_at
