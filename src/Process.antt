-- ===== src/Process.antt =====
-- The node's life in a process: the exported functions of src/ipfs_bindings/ipfs_node.go that start
-- and free the node, called by the host in any order and any number of times.
pub mod Answers
pub mod Refinement
use asio_ipfs.Base.{
  ℕ, String, List, [], ◌∷◌, ◌≤◌, refl, ◌>>=◌, pure, modify, Keeps, Keeps-bind, Keeps-pure, Ends,
  Out, ret, throw, panicked,
}
use asio_ipfs.World.{Libraries}
use asio_ipfs.System.{System, Action, initial}
use asio_ipfs.System.Stable.{
  Executes, Stable, Stores, Relinks, is_metrics_injection, is_plugins_injection,
}
use asio_ipfs.Lifecycle.{go_asio_ipfs_free}
use asio_ipfs.Lifecycle.Stable.{Keeps-go_asio_ipfs_free}
use asio_ipfs.Start.{run_start, go_asio_ipfs_start_blocking, go_asio_ipfs_start_async}
use asio_ipfs.Start.Stable.{
  Keeps-run_start, Keeps-go_asio_ipfs_start_blocking, Keeps-go_asio_ipfs_start_async,
}
use asio_ipfs.Start.Once.{injections, IsOnce, IsOnce-Stable, injections_le_one}

-- What may happen: the host starts the node, in one call or by a goroutine, which runs at any later
-- time with the pointer that it captured, and frees the node.
pub data Event : Type 0 where
  start_blocking : String → String → ℕ → ℕ → Event
  start_async : String → String → ℕ → ℕ → ℕ → ℕ → Event
  start_run : ℕ → String → String → ℕ → ℕ → Event
  free : Event

stores : {W : Type 0} {P : System W → Type 0} → Relinks P → Stores P
stores relinks s n f h = relinks s s.g_node (modify s.heap n f) s.next_mark h

module _ {W : Type 0} (x : Libraries W) where
  -- The codes go to the host; what is kept is the state.
  abbrev pub handle : Event → Action W (Unit {0})
  handle (start_blocking cfg root cb arg) =
      go_asio_ipfs_start_blocking x cfg root cb arg >>= λ code. pure tt
  handle (start_async cfg root cb arg fn fn_arg) =
      go_asio_ipfs_start_async x cfg root cb arg fn fn_arg
  handle (start_run n cfg root fn fn_arg) = run_start x n cfg root fn fn_arg
  handle free = go_asio_ipfs_free x >>= λ code. pure tt

  abbrev pub handle_all : List Event → Action W (Unit {0})
  handle_all [] = pure tt
  handle_all (e ∷ events) = handle e >>= λ _. handle_all events

  module _ {P : System W → Type 0} (stable : Stable P) (relinks : Relinks P)
      (executes : Executes P) where
    Keeps-handle : (e : Event) → Keeps P (handle e)
    Keeps-handle (start_blocking cfg root cb arg) =
        Keeps-bind
          (Keeps-go_asio_ipfs_start_blocking x stable (stores relinks) relinks cfg root cb arg)
          λ code. Keeps-pure tt
    Keeps-handle (start_async cfg root cb arg fn fn_arg) =
        Keeps-go_asio_ipfs_start_async x stable relinks cfg root cb arg fn fn_arg
    Keeps-handle (start_run n cfg root fn fn_arg) =
        Keeps-run_start x stable (stores relinks) executes n cfg root fn fn_arg
    Keeps-handle free = Keeps-bind (Keeps-go_asio_ipfs_free stable relinks x) λ code. Keeps-pure tt

    Keeps-handle_all : (events : List Event) → Keeps P (handle_all events)
    Keeps-handle_all [] = Keeps-pure tt
    Keeps-handle_all (e ∷ events) = Keeps-bind (Keeps-handle e) λ _. Keeps-handle_all events

  injected_once :
      (o : Out ⊥ (System W) (Unit {0}))
      → Ends (λ _. IsOnce) IsOnce o
      → Ends
          (λ _ t.
            (injections is_metrics_injection t.trace ≤ 1)
            × (injections is_plugins_injection t.trace ≤ 1))
          (λ t. ⊥)
          o
  injected_once (ret u s) h = injections_le_one s h
  injected_once (throw e s) h = e
  injected_once (panicked p) h = tt

  -- Over any sequence of starts and frees that does not panic, whatever the libraries answer, the
  -- handler of the metrics and the plugins are each injected without an error at most once.
  pub handle_all_injects_once :
      (w : W) (events : List Event)
      → Ends
          (λ _ t.
            (injections is_metrics_injection t.trace ≤ 1)
            × (injections is_plugins_injection t.trace ≤ 1))
          (λ t. ⊥)
          (handle_all events (initial w))
  handle_all_injects_once w events = injected_once (handle_all events (initial w)) (
      (Keeps-handle_all IsOnce-Stable (λ s g heap m h. h) (λ s c h. h) events).at (initial w)
        (refl, refl))
