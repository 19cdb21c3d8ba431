-- ===== src/Cancel.antt =====
-- src/ipfs_bindings/ipfs_cancel.go: the signals by which C cancels a request.
pub mod Laws
pub mod Uses
pub mod Allocation
use asio_ipfs.Base.{
  ℕ, ◌+◌, ◌-◌, ◌%◌, ◌^◌, Option, none, some, List, [], ◌∷◌, ◌==◌, if◌then◌else◌, ◌>>=◌, ◌>>◌, pure,
}
use asio_ipfs.World.{Context}
use asio_ipfs.System.{Action, gets, load, store, with_cancel_of, cancel_mark}

-- Go's map from signals to cancel functions, a cancel function being the mark that it cancels.
abbrev pub Signals : Type 0
Signals = List (ℕ × ℕ)

unfoldable pub lookup : ℕ → Signals → Option ℕ
lookup k [] = none
lookup k ((j, v) ∷ m) = if j == k then some v else lookup k m

-- `delete(m, k)`
unfoldable pub delete : ℕ → Signals → Signals
delete k [] = []
delete k ((j, v) ∷ m) = let rest = delete k m in if j == k then rest else (j, v) ∷ rest

-- `m[k] = v`
unfoldable pub insert : ℕ → ℕ → Signals → Signals
unfolding delete
insert k v m = (k, v) ∷ delete k m

module _ {W : Type 0} where
  -- `withCancel`
  unfoldable pub with_cancel : ℕ → ℕ → Action W Context
  unfolding load store with_cancel_of insert ◌>>=◌
  with_cancel n cancel_signal = do
    node ← load n
    (ctx, cancel) ← with_cancel_of node.ctx
    store n (λ m. record m { cancel_signals = insert cancel_signal cancel m.cancel_signals })
    pure ctx

  allocate_at : Option ℕ → Action W ℕ
  unfolding ◌>>=◌
  allocate_at none = pure (2 ^ 64 - 1)
  allocate_at (some n) = do
    node ← load n
    store n (λ m. record m { next_cancel_signal_id = (m.next_cancel_signal_id + 1) % 2 ^ 64 })
    pure node.next_cancel_signal_id

  unfoldable pub go_asio_ipfs_cancellation_allocate : Action W ℕ
  unfolding allocate_at load store ◌>>=◌
  go_asio_ipfs_cancellation_allocate = gets (λ s. s.g_node) >>= allocate_at

  free_at : ℕ → Option ℕ → Action W (Unit {0})
  free_at cancel_signal none = pure tt
  free_at cancel_signal (some n) =
      store n (λ m. record m { cancel_signals = delete cancel_signal m.cancel_signals })

  unfoldable pub go_asio_ipfs_cancellation_free : ℕ → Action W (Unit {0})
  unfolding free_at store delete ◌>>=◌
  go_asio_ipfs_cancellation_free cancel_signal = gets (λ s. s.g_node) >>= free_at cancel_signal

  call_cancel : Option ℕ → Action W (Unit {0})
  call_cancel none = pure tt
  call_cancel (some mark) = cancel_mark mark

  cancel_at : ℕ → Option ℕ → Action W (Unit {0})
  unfolding call_cancel ◌>>=◌
  cancel_at cancel_signal none = pure tt
  cancel_at cancel_signal (some n) = do
    node ← load n
    call_cancel (lookup cancel_signal node.cancel_signals)

  unfoldable pub go_asio_ipfs_cancel : ℕ → Action W (Unit {0})
  unfolding cancel_at load cancel_mark lookup ◌>>=◌
  go_asio_ipfs_cancel cancel_signal = gets (λ s. s.g_node) >>= cancel_at cancel_signal
