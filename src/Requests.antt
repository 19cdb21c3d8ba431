-- ===== src/Requests.antt =====
-- src/ipfs_bindings/ipfs_bindings.go and ipfs_gc.go: the requests that C makes. Each answers
-- through a callback that a goroutine calls. The task of a request names what it captures.
pub mod Bodies
pub mod Laws
use asio_ipfs.Base.{
  ℕ, ℤ, pos, negsuc, c_int, String, Bool, Option, none, some, Bytes, take, ◌>>=◌, ◌>>◌, pure, panic,
  go_bytes_length,
}
use asio_ipfs.Codes.{no_node}
use asio_ipfs.World.{Context}
use asio_ipfs.System.{Task, Action, gets, spawn}
use asio_ipfs.Cancel.{with_cancel}

-- `C.GoBytes(data, n)`, where `memory` is what C has at `data`. A negative length panics.
unfoldable pub go_bytes : {W : Type 0} → Bytes → ℤ → Action W Bytes
go_bytes memory (pos n) = pure (take n memory)
go_bytes memory (negsuc n) = panic go_bytes_length

module _ {W : Type 0} where
  -- What the requests share: with no node a goroutine answers `IPFS_NO_NODE`; otherwise the
  -- request's context is made and its goroutine started.
  request_at : Option ℕ → Task → ℕ → (ℕ → Context → Task) → Action W (Unit {0})
  unfolding ◌>>=◌
  request_at none refusal cancel_signal body = spawn refusal
  request_at (some n) refusal cancel_signal body = do
    cancel_ctx ← with_cancel n cancel_signal
    spawn (body n cancel_ctx)

  unfoldable pub request : Task → ℕ → (ℕ → Context → Task) → Action W (Unit {0})
  unfolding request_at spawn with_cancel ◌>>=◌
  request refusal cancel_signal body = do
    n ← gets (λ s. s.g_node)
    request_at n refusal cancel_signal body

  -- The same with the bytes of a buffer, which are copied before the context is made.
  request_bytes_at :
      Option ℕ → ℕ → ℕ → Bytes → ℕ → ℕ → (ℕ → Context → Bytes → Task) → Action W (Unit {0})
  unfolding ◌>>=◌
  request_bytes_at none cancel_signal size memory fn fn_arg body =
      spawn (Task.data_reply fn no_node fn_arg)
  request_bytes_at (some n) cancel_signal size memory fn fn_arg body = do
    msg ← go_bytes memory (c_int size)
    cancel_ctx ← with_cancel n cancel_signal
    spawn (body n cancel_ctx msg)

  unfoldable pub go_asio_ipfs_publish : ℕ → String → ℤ → ℕ → ℕ → Action W (Unit {0})
  unfolding request
  go_asio_ipfs_publish cancel_signal cid seconds fn fn_arg =
      request (Task.void_reply fn no_node fn_arg) cancel_signal
        (λ n ctx. Task.publish n ctx cid seconds fn fn_arg)

  unfoldable pub go_asio_ipfs_calc_cid : ℕ → Bytes → ℕ → ℕ → ℕ → Action W (Unit {0})
  unfolding request_bytes_at spawn with_cancel go_bytes ◌>>=◌
  go_asio_ipfs_calc_cid cancel_signal memory size fn fn_arg = do
    n ← gets (λ s. s.g_node)
    request_bytes_at n cancel_signal size memory fn fn_arg
        (λ m ctx msg. Task.calc_cid m ctx msg fn fn_arg)

  unfoldable pub go_asio_ipfs_add : ℕ → Bytes → ℕ → Bool → ℕ → ℕ → Action W (Unit {0})
  unfolding request_bytes_at spawn with_cancel go_bytes ◌>>=◌
  go_asio_ipfs_add cancel_signal memory size pinned fn fn_arg = do
    n ← gets (λ s. s.g_node)
    request_bytes_at n cancel_signal size memory fn fn_arg
        (λ m ctx msg. Task.add m ctx msg pinned fn fn_arg)

  unfoldable pub go_asio_ipfs_cat : ℕ → String → ℕ → ℕ → Action W (Unit {0})
  unfolding request
  go_asio_ipfs_cat cancel_signal cid fn fn_arg =
      request (Task.data_reply fn no_node fn_arg) cancel_signal
        (λ n ctx. Task.cat n ctx cid fn fn_arg)

  unfoldable pub go_asio_ipfs_pin : ℕ → String → ℕ → ℕ → Action W (Unit {0})
  unfolding request
  go_asio_ipfs_pin cancel_signal cid fn fn_arg =
      request (Task.void_reply fn no_node fn_arg) cancel_signal
        (λ n ctx. Task.pin n ctx cid fn fn_arg)

  unfoldable pub go_asio_ipfs_unpin : ℕ → String → ℕ → ℕ → Action W (Unit {0})
  unfolding request
  go_asio_ipfs_unpin cancel_signal cid fn fn_arg =
      request (Task.void_reply fn no_node fn_arg) cancel_signal
        (λ n ctx. Task.unpin n ctx cid fn fn_arg)

  unfoldable pub go_asio_ipfs_gc : ℕ → ℕ → ℕ → Action W (Unit {0})
  unfolding request
  go_asio_ipfs_gc cancel_signal fn fn_arg =
      request (Task.void_reply fn no_node fn_arg) cancel_signal (λ n ctx. Task.gc n ctx fn fn_arg)
