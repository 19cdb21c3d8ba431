-- ===== src/Requests/Laws.antt =====
-- What a request starts, and what reaches the memory that C passes.
use asio_ipfs.Base.{
  ℕ, ◌+◌, ◌-◌, ◌^◌, ◌≤◌, ◌<◌, ◌≡◌, Bool, some, [], ◌∷◌, ◌++◌, arith, Bytes, length, take, take_all,
  get_elem?, modify, c_int, pos, negsuc, ret, panicked, go_bytes_length,
}
use asio_ipfs.World.{Context}
use asio_ipfs.System.{System, Node, Task}
use asio_ipfs.Cancel.Laws.{bind_signal}
use asio_ipfs.Requests.{request, go_asio_ipfs_calc_cid, go_asio_ipfs_add}

c_int_small : (size : ℕ) → size < 2 ^ 31 → c_int size ≡ pos size
unfolding c_int
c_int_small size h = ground arith

c_int_negative :
    (size : ℕ) → 2 ^ 31 ≤ size → size < 2 ^ 32 → c_int size ≡ negsuc (2 ^ 32 - 1 - size)
unfolding c_int
c_int_negative size h k = ground arith

c_int_wrapped : (size : ℕ) → size < 2 ^ 31 → c_int (size + 2 ^ 32) ≡ pos size
unfolding c_int
c_int_wrapped size h = ground arith

module _ {W : Type 0} where
  -- The state after a request to node `n`: its context is registered under the signal, and one
  -- more goroutine waits.
  abbrev pub requested : System W → ℕ → Node → ℕ → Task → System W
  requested s n node cancel_signal task = record s {
    next_mark = s.next_mark + 1;
    heap = modify s.heap n (bind_signal cancel_signal s.next_mark);
    tasks = s.tasks ++ (task ∷ []);
  }

  pub request_lem :
      (s : System W) (n : ℕ) (node : Node) (refusal : Task) (cancel_signal : ℕ)
      (body : ℕ → Context → Task)
      → s.g_node ≡ some n
      → get_elem? s.heap n ≡ some node
      → request refusal cancel_signal body s
        ≡ ret tt (requested s n node cancel_signal (body n (s.next_mark ∷ node.ctx)))
  unfolding request
  request_lem s n node refusal cancel_signal body g h = ground arith

  -- With a node and a buffer shorter than 2 GiB, `go_asio_ipfs_add` starts one goroutine that holds
  -- all bytes of the buffer, under a fresh context below the node's that the signal cancels.
  pub go_asio_ipfs_add_lem :
      (s : System W) (n : ℕ) (node : Node) (cancel_signal : ℕ) (memory : Bytes) (pinned : Bool)
      (fn fn_arg : ℕ)
      → s.g_node ≡ some n
      → get_elem? s.heap n ≡ some node
      → length memory < 2 ^ 31
      → go_asio_ipfs_add cancel_signal memory (length memory) pinned fn fn_arg s
        ≡ ret tt (
            requested s n node cancel_signal
              (Task.add n (s.next_mark ∷ node.ctx) memory pinned fn fn_arg))
  unfolding go_asio_ipfs_add
  go_asio_ipfs_add_lem s n node cancel_signal memory pinned fn fn_arg g h small =
      ground (arith, c_int_small (length memory) small, take_all memory)

  pub go_asio_ipfs_calc_cid_lem :
      (s : System W) (n : ℕ) (node : Node) (cancel_signal : ℕ) (memory : Bytes) (fn fn_arg : ℕ)
      → s.g_node ≡ some n
      → get_elem? s.heap n ≡ some node
      → length memory < 2 ^ 31
      → go_asio_ipfs_calc_cid cancel_signal memory (length memory) fn fn_arg s
        ≡ ret tt (
            requested s n node cancel_signal
              (Task.calc_cid n (s.next_mark ∷ node.ctx) memory fn fn_arg))
  unfolding go_asio_ipfs_calc_cid
  go_asio_ipfs_calc_cid_lem s n node cancel_signal memory fn fn_arg g h small =
      ground (arith, c_int_small (length memory) small, take_all memory)

  -- A buffer of 2 GiB or more, up to 4 GiB, panics in both requests that copy a buffer.
  pub add_large_panics :
      (s : System W) (n cancel_signal size : ℕ) (memory : Bytes) (pinned : Bool) (fn fn_arg : ℕ)
      → s.g_node ≡ some n
      → 2 ^ 31 ≤ size
      → size < 2 ^ 32
      → (go_asio_ipfs_add cancel_signal memory size pinned fn fn_arg s ≡ panicked go_bytes_length)
        × (go_asio_ipfs_calc_cid cancel_signal memory size fn fn_arg s ≡ panicked go_bytes_length)
  unfolding go_asio_ipfs_add go_asio_ipfs_calc_cid
  add_large_panics s n cancel_signal size memory pinned fn fn_arg g low high =
      (ground (arith, c_int_negative size low high), ground (arith, c_int_negative size low high))

  -- Of a buffer of 4 GiB and `size` more bytes, less than 2 GiB more, only the first `size` bytes
  -- are added.
  pub add_huge_truncates :
      (s : System W) (n : ℕ) (node : Node) (cancel_signal size : ℕ) (memory : Bytes) (pinned : Bool)
      (fn fn_arg : ℕ)
      → s.g_node ≡ some n
      → get_elem? s.heap n ≡ some node
      → size < 2 ^ 31
      → go_asio_ipfs_add cancel_signal memory (size + 2 ^ 32) pinned fn fn_arg s
        ≡ ret tt (
            requested s n node cancel_signal
              (Task.add n (s.next_mark ∷ node.ctx) (take size memory) pinned fn fn_arg))
  unfolding go_asio_ipfs_add
  add_huge_truncates s n node cancel_signal size memory pinned fn fn_arg g h small =
      ground (arith, c_int_wrapped size small)
