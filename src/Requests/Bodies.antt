-- ===== src/Requests/Bodies.antt =====
-- src/ipfs_bindings/ipfs_bindings.go and ipfs_gc.go: the bodies of the goroutines that serve the
-- requests. A body runs to its end in one step.
pub mod Answers
use asio_ipfs.Base.{
  ℕ, ◌+◌, ◌-◌, ◌*◌, ◌%◌, ◌^◌, ltb, ℤ, pos, negsuc, String, Bool, Option, none, some, Bytes, length,
  Result, good, bad, ◌>>=◌, ◌>>◌, pure, if◌then◌else◌,
}
use asio_ipfs.Config.{Handle}
use asio_ipfs.Codes.{
  Code, success, add_failed, cat_failed, read_failed, publish_failed, pin_failed, unpin_failed,
  gc_failed, calc_cid_failed,
}
use asio_ipfs.World
use asio_ipfs.World.{Context, Libraries, FileNode, file, directory, other_node, AddOption}
use asio_ipfs.System.{
  Action, gets, load, execute, c_alloc, c_free, deref, perform, is_done, void_cb, data_cb,
}

-- The integer that the low 64 bits of a number stand for.
pub int64_of : ℕ → ℤ
int64_of m = if ltb m (2 ^ 63) then pos m else negsuc (2 ^ 64 - 1 - m)

-- `time.Duration(seconds) * time.Second`, in nanoseconds, with the wrap-around of an `int64`.
unfoldable pub duration : ℤ → ℤ
unfolding int64_of
duration (pos n) = int64_of (n * 1000000000 % 2 ^ 64)
duration (negsuc n) = int64_of ((2 ^ 64 - (n + 1) * 1000000000 % 2 ^ 64) % 2 ^ 64)

-- The code with which a void callback answers.
abbrev pub code_of {α} : {A : Type α} → Result String A → Code → Code
code_of (good a) failure = success
code_of (bad e) failure = failure

module _ {W : Type 0} (x : Libraries W) where
  -- `n.api`, which panics while it is nil.
  pub api_of : ℕ → Action W Handle
  unfolding ◌>>=◌
  api_of n = do node ← load n; deref node.api

  -- A failure of a request that answers with data.
  pub refuse : ℕ → Code → ℕ → Action W (Unit {0})
  refuse fn code fn_arg = execute (data_cb fn code none 0 fn_arg)

  -- `cdata := C.CBytes(data); defer C.free(cdata)` around the callback.
  pub answer_data : ℕ → ℕ → Bytes → Action W (Unit {0})
  unfolding ◌>>=◌
  answer_data fn fn_arg bytes = do
    cdata ← c_alloc
    execute (data_cb fn success (some bytes) (length bytes) fn_arg)
    c_free cdata

  publish_path : ℕ → Context → ℤ → Result String String → Action W (Result String (Unit {0}))
  unfolding ◌>>=◌
  publish_path n ctx seconds (bad e) = pure (bad e)
  publish_path n ctx seconds (good path) = do
    node ← load n
    ipfs_node ← deref node.node
    eol ← perform x (World.Op.now_plus (duration seconds))
    done ← gets (λ s. is_done s.cancelled ctx)
    perform x (World.Op.publish_with_eol ipfs_node ctx done path eol)

  publish_answer : ℕ → Context → ℤ → ℕ → ℕ → Result String String → Action W (Unit {0})
  unfolding ◌>>=◌
  publish_answer n ctx seconds fn fn_arg path = do
    r ← publish_path n ctx seconds path
    execute (void_cb fn (code_of r publish_failed) fn_arg)

  -- `publish` and the goroutine of `go_asio_ipfs_publish`.
  unfoldable pub run_publish : ℕ → Context → String → ℤ → ℕ → ℕ → Action W (Unit {0})
  unfolding publish_answer publish_path execute load perform
  run_publish n ctx cid seconds fn fn_arg =
      publish_answer n ctx seconds fn fn_arg (x.parse_cid_to_path cid)

  finish_add : ℕ → ℕ → Code → Result String Bytes → Action W (Unit {0})
  finish_add fn fn_arg failure (bad e) = refuse fn failure fn_arg
  finish_add fn fn_arg failure (good cid) = answer_data fn fn_arg cid

  add_with : ℕ → Context → Bytes → AddOption → Code → ℕ → ℕ → Action W (Unit {0})
  unfolding ◌>>=◌
  add_with n ctx msg option failure fn fn_arg = do
    api ← api_of n
    done ← gets (λ s. is_done s.cancelled ctx)
    p ← perform x (World.Op.unixfs_add api ctx done msg option)
    finish_add fn fn_arg failure p

  -- The second test of `err` after `p.Root()` can never hold, since `err` is nil there.
  unfoldable pub run_calc_cid : ℕ → Context → Bytes → ℕ → ℕ → Action W (Unit {0})
  unfolding add_with finish_add api_of refuse answer_data execute load c_alloc c_free perform
  run_calc_cid n ctx msg fn fn_arg =
      add_with n ctx msg World.AddOption.hash_only calc_cid_failed fn fn_arg

  unfoldable pub run_add : ℕ → Context → Bytes → Bool → ℕ → ℕ → Action W (Unit {0})
  unfolding add_with finish_add api_of refuse answer_data execute load c_alloc c_free perform
  run_add n ctx msg pinned fn fn_arg =
      add_with n ctx msg (World.AddOption.pin pinned) add_failed fn fn_arg

  finish_read : ℕ → ℕ → Result String Bytes → Action W (Unit {0})
  finish_read fn fn_arg (bad e) = refuse fn read_failed fn_arg
  finish_read fn fn_arg (good bytes) = answer_data fn fn_arg bytes

  -- The switch on the type of what was found.
  read_file : ℕ → ℕ → Result String FileNode → Action W (Unit {0})
  unfolding ◌>>=◌
  read_file fn fn_arg (bad e) = refuse fn cat_failed fn_arg
  read_file fn fn_arg (good (file f)) = do
    bytes ← perform x (World.Op.read_all f)
    finish_read fn fn_arg bytes
  read_file fn fn_arg (good directory) = refuse fn cat_failed fn_arg
  read_file fn fn_arg (good other_node) = refuse fn cat_failed fn_arg

  unfoldable pub run_cat : ℕ → Context → String → ℕ → ℕ → Action W (Unit {0})
  unfolding read_file finish_read api_of refuse answer_data execute load c_alloc c_free perform
      ◌>>=◌
  run_cat n ctx cid fn fn_arg = do
    api ← api_of n
    done ← gets (λ s. is_done s.cancelled ctx)
    f ← perform x (World.Op.unixfs_get api ctx done (x.new_path cid))
    read_file fn fn_arg f

  unfoldable pub run_pin : ℕ → Context → String → ℕ → ℕ → Action W (Unit {0})
  unfolding api_of execute load perform ◌>>=◌
  run_pin n ctx cid fn fn_arg = do
    api ← api_of n
    done ← gets (λ s. is_done s.cancelled ctx)
    r ← perform x (World.Op.pin_add api ctx done (x.new_path cid))
    execute (void_cb fn (code_of r pin_failed) fn_arg)

  unfoldable pub run_unpin : ℕ → Context → String → ℕ → ℕ → Action W (Unit {0})
  unfolding api_of execute load perform ◌>>=◌
  run_unpin n ctx cid fn fn_arg = do
    api ← api_of n
    done ← gets (λ s. is_done s.cancelled ctx)
    r ← perform x (World.Op.pin_rm api ctx done (x.new_path cid))
    execute (void_cb fn (code_of r unpin_failed) fn_arg)

  collect : Option Handle → Context → Action W (Result String (Unit {0}))
  unfolding ◌>>=◌
  collect node ctx = do
    ipfs_node ← deref node
    done ← gets (λ s. is_done s.cancelled ctx)
    perform x (World.Op.collect_garbage ipfs_node ctx done)

  unfoldable pub run_gc : ℕ → Context → ℕ → ℕ → Action W (Unit {0})
  unfolding collect execute load perform ◌>>=◌
  run_gc n ctx fn fn_arg = do
    node ← load n
    r ← collect node.node ctx
    execute (void_cb fn (code_of r gc_failed) fn_arg)
