-- ===== src/Tasks.antt =====
-- The goroutines of src/ipfs_bindings: what runs when a task that an exported function started gets
-- its turn.
pub mod Laws
pub mod Starts
use asio_ipfs.Base.{Option, none, some}
use asio_ipfs.World.{Libraries}
use asio_ipfs.System.{Task, Action, execute, void_cb, data_cb}
use asio_ipfs.Requests.Bodies.{
  run_publish, run_calc_cid, run_add, run_cat, run_pin, run_unpin, run_gc,
}
use asio_ipfs.Start.{run_start}

-- The body of a goroutine that an exported function started. The goroutines that a start makes, the
-- servers, the GC and the monitor, do not run in one step and have none here.
unfoldable pub body_of : {W : Type 0} → Libraries W → Task → Option (Action W (Unit {0}))
body_of x (Task.void_reply fn code fn_arg) = some (execute (void_cb fn code fn_arg))
body_of x (Task.data_reply fn code fn_arg) = some (execute (data_cb fn code none 0 fn_arg))
body_of x (Task.publish n ctx cid seconds fn fn_arg) =
    some (run_publish x n ctx cid seconds fn fn_arg)
body_of x (Task.calc_cid n ctx msg fn fn_arg) = some (run_calc_cid x n ctx msg fn fn_arg)
body_of x (Task.add n ctx msg pinned fn fn_arg) = some (run_add x n ctx msg pinned fn fn_arg)
body_of x (Task.cat n ctx cid fn fn_arg) = some (run_cat x n ctx cid fn fn_arg)
body_of x (Task.pin n ctx cid fn fn_arg) = some (run_pin x n ctx cid fn fn_arg)
body_of x (Task.unpin n ctx cid fn fn_arg) = some (run_unpin x n ctx cid fn fn_arg)
body_of x (Task.gc n ctx fn fn_arg) = some (run_gc x n ctx fn fn_arg)
body_of x (Task.start n cfg repo_root fn fn_arg) = some (run_start x n cfg repo_root fn fn_arg)
body_of x _ = none
