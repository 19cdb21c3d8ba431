-- ===== src/Log.antt =====
-- src/ipfs_bindings/ipfs_log.go, and `executeLogCB` of ipfs_bindings.go: where log lines go.
pub mod Laws
use asio_ipfs.Base.{
  ℕ, ◌==◌, if◌then◌else◌, Bool, true, false, Option, none, some, List, [], ◌∷◌, Bytes, length, Out,
  ret, panicked, log_cb_nil, slice_bounds, ◌+◌, remove,
}

pub data Output : Type 0 where
  stderr : Output
  custom : ℕ → Output

-- The standard logger, as far as this code sets it: the flags `Ldate` and `Ltime`, and the writer.
pub record Logger : Type 0 where
  pub with_date : Bool
  pub with_time : Bool
  pub output : Output

restore_stderr : Logger → Logger
restore_stderr l = record l { with_date = true; with_time = true; output = stderr }

-- There is no return after the branch for a nil callback.
unfoldable pub go_asio_ipfs_redirect_logs : ℕ → Logger → Logger
unfolding restore_stderr
go_asio_ipfs_redirect_logs log_cb l =
    let l' = if log_cb == 0 then restore_stderr l else l in
    record l' { with_date = false; with_time = false; output = custom log_cb }

-- `data[:len(data) - 1]`, which panics for no data.
unfoldable pub drop_last : Bytes → Option Bytes
drop_last [] = none
drop_last (b ∷ []) = some []
drop_last (b ∷ c ∷ bs) = elim (drop_last (c ∷ bs)) [ none ↦ none | some r ↦ some (b ∷ r) ]

-- A call of a log callback with the text that it is given.
abbrev pub LogCall : Type 0
LogCall = ℕ × Bytes

-- The calls of the log callback, the latest first, and the memory made for C: the next pointer, and
-- the pointers that are not freed.
pub record LogState : Type 0 where
  pub calls : List LogCall
  pub next_ptr : ℕ
  pub c_live : List ℕ

-- `C.CString`
log_alloc : LogState → LogState
log_alloc s = record s { next_ptr = s.next_ptr + 1; c_live = s.next_ptr ∷ s.c_live }

-- `C.free`
log_free : ℕ → LogState → LogState
log_free ptr s = record s { c_live = remove ptr s.c_live }

-- `C.execute_log_cb`
log_call : ℕ → Bytes → LogState → LogState
log_call fn text s = record s { calls = (fn, text) ∷ s.calls }

-- The copy of the text is freed after the call.
unfoldable pub execute_log_cb : ℕ → Bytes → LogState → Out ⊥ LogState (Unit {0})
unfolding log_alloc log_call log_free
execute_log_cb fn bytes s = elim (drop_last bytes) [
  | none ↦ panicked slice_bounds
  | some text ↦ ret tt (log_free s.next_ptr (log_call fn text (log_alloc s)))
]

-- `CustomLog.Write`; what is written to stderr is not modelled.
unfoldable pub write : Output → Bytes → LogState → Out ⊥ LogState ℕ
unfolding execute_log_cb
write stderr bytes s = ret (length bytes) s
write (custom log_cb) bytes s =
    if log_cb == 0 then panicked log_cb_nil else elim (execute_log_cb log_cb bytes s) [
      | ret u t ↦ ret (length bytes) t
      | panicked p ↦ panicked p
      | Out.throw e t ↦ absurd e
    ]
