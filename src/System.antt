-- ===== src/System.antt =====
-- src/ipfs_bindings/ipfs_node.go: `Node`, the package's variables, and what else the process
-- holds: contexts, memory handed to C, goroutines that wait to run, and the calls made into C.
pub mod Stable
use asio_ipfs.Base.{
  ℕ, ◌+◌, String, Bool, false, ◌||◌, Option, none, some, List, [], ◌∷◌, ◌++◌, Bytes, ret, panicked,
  Go, nil_pointer, ℤ, get_elem?, modify, contains, remove,
}
use asio_ipfs.Config.{Handle}
use asio_ipfs.Codes.{Code}
use asio_ipfs.World.{Context, CommandContext, Op, Reply, Call, Libraries}

-- `cancel` is the mark that `n.cancel` cancels.
pub record Node : Type 0 where
  pub ctx : Context
  pub cctx : Option CommandContext
  pub node : Option Handle
  pub api : Option Handle
  pub collector : Option Handle
  pub cancel : ℕ
  pub next_cancel_signal_id : ℕ
  pub cancel_signals : List (ℕ × ℕ)
  pub state_cb : ℕ
  pub state_cb_arg : ℕ

-- `corehttp.ServeOption`
pub data ServeOption : Type 0 where
  metrics_collection default_mux mutex_fraction metrics_scraping : String → ServeOption
  open_census check_version version_option log_option hostname p2p_proxy : ServeOption
  commands commands_ro : CommandContext → ServeOption
  gateway_option : Bool → List String → ServeOption
  redirect : String → String → ServeOption

-- The body of a `go func() { … }()` with the variables that it captures. A node is captured as a
-- pointer, an index of the heap.
pub data Task : Type 0 where
  void_reply data_reply : ℕ → Code → ℕ → Task
  publish : ℕ → Context → String → ℤ → ℕ → ℕ → Task
  calc_cid : ℕ → Context → Bytes → ℕ → ℕ → Task
  add : ℕ → Context → Bytes → Bool → ℕ → ℕ → Task
  cat pin unpin : ℕ → Context → String → ℕ → ℕ → Task
  gc : ℕ → Context → ℕ → ℕ → Task
  start : ℕ → String → String → ℕ → ℕ → Task
  periodic_gc : ℕ → ℕ → Task
  serve : ℕ → Handle → Handle → List ServeOption → Task
  close_when_served : ℕ → ℕ → Task
  monitor : ℕ → Option ℕ → Option ℕ → Option ℕ → Task

-- A call of a function pointer that C passed in, with its arguments. The data is what the pointer
-- argument points to.
pub data Callback : Type 0 where
  void_cb : ℕ → Code → ℕ → Callback
  data_cb : ℕ → Code → Option Bytes → ℕ → ℕ → Callback
  state_change : ℕ → ℕ → Option String → ℕ → Callback

-- `heap` holds the nodes that were allocated, and `g_node` is a pointer into it. `trace` lists the
-- calls of libraries with their answers, the latest first, and `calls` the calls into C likewise.
pub record System (W : Type 0) : Type 0 where
  pub world : W
  pub trace : List Call
  pub mprome_injected : Bool
  pub mprome_metrics : Bool
  pub plugins_injected : Bool
  pub g_node : Option ℕ
  pub heap : List Node
  pub next_mark : ℕ
  pub cancelled : List ℕ
  pub next_chan : ℕ
  pub tasks : List Task
  pub calls : List Callback
  pub next_ptr : ℕ
  pub c_live : List ℕ

-- The process before the first call.
abbrev pub initial : {W : Type 0} → W → System W
initial w = record {
  world = w;
  trace = [];
  mprome_injected = false;
  mprome_metrics = false;
  plugins_injected = false;
  g_node = none;
  heap = [];
  next_mark = 0;
  cancelled = [];
  next_chan = 0;
  tasks = [];
  calls = [];
  next_ptr = 1;
  c_live = [];
}

-- What returns no `error` and can only panic.
abbrev pub Action : Type 0 → Type 0 → Type 0
Action W A = Go ⊥ (System W) A

-- What may return an `error`.
abbrev pub Fallible : Type 0 → Type 0 → Type 0
Fallible W A = Go String (System W) A

-- `ctx.Err() != nil`
abbrev pub is_done : List ℕ → Context → Bool
is_done cancelled [] = false
is_done cancelled (mark ∷ ctx) = contains cancelled mark || is_done cancelled ctx

module _ {W : Type 0} {E : Type 0} where
  abbrev pub gets {α} : {A : Type α} → (System W → A) → Go E (System W) A
  gets f s = ret (f s) s

  abbrev pub update : (System W → System W) → Go E (System W) (Unit {0})
  update f s = ret tt (f s)

  -- A nil interface or pointer panics when it is used.
  abbrev pub deref {α} : {A : Type α} → Option A → Go E (System W) A
  deref none s = panicked nil_pointer
  deref (some a) s = ret a s

  -- `n.…`, read through the pointer.
  unfoldable pub load : ℕ → Go E (System W) Node
  load n s = deref (get_elem? s.heap n) s

  -- `n.… = …`
  unfoldable pub store : ℕ → (Node → Node) → Go E (System W) (Unit {0})
  store n f s = ret tt (record s { heap = modify s.heap n f })

  -- `go func() { … }()`
  unfoldable pub spawn : Task → Go E (System W) (Unit {0})
  spawn t s = ret tt (record s { tasks = s.tasks ++ (t ∷ []) })

  -- `C.execute_void_cb`, `C.execute_data_cb`, `C.execute_state_cb`
  unfoldable pub execute : Callback → Go E (System W) (Unit {0})
  execute c s = ret tt (record s { calls = c ∷ s.calls })

  -- `make(chan error)`
  unfoldable pub make_chan : Go E (System W) ℕ
  make_chan s = ret s.next_chan (record s { next_chan = s.next_chan + 1 })

  -- `context.WithCancel(parent)`: the context, and the mark that its cancel function cancels.
  unfoldable pub with_cancel_of : Context → Go E (System W) (Context × ℕ)
  with_cancel_of parent s =
      ret (s.next_mark ∷ parent, s.next_mark) (record s { next_mark = s.next_mark + 1 })

  -- The call of a context's cancel function.
  unfoldable pub cancel_mark : ℕ → Go E (System W) (Unit {0})
  cancel_mark mark s = ret tt (record s { cancelled = mark ∷ s.cancelled })

  -- `C.CBytes`, `C.CString`: a pointer that is not nil.
  unfoldable pub c_alloc : Go E (System W) ℕ
  c_alloc s =
      ret s.next_ptr (record s { next_ptr = s.next_ptr + 1; c_live = s.next_ptr ∷ s.c_live })

  -- `C.free`
  unfoldable pub c_free : ℕ → Go E (System W) (Unit {0})
  c_free ptr s = ret tt (record s { c_live = remove ptr s.c_live })

module _ {W : Type 0} (x : Libraries W) {E : Type 0} where
  -- A call of a library: the world answers, and the trace grows.
  unfoldable pub perform : (op : Op) → Go E (System W) (Reply op)
  perform op s =
      let (r, w) = x.answer op s.world in ret r (record s { world = w; trace = (op, r) ∷ s.trace })
