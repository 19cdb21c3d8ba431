-- ===== src/Tasks/Starts.antt =====
-- The start whose code goes to a callback.
use asio_ipfs.Base.{
  ℕ, ◌+◌, length-append, ◌≡◌, refl, ◌⊎◌, inl, inr, String, Option, none, some, [], ◌∷◌, ◌++◌,
  length, ◌>>=◌, and_then, Out, ret, List, throw, panicked, Ends, ThrowsOnly, Returns,
}
use asio_ipfs.Codes.{Code, success, node_exists}
use asio_ipfs.World.{Libraries}
use asio_ipfs.Tasks.{body_of}
use asio_ipfs.Tasks.Laws.{Refuses}
use asio_ipfs.System.{System, Action, Task, Callback, void_cb, execute, spawn}
use asio_ipfs.System.Stable.{Stable}
use asio_ipfs.Lifecycle.{allocate_node}
use asio_ipfs.Start.{
  code_out, start_steps, start_node, run_start, schedule_start, go_asio_ipfs_start_async,
}
use asio_ipfs.Start.Stable.{Keeps-start_node}
use asio_ipfs.Start.Errors.{IsStartFailure, Throws-start_steps}

module _ {W : Type 0} where
  -- A start calls no function of C itself.
  HasCalls-Stable : (cs : List Callback) → Stable {W = W} (λ s. s.calls ≡ cs)
  HasCalls-Stable cs = record {
    called = λ s op r w plain h. h;
    injection_refused = λ s op r w refused h. h;
    metrics_injected = λ s w flag h. h;
    plugins_injected = λ s l w flag h. h;
    spawned = λ s t h. h;
    chan_made = λ s h. h;
    info_registered = λ s h. h;
    mark_cancelled = λ s m h. h;
  }

  -- The code that `o`, a run of `start_node`, returned is what the callback is told, in one call into
  -- C, and it is success or the code of a step of a start.
  abbrev pub AnswersStart : Out ⊥ (System W) Code → ℕ → ℕ → System W → System W → Type 0
  AnswersStart o fn fn_arg s t =
      (code : Code) × (started : System W) × (o ≡ ret code started)
      × (t ≡ record started { calls = void_cb fn code fn_arg ∷ started.calls })
      × (started.calls ≡ s.calls)
      × ((code ≡ success) ⊎ IsStartFailure code)

module _ {W : Type 0} (x : Libraries W) where
  -- The run of `start_node` for the node at `n`, in a state, is what the goroutine ends as.
  abbrev pub RunsStart :
      ℕ → String → String → ℕ → ℕ → System W → Out ⊥ (System W) (Unit {0}) → Type 0
  RunsStart n cfg repo_root fn fn_arg later o =
      Ends (λ u. AnswersStart (start_node x cfg n repo_root later) fn fn_arg later) (λ t. ⊥) o

  -- What an asynchronous start owes to what it found in `g_node`.
  abbrev pub Schedules : Option ℕ → String → String → ℕ → ℕ → ℕ → ℕ → System W → Type 0
  Schedules (some n) cfg repo_root state_cb state_cb_arg fn fn_arg s =
      Refuses x s (go_asio_ipfs_start_async x cfg repo_root state_cb state_cb_arg fn fn_arg)
        (void_cb fn node_exists fn_arg)
  Schedules none cfg repo_root state_cb state_cb_arg fn fn_arg s =
      (task : Task) × (body : Action W (Unit {0})) × (body_of x task ≡ some body)
      × Returns
          (λ u t.
            (t.g_node ≡ some (length s.heap))
            × (length t.heap ≡ length s.heap + 1)
            × (t.tasks ≡ s.tasks ++ (task ∷ [])))
          (go_asio_ipfs_start_async x cfg repo_root state_cb state_cb_arg fn fn_arg s)
      × ((later : System W) → RunsStart (length s.heap) cfg repo_root fn fn_arg later (body later))

  answered_out :
      (fn fn_arg : ℕ) (s : System W) (o : Out Code (System W) (Unit {0}))
      → ThrowsOnly IsStartFailure o
      → Ends (λ code t. t.calls ≡ s.calls) (λ t. t.calls ≡ s.calls) (code_out x o)
      → Ends
          (λ u. AnswersStart (code_out x o) fn fn_arg s)
          (λ t. ⊥)
          (and_then (code_out x o) λ err. execute (void_cb fn err fn_arg))
  unfolding execute
  answered_out fn fn_arg s (ret u t) h k = (success, t, refl, refl, k, inl refl)
  answered_out fn fn_arg s (throw code t) h k = (code, t, refl, refl, k, inr h)
  answered_out fn fn_arg s (panicked p) h k = tt

  run_start_lem :
      (n : ℕ) (cfg repo_root : String) (fn fn_arg : ℕ) (later : System W)
      → RunsStart n cfg repo_root fn fn_arg later (run_start x n cfg repo_root fn fn_arg later)
  unfolding run_start start_node ◌>>=◌
  run_start_lem n cfg repo_root fn fn_arg later =
      answered_out fn fn_arg later (start_steps x cfg n repo_root later)
        ((Throws-start_steps x cfg n repo_root).at later)
        ((Keeps-start_node x (HasCalls-Stable later.calls) (λ t m f k. k) cfg n repo_root).at later
          refl)

  schedules_lem :
      (found : Option ℕ) (s : System W) (cfg repo_root : String)
      (state_cb state_cb_arg fn fn_arg : ℕ)
      → s.g_node ≡ found
      → Schedules found cfg repo_root state_cb state_cb_arg fn fn_arg s
  unfolding go_asio_ipfs_start_async allocate_node schedule_start spawn body_of execute ◌>>=◌
  schedules_lem (some n) s cfg repo_root state_cb state_cb_arg fn fn_arg h =
      (Task.void_reply fn node_exists fn_arg, _, rw h (refl), refl, λ later. refl)
  schedules_lem none s cfg repo_root state_cb state_cb_arg fn fn_arg h = (
    Task.start (length s.heap) cfg repo_root fn fn_arg,
    _,
    refl,
    rw h ((refl, length-append s.heap _, refl)),
    λ later. run_start_lem (length s.heap) cfg repo_root fn fn_arg later,
  )

  -- An asynchronous start returns at once, having started one goroutine. If there is a node, it
  -- changes nothing else, and the goroutine, run at any later time, calls the callback once with
  -- `IPFS_NODE_EXISTS` and does nothing else. If there is none, it adds a node to the heap, to which
  -- `g_node` is set, and the goroutine, run at any later time and unless it panics, runs
  -- `start_node` for that node and calls the callback once with the code that this returned, which
  -- is success or the code of a step of a start.
  pub async_start_answers :
      (s : System W) (cfg repo_root : String) (state_cb state_cb_arg fn fn_arg : ℕ)
      → Schedules s.g_node cfg repo_root state_cb state_cb_arg fn fn_arg s
  async_start_answers s cfg repo_root state_cb state_cb_arg fn fn_arg =
      schedules_lem s.g_node s cfg repo_root state_cb state_cb_arg fn fn_arg refl
