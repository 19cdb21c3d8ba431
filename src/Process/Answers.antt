-- ===== src/Process/Answers.antt =====
-- A start and the requests that follow it.
use asio_ipfs.Base.{
  ℕ, ℤ, ◌≡◌, inl, inr, String, Bool, Bytes, none, some, length, Out, ret, throw, panicked, Ends,
  Returns, ◌⊎◌, get_elem?,
}
use asio_ipfs.Codes.{Code, success, add_failed, calc_cid_failed}
use asio_ipfs.Config.{Handle}
use asio_ipfs.World.{Context, Libraries, AddOption}
use asio_ipfs.System.{System, Node}
use asio_ipfs.Requests.Bodies.{
  run_publish, run_calc_cid, run_add, run_cat, run_pin, run_unpin, run_gc,
}
use asio_ipfs.Requests.Bodies.Answers.{
  AnswersAdd, AnswersCat, AnswersPublish, AnswersPin, AnswersUnpin, AnswersGc, data_requests_answer,
  void_requests_answer,
}
use asio_ipfs.Start.{go_asio_ipfs_start_blocking}
use asio_ipfs.Start.Errors.{IsStartFailure}
use asio_ipfs.Start.Ready.{Holds, IsComplete, start_ready}

module _ {W : Type 0} (x : Libraries W) where
  -- The node at `n` is built and has its API, and every request's goroutine, with any arguments,
  -- answers once with what the libraries reply.
  abbrev pub AnswersAll : ℕ → System W → Type 0
  AnswersAll n t =
      (h : Handle) × (api : Handle) × (node : Node) × (get_elem? t.heap n ≡ some node)
      × (node.node ≡ some h)
      × (node.api ≡ some api)
      × ((ctx : Context) (msg : Bytes) (cid : String) (pinned : Bool) (seconds : ℤ) (fn fn_arg : ℕ)
          → Returns (λ _. AnswersAdd x api ctx msg (AddOption.pin pinned) add_failed fn fn_arg t)
              (run_add x n ctx msg pinned fn fn_arg t)
            × Returns
                (λ _. AnswersAdd x api ctx msg AddOption.hash_only calc_cid_failed fn fn_arg t)
                (run_calc_cid x n ctx msg fn fn_arg t)
            × Returns (λ _. AnswersCat x api ctx cid fn fn_arg t) (run_cat x n ctx cid fn fn_arg t)
            × Returns (λ _. AnswersPublish x h ctx cid seconds fn fn_arg t)
                (run_publish x n ctx cid seconds fn fn_arg t)
            × Returns (λ _. AnswersPin x api ctx cid fn fn_arg t) (run_pin x n ctx cid fn fn_arg t)
            × Returns (λ _. AnswersUnpin x api ctx cid fn fn_arg t)
                (run_unpin x n ctx cid fn fn_arg t)
            × Returns (λ _. AnswersGc x h ctx fn fn_arg t) (run_gc x n ctx fn fn_arg t))

  complete_answers : (n : ℕ) (t : System W) → IsComplete x n t → AnswersAll n t
  unfolding Holds
  complete_answers n t (h, a, (node, found, (built, collected, api))) = (
    h,
    a,
    node,
    found,
    built,
    api,
    λ ctx msg cid pinned seconds fn fn_arg.
        let (added, hashed, read) =
          data_requests_answer x t n node a ctx msg cid pinned fn fn_arg found api in
        let (published, pinned', unpinned, collected') =
          void_requests_answer x t n node a h ctx cid seconds fn fn_arg found api built in
        (added, hashed, read, published, pinned', unpinned, collected'),
  )

  started_answers :
      (n : ℕ) (o : Out ⊥ (System W) Code)
      → Ends
          (λ code t.
            ((code ≡ success) × (t.g_node ≡ some n) × IsComplete x n t) ⊎ IsStartFailure code)
          (λ t. ⊥)
          o
      → Ends (λ code t. ((code ≡ success) × AnswersAll n t) ⊎ IsStartFailure code) (λ t. ⊥) o
  started_answers n (ret code t) (inl (ok, linked, complete)) =
      inl (ok, complete_answers n t complete)
  started_answers n (ret code t) (inr failure) = inr failure
  started_answers n (throw e t) h = h
  started_answers n (panicked p) h = tt

  -- A start that found no node and returns has failed with the code of one of its steps, or it has
  -- succeeded, and then the new node is built and has its API, and the goroutine of each request to
  -- it, run in the state that the start left, returns and makes one call of its callback, whatever
  -- the libraries answer: with success, and the bytes of the library's reply where the request
  -- asks for data, or with the request's own failure and no data if the library's reply is an
  -- error, a path does not parse, or no file is found. It leaves no memory behind.
  pub start_then_answers :
      (s : System W) (cfg repo_root : String) (state_cb state_cb_arg : ℕ)
      → s.g_node ≡ none
      → Ends
          (λ code t. ((code ≡ success) × AnswersAll (length s.heap) t) ⊎ IsStartFailure code)
          (λ t. ⊥)
          (go_asio_ipfs_start_blocking x cfg repo_root state_cb state_cb_arg s)
  start_then_answers s cfg repo_root state_cb state_cb_arg h =
      started_answers (length s.heap) _ (start_ready x s cfg repo_root state_cb state_cb_arg h)
