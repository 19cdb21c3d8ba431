-- ===== src/Tasks/Laws.antt =====
-- A request and the goroutine that it starts, which runs at any later time.
use asio_ipfs.Base.{
  ℕ, ◌^◌, ◌<◌, ◌≡◌, refl, Bool, none, some, [], ◌∷◌, ◌++◌, arith, Bytes, length, get_elem?, Out,
  ret, Returns, String, ℤ,
}
use asio_ipfs.Codes.{no_node, add_failed, calc_cid_failed}
use asio_ipfs.Config.{Handle}
use asio_ipfs.World.{Context, Libraries, AddOption}
use asio_ipfs.System.{System, Node, Task, Action, Callback, void_cb, data_cb, execute}
use asio_ipfs.Requests.{
  go_asio_ipfs_publish, go_asio_ipfs_calc_cid, go_asio_ipfs_add, go_asio_ipfs_cat, go_asio_ipfs_pin,
  go_asio_ipfs_unpin, go_asio_ipfs_gc,
}
use asio_ipfs.Requests.Laws.{
  requested, request_lem, go_asio_ipfs_add_lem, go_asio_ipfs_calc_cid_lem,
}
use asio_ipfs.Requests.Bodies.Answers.{
  AnswersAdd, AnswersCat, AnswersPublish, AnswersPin, AnswersUnpin, AnswersGc, data_requests_answer,
  void_requests_answer,
}
use asio_ipfs.Tasks.{body_of}

module _ {W : Type 0} (x : Libraries W) where
  -- A call that ended in `o` started one goroutine, after which the state is `after` of it, and
  -- whenever it runs, its body ends as `P` says of the state that it runs in.
  abbrev pub StartsTask :
      (Task → System W)
      → (System W → Out ⊥ (System W) (Unit {0}) → Type 0)
      → Out ⊥ (System W) (Unit {0})
      → Type 0
  StartsTask after P o =
      (task : Task) × (body : Action W (Unit {0})) × (o ≡ ret tt (after task))
      × (body_of x task ≡ some body)
      × ((later : System W) → P later (body later))

  -- The goroutine makes the call `c` into C and nothing else.
  abbrev pub OnlyCalls : Callback → System W → Out ⊥ (System W) (Unit {0}) → Type 0
  OnlyCalls c later o = o ≡ ret tt (record later { calls = c ∷ later.calls })

  -- The call `m`, made in `s`, starts a goroutine and changes nothing else; the goroutine, run at
  -- any later time, makes the call `c` into C and nothing else.
  abbrev pub Refuses : System W → Action W (Unit {0}) → Callback → Type 0
  Refuses s m c =
      StartsTask (λ task. record s { tasks = s.tasks ++ (task ∷ []) }) (OnlyCalls c) (m s)

  -- Run in a state where the node `n` is built as `h` and has the API `api`, it returns and has done
  -- what `P` says.
  abbrev pub AnswersOn :
      ℕ
      → Handle
      → Handle
      → (System W → System W → Type 0)
      → System W
      → Out ⊥ (System W) (Unit {0})
      → Type 0
  AnswersOn n h api P later o =
      (node : Node)
      → get_elem? later.heap n ≡ some node
      → node.node ≡ some h
      → node.api ≡ some api
      → Returns (λ _. P later) o

  -- The call `m`, made in `s`, registers a fresh context of `node` under the signal, starts a
  -- goroutine and changes nothing else; the goroutine answers as `P` says.
  abbrev pub Serves :
      System W
      → ℕ
      → Node
      → ℕ
      → Handle
      → Handle
      → Action W (Unit {0})
      → (System W → System W → Type 0)
      → Type 0
  Serves s n node cancel_signal h api m P =
      StartsTask (requested s n node cancel_signal) (AnswersOn n h api P) (m s)

  -- With no node, each request returns, having only started a goroutine, which makes one call into
  -- C, whenever it runs, and does nothing else: the callback with `IPFS_NO_NODE`, the void callback
  -- for publish, pin, unpin and gc, and the data callback, with no data, for the others.
  pub requests_refused :
      (s : System W) (cancel_signal : ℕ) (cid : String) (seconds : ℤ) (memory : Bytes) (size : ℕ)
      (pinned : Bool) (fn fn_arg : ℕ)
      → s.g_node ≡ none
      → let void = void_cb fn no_node fn_arg in
        let answer = data_cb fn no_node none 0 fn_arg in
        Refuses s (go_asio_ipfs_publish cancel_signal cid seconds fn fn_arg) void
        × Refuses s (go_asio_ipfs_pin cancel_signal cid fn fn_arg) void
        × Refuses s (go_asio_ipfs_unpin cancel_signal cid fn fn_arg) void
        × Refuses s (go_asio_ipfs_gc cancel_signal fn fn_arg) void
        × Refuses s (go_asio_ipfs_calc_cid cancel_signal memory size fn fn_arg) answer
        × Refuses s (go_asio_ipfs_add cancel_signal memory size pinned fn fn_arg) answer
        × Refuses s (go_asio_ipfs_cat cancel_signal cid fn fn_arg) answer
  unfolding go_asio_ipfs_publish go_asio_ipfs_cat go_asio_ipfs_pin go_asio_ipfs_unpin
      go_asio_ipfs_gc go_asio_ipfs_calc_cid go_asio_ipfs_add body_of execute
  requests_refused s cancel_signal cid seconds memory size pinned fn fn_arg g =
      let void = Task.void_reply fn no_node fn_arg in
      let answer = Task.data_reply fn no_node fn_arg in
      (
        (void, _, ground arith, refl, λ later. refl),
        (void, _, ground arith, refl, λ later. refl),
        (void, _, ground arith, refl, λ later. refl),
        (void, _, ground arith, refl, λ later. refl),
        (answer, _, ground arith, refl, λ later. refl),
        (answer, _, ground arith, refl, λ later. refl),
        (answer, _, ground arith, refl, λ later. refl),
      )

  -- Each request to a node, with a buffer below 2 GiB where it passes one, returns, having
  -- registered a fresh context of the node under its signal and started one goroutine, and nothing
  -- else. Whenever the goroutine runs, in a state where that node is built and has its API, it asks
  -- the libraries for what the request asked for, under that context, and answers C with their
  -- reply.
  pub requests_answer :
      (s : System W) (n : ℕ) (node : Node) (h api : Handle) (cancel_signal : ℕ) (cid : String)
      (seconds : ℤ) (memory : Bytes) (pinned : Bool) (fn fn_arg : ℕ)
      → s.g_node ≡ some n
      → get_elem? s.heap n ≡ some node
      → length memory < 2 ^ 31
      → let ctx : Context = s.next_mark ∷ node.ctx in
        let size = length memory in
        Serves s n node cancel_signal h api
          (go_asio_ipfs_publish cancel_signal cid seconds fn fn_arg)
          (AnswersPublish x h ctx cid seconds fn fn_arg)
        × Serves s n node cancel_signal h api
            (go_asio_ipfs_pin cancel_signal cid fn fn_arg)
            (AnswersPin x api ctx cid fn fn_arg)
        × Serves s n node cancel_signal h api
            (go_asio_ipfs_unpin cancel_signal cid fn fn_arg)
            (AnswersUnpin x api ctx cid fn fn_arg)
        × Serves s n node cancel_signal h api
            (go_asio_ipfs_gc cancel_signal fn fn_arg)
            (AnswersGc x h ctx fn fn_arg)
        × Serves s n node cancel_signal h api
            (go_asio_ipfs_calc_cid cancel_signal memory size fn fn_arg)
            (AnswersAdd x api ctx memory AddOption.hash_only calc_cid_failed fn fn_arg)
        × Serves s n node cancel_signal h api
            (go_asio_ipfs_add cancel_signal memory size pinned fn fn_arg)
            (AnswersAdd x api ctx memory (AddOption.pin pinned) add_failed fn fn_arg)
        × Serves s n node cancel_signal h api
            (go_asio_ipfs_cat cancel_signal cid fn fn_arg)
            (AnswersCat x api ctx cid fn fn_arg)
  unfolding go_asio_ipfs_publish go_asio_ipfs_cat go_asio_ipfs_pin go_asio_ipfs_unpin
      go_asio_ipfs_gc body_of
  requests_answer s n node h api cancel_signal cid seconds memory pinned fn fn_arg g found small =
      let ctx : Context = s.next_mark ∷ node.ctx in
      (
        (
          _,
          _,
          request_lem s n node _ cancel_signal _ g found,
          refl,
          λ later held there built set.
              (void_requests_answer x later n held api h ctx cid seconds fn fn_arg there set
                built).0,
        ),
        (
          _,
          _,
          request_lem s n node _ cancel_signal _ g found,
          refl,
          λ later held there built set.
              (void_requests_answer x later n held api h ctx cid seconds fn fn_arg there set
                built).1,
        ),
        (
          _,
          _,
          request_lem s n node _ cancel_signal _ g found,
          refl,
          λ later held there built set.
              (void_requests_answer x later n held api h ctx cid seconds fn fn_arg there set
                built).2,
        ),
        (
          _,
          _,
          request_lem s n node _ cancel_signal _ g found,
          refl,
          λ later held there built set.
              (void_requests_answer x later n held api h ctx cid seconds fn fn_arg there set
                built).3,
        ),
        (
          _,
          _,
          go_asio_ipfs_calc_cid_lem s n node cancel_signal memory fn fn_arg g found small,
          refl,
          λ later held there built set.
              (data_requests_answer x later n held api ctx memory cid pinned fn fn_arg there set).1,
        ),
        (
          _,
          _,
          go_asio_ipfs_add_lem s n node cancel_signal memory pinned fn fn_arg g found small,
          refl,
          λ later held there built set.
              (data_requests_answer x later n held api ctx memory cid pinned fn fn_arg there set).0,
        ),
        (
          _,
          _,
          request_lem s n node _ cancel_signal _ g found,
          refl,
          λ later held there built set.
              (data_requests_answer x later n held api ctx memory cid pinned fn fn_arg there set).2,
        ),
      )
