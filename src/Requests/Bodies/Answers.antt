-- ===== src/Requests/Bodies/Answers.antt =====
-- The goroutine of a request answers once, with what the libraries replied to it.
use asio_ipfs.Base.{
  ℕ, ◌≡◌, refl, Bool, none, some, List, [], ◌∷◌, ◌++◌, get_elem?, String, ℤ, Bytes, length, Returns,
  Result, good, bad, ==_refl,
}
use asio_ipfs.Codes.{
  Code, success, add_failed, cat_failed, read_failed, publish_failed, pin_failed, unpin_failed,
  gc_failed, calc_cid_failed,
}
use asio_ipfs.Config.{Handle}
use asio_ipfs.World
use asio_ipfs.World.{Context, Libraries, Call, Op, FileNode, file, directory, other_node, AddOption}
use asio_ipfs.System.{System, Node, Callback, void_cb, data_cb, perform, execute, is_done}
use asio_ipfs.Requests.Bodies.{
  duration, run_publish, run_calc_cid, run_add, run_cat, run_pin, run_unpin, run_gc, refuse,
  code_of, publish_answer, finish_add, finish_read, read_file,
}

-- From `s` to `t` the libraries were called as `made` lists, the latest first, and C once; no
-- memory that C could read is left over or freed, and no node is changed.
abbrev pub AnswersOnce : {W : Type 0} → List Call → Callback → System W → System W → Type 0
AnswersOnce made c s t =
    (t.trace ≡ made ++ s.trace)
    × (t.calls ≡ c ∷ s.calls)
    × (t.c_live ≡ s.c_live)
    × (t.heap ≡ s.heap)

-- What C is told of a reply: success with the data and its length, or the failure with no data.
abbrev pub data_answer : Code → ℕ → ℕ → Result String Bytes → Callback
data_answer failure fn fn_arg (good bytes) = data_cb fn success (some bytes) (length bytes) fn_arg
data_answer failure fn fn_arg (bad e) = data_cb fn failure none 0 fn_arg

abbrev pub void_answer : Code → ℕ → ℕ → Result String (Unit {0}) → Callback
void_answer failure fn fn_arg (good u) = void_cb fn success fn_arg
void_answer failure fn fn_arg (bad e) = void_cb fn failure fn_arg

module _ {W : Type 0} (x : Libraries W) where
  -- One call of `UnixfsAPI.Add` was made, and its reply is what C is told.
  abbrev pub AnswersAdd :
      Handle → Context → Bytes → AddOption → Code → ℕ → ℕ → System W → System W → Type 0
  AnswersAdd api ctx msg option failure fn fn_arg s t =
      let op = World.Op.unixfs_add api ctx (is_done s.cancelled ctx) msg option in
      let r : Result String Bytes = (x.answer op s.world).0 in
      AnswersOnce ((op, r) ∷ []) (data_answer failure fn fn_arg r) s t

  -- What `UnixfsAPI.Get` found was read, and what was read is what C is told; anything but a file
  -- is a failure.
  abbrev pub AnswersFound : ℕ → ℕ → Call → Result String FileNode → W → System W → System W → Type 0
  AnswersFound fn fn_arg got (good (file f)) w s t =
      let r : Result String Bytes = (x.answer (World.Op.read_all f) w).0 in
      AnswersOnce ((World.Op.read_all f, r) ∷ got ∷ []) (data_answer read_failed fn fn_arg r) s t
  AnswersFound fn fn_arg got (good directory) w s t =
      AnswersOnce (got ∷ []) (data_cb fn cat_failed none 0 fn_arg) s t
  AnswersFound fn fn_arg got (good other_node) w s t =
      AnswersOnce (got ∷ []) (data_cb fn cat_failed none 0 fn_arg) s t
  AnswersFound fn fn_arg got (bad e) w s t =
      AnswersOnce (got ∷ []) (data_cb fn cat_failed none 0 fn_arg) s t

  abbrev pub AnswersCat : Handle → Context → String → ℕ → ℕ → System W → System W → Type 0
  AnswersCat api ctx cid fn fn_arg s t =
      let op = World.Op.unixfs_get api ctx (is_done s.cancelled ctx) (x.new_path cid) in
      let r : Result String FileNode = (x.answer op s.world).0 in
      AnswersFound fn fn_arg (op, r) r (x.answer op s.world).1 s t

  abbrev pub AnswersPin : Handle → Context → String → ℕ → ℕ → System W → System W → Type 0
  AnswersPin api ctx cid fn fn_arg s t =
      let op = World.Op.pin_add api ctx (is_done s.cancelled ctx) (x.new_path cid) in
      let r : Result String (Unit {0}) = (x.answer op s.world).0 in
      AnswersOnce ((op, r) ∷ []) (void_answer pin_failed fn fn_arg r) s t

  abbrev pub AnswersUnpin : Handle → Context → String → ℕ → ℕ → System W → System W → Type 0
  AnswersUnpin api ctx cid fn fn_arg s t =
      let op = World.Op.pin_rm api ctx (is_done s.cancelled ctx) (x.new_path cid) in
      let r : Result String (Unit {0}) = (x.answer op s.world).0 in
      AnswersOnce ((op, r) ∷ []) (void_answer unpin_failed fn fn_arg r) s t

  abbrev pub AnswersGc : Handle → Context → ℕ → ℕ → System W → System W → Type 0
  AnswersGc h ctx fn fn_arg s t =
      let op = World.Op.collect_garbage h ctx (is_done s.cancelled ctx) in
      let r : Result String (Unit {0}) = (x.answer op s.world).0 in
      AnswersOnce ((op, r) ∷ []) (void_answer gc_failed fn fn_arg r) s t

  -- A path that does not parse is a failure with no call; another is published until the time that
  -- the clock gave.
  abbrev pub AnswersPath :
      Handle → Context → ℤ → ℕ → ℕ → Result String String → System W → System W → Type 0
  AnswersPath h ctx seconds fn fn_arg (bad e) s t =
      AnswersOnce [] (void_cb fn publish_failed fn_arg) s t
  AnswersPath h ctx seconds fn fn_arg (good path) s t =
      let now = World.Op.now_plus (duration seconds) in
      let eol : Handle = (x.answer now s.world).0 in
      let op = World.Op.publish_with_eol h ctx (is_done s.cancelled ctx) path eol in
      let r : Result String (Unit {0}) = (x.answer op (x.answer now s.world).1).0 in
      AnswersOnce ((op, r) ∷ (now, eol) ∷ []) (void_answer publish_failed fn fn_arg r) s t

  abbrev pub AnswersPublish : Handle → Context → String → ℤ → ℕ → ℕ → System W → System W → Type 0
  AnswersPublish h ctx cid seconds fn fn_arg s t =
      AnswersPath h ctx seconds fn fn_arg (x.parse_cid_to_path cid) s t

  data_lem :
      (fn fn_arg : ℕ) (failure : Code) (r : Result String Bytes) (s : System W)
      → Returns
          (λ _. AnswersOnce [] (data_answer failure fn fn_arg r) s)
          (finish_add x fn fn_arg failure r s)
  unfolding run_add
  data_lem fn fn_arg failure (bad e) s = (refl, refl, refl, refl)
  data_lem fn fn_arg failure (good bytes) s = (refl, refl, rw (==_refl s.next_ptr), refl)

  finish_read_lem :
      (fn fn_arg : ℕ) (r : Result String Bytes) (s : System W)
      → Returns
          (λ _. AnswersOnce [] (data_answer read_failed fn fn_arg r) s)
          (finish_read x fn fn_arg r s)
  unfolding run_cat
  finish_read_lem fn fn_arg (bad e) s = (refl, refl, refl, refl)
  finish_read_lem fn fn_arg (good bytes) s = (refl, refl, rw (==_refl s.next_ptr), refl)

  -- `s` is the state before the call that found `r`.
  read_file_lem :
      (fn fn_arg : ℕ) (got : Call) (r : Result String FileNode) (w : W) (s : System W)
      → Returns
          (λ _. AnswersFound fn fn_arg got r w s)
          (read_file x fn fn_arg r (record s { world = w; trace = got ∷ s.trace }))
  unfolding read_file perform refuse execute
  read_file_lem fn fn_arg got (bad e) w s = (refl, refl, refl, refl)
  read_file_lem fn fn_arg got (good directory) w s = (refl, refl, refl, refl)
  read_file_lem fn fn_arg got (good other_node) w s = (refl, refl, refl, refl)
  read_file_lem fn fn_arg got (good (file f)) w s = finish_read_lem fn fn_arg _ _

  void_lem :
      (fn fn_arg : ℕ) (failure : Code) (r : Result String (Unit {0})) (s : System W)
      → Returns
          (λ _. AnswersOnce [] (void_answer failure fn fn_arg r) s)
          (execute {E = ⊥} (void_cb fn (code_of r failure) fn_arg) s)
  unfolding execute
  void_lem fn fn_arg failure (good u) s = (refl, refl, refl, refl)
  void_lem fn fn_arg failure (bad e) s = (refl, refl, refl, refl)

  -- The goroutines of `add`, `calc_cid` and `cat`, on a node whose API exists and whatever the
  -- libraries answer, make the one call of the API that they are for, a `cat` that found a file
  -- reads it too, and call their data callback once: with success and the bytes of the last reply,
  -- or, if that is an error or what was found is no file, with the failure of that step and no
  -- data. They free what they allocated for C.
  pub data_requests_answer :
      (s : System W) (n : ℕ) (node : Node) (api : Handle) (ctx : Context) (msg : Bytes)
      (cid : String) (pinned : Bool) (fn fn_arg : ℕ)
      → get_elem? s.heap n ≡ some node
      → node.api ≡ some api
      → Returns
          (λ _. AnswersAdd api ctx msg (AddOption.pin pinned) add_failed fn fn_arg s)
          (run_add x n ctx msg pinned fn fn_arg s)
        × Returns
            (λ _. AnswersAdd api ctx msg AddOption.hash_only calc_cid_failed fn fn_arg s)
            (run_calc_cid x n ctx msg fn fn_arg s)
        × Returns (λ _. AnswersCat api ctx cid fn fn_arg s) (run_cat x n ctx cid fn fn_arg s)
  unfolding run_add run_calc_cid run_cat
  data_requests_answer s n node api ctx msg cid pinned fn fn_arg h a = (
    rw h (rw a (data_lem fn fn_arg add_failed _ _)),
    rw h (rw a (data_lem fn fn_arg calc_cid_failed _ _)),
    rw h (rw a (read_file_lem fn fn_arg _ _ _ s)),
  )

  publish_lem :
      (s : System W) (n : ℕ) (node : Node) (h : Handle) (ctx : Context) (seconds : ℤ)
      (fn fn_arg : ℕ) (path : Result String String)
      → get_elem? s.heap n ≡ some node
      → node.node ≡ some h
      → Returns
          (λ _. AnswersPath h ctx seconds fn fn_arg path s)
          (publish_answer x n ctx seconds fn fn_arg path s)
  unfolding run_publish
  publish_lem s n node h ctx seconds fn fn_arg (bad e) l a = (refl, refl, refl, refl)
  publish_lem s n node h ctx seconds fn fn_arg (good path) l a =
      rw l (rw a (void_lem fn fn_arg publish_failed _ (record s { trace = _ ∷ _ ∷ s.trace })))

  -- The goroutines of `publish`, `pin`, `unpin` and `gc`, on a started node and whatever the
  -- libraries answer, make the one call that they are for, after the clock's for `publish`, and
  -- call their void callback once: with success if the reply is nil, and with the request's own
  -- failure if it is an error. A `publish` of a path that does not parse makes no call and fails.
  pub void_requests_answer :
      (s : System W) (n : ℕ) (node : Node) (api h : Handle) (ctx : Context) (cid : String)
      (seconds : ℤ) (fn fn_arg : ℕ)
      → get_elem? s.heap n ≡ some node
      → node.api ≡ some api
      → node.node ≡ some h
      → Returns
          (λ _. AnswersPublish h ctx cid seconds fn fn_arg s)
          (run_publish x n ctx cid seconds fn fn_arg s)
        × Returns (λ _. AnswersPin api ctx cid fn fn_arg s) (run_pin x n ctx cid fn fn_arg s)
        × Returns (λ _. AnswersUnpin api ctx cid fn fn_arg s) (run_unpin x n ctx cid fn fn_arg s)
        × Returns (λ _. AnswersGc h ctx fn fn_arg s) (run_gc x n ctx fn fn_arg s)
  unfolding run_publish run_pin run_unpin run_gc
  void_requests_answer s n node api h ctx cid seconds fn fn_arg l a b = (
    publish_lem s n node h ctx seconds fn fn_arg (x.parse_cid_to_path cid) l b,
    rw l (rw a (void_lem fn fn_arg pin_failed _ (record s { trace = _ ∷ s.trace }))),
    rw l (rw a (void_lem fn fn_arg unpin_failed _ (record s { trace = _ ∷ s.trace }))),
    rw l (rw b (void_lem fn fn_arg gc_failed _ (record s { trace = _ ∷ s.trace }))),
  )
