-- ===== src/Examples/Answers.antt =====
-- The theorems on requests at concrete data: requests to one started node, and with no node.
use asio_ipfs.Base.{
  ℕ, ◌+◌, ◌^◌, ◌≡◌, refl, pos, true, none, [], ◌∷◌, arith, ret, panicked, go_bytes_length, Returns,
}
use asio_ipfs.Codes.{no_node, add_failed, calc_cid_failed}
use asio_ipfs.World.{Context, AddOption}
use asio_ipfs.System.{System, Action, Task, void_cb, data_cb, initial}
use asio_ipfs.Tasks.Laws.{Serves, Refuses, requests_refused, requests_answer}
use asio_ipfs.Requests.{
  go_asio_ipfs_publish, go_asio_ipfs_calc_cid, go_asio_ipfs_add, go_asio_ipfs_cat, go_asio_ipfs_pin,
  go_asio_ipfs_unpin, go_asio_ipfs_gc,
}
use asio_ipfs.Requests.Laws.{requested, go_asio_ipfs_add_lem, add_large_panics, add_huge_truncates}
use asio_ipfs.Requests.Bodies.{
  run_publish, run_calc_cid, run_add, run_cat, run_pin, run_unpin, run_gc,
}
use asio_ipfs.Requests.Bodies.Answers.{
  AnswersAdd, AnswersCat, AnswersPublish, AnswersPin, AnswersUnpin, AnswersGc, data_requests_answer,
  void_requests_answer,
}
use asio_ipfs.Examples.{libraries, started_node, running}

go_asio_ipfs_add_example :
    go_asio_ipfs_add 7 (1 ∷ 2 ∷ []) 2 true 8 9 running
    ≡ ret tt (requested running 0 started_node 7 (Task.add 0 (1 ∷ 0 ∷ []) (1 ∷ 2 ∷ []) true 8 9))
go_asio_ipfs_add_example =
    go_asio_ipfs_add_lem running 0 started_node 7 (1 ∷ 2 ∷ []) true 8 9 refl refl (omega arith)

add_large_panics_example :
    (go_asio_ipfs_add 7 (1 ∷ []) 2147483648 true 8 9 running ≡ panicked go_bytes_length)
    × (go_asio_ipfs_calc_cid 7 (1 ∷ []) 2147483648 8 9 running ≡ panicked go_bytes_length)
add_large_panics_example =
    add_large_panics running 0 7 2147483648 (1 ∷ []) true 8 9 refl (omega arith) (omega arith)

add_huge_truncates_example :
    go_asio_ipfs_add 7 (1 ∷ 2 ∷ []) (1 + 2 ^ 32) true 8 9 running
    ≡ ret tt (requested running 0 started_node 7 (Task.add 0 (1 ∷ 0 ∷ []) (1 ∷ []) true 8 9))
add_huge_truncates_example =
    add_huge_truncates running 0 started_node 7 1 (1 ∷ 2 ∷ []) true 8 9 refl refl (omega arith)

requests_refused_example :
    let void = void_cb 8 no_node 9 in
    let answer = data_cb 8 no_node none 0 9 in
    Refuses libraries (initial 0) (go_asio_ipfs_publish 7 "cid" (pos 60) 8 9) void
    × Refuses libraries (initial 0) (go_asio_ipfs_pin 7 "cid" 8 9) void
    × Refuses libraries (initial 0) (go_asio_ipfs_unpin 7 "cid" 8 9) void
    × Refuses libraries (initial 0) (go_asio_ipfs_gc 7 8 9) void
    × Refuses libraries (initial 0) (go_asio_ipfs_calc_cid 7 (1 ∷ []) 1 8 9) answer
    × Refuses libraries (initial 0) (go_asio_ipfs_add 7 (1 ∷ []) 1 true 8 9) answer
    × Refuses libraries (initial 0) (go_asio_ipfs_cat 7 "cid" 8 9) answer
requests_refused_example =
    requests_refused libraries (initial 0) 7 "cid" (pos 60) (1 ∷ []) 1 true 8 9 refl

-- A request to the started node, under the signal 7.
abbrev Served : Action ℕ (Unit {0}) → (System ℕ → System ℕ → Type 0) → Type 0
Served = Serves libraries running 0 started_node 7 11 12

requests_answer_example :
    let ctx : Context = 1 ∷ 0 ∷ [] in
    Served
      (go_asio_ipfs_publish 7 "cid" (pos 60) 8 9)
      (AnswersPublish libraries 11 ctx "cid" (pos 60) 8 9)
    × Served (go_asio_ipfs_pin 7 "cid" 8 9) (AnswersPin libraries 12 ctx "cid" 8 9)
    × Served (go_asio_ipfs_unpin 7 "cid" 8 9) (AnswersUnpin libraries 12 ctx "cid" 8 9)
    × Served (go_asio_ipfs_gc 7 8 9) (AnswersGc libraries 11 ctx 8 9)
    × Served
        (go_asio_ipfs_calc_cid 7 (5 ∷ []) 1 8 9)
        (AnswersAdd libraries 12 ctx (5 ∷ []) AddOption.hash_only calc_cid_failed 8 9)
    × Served
        (go_asio_ipfs_add 7 (5 ∷ []) 1 true 8 9)
        (AnswersAdd libraries 12 ctx (5 ∷ []) (AddOption.pin true) add_failed 8 9)
    × Served (go_asio_ipfs_cat 7 "cid" 8 9) (AnswersCat libraries 12 ctx "cid" 8 9)
requests_answer_example =
    requests_answer libraries running 0 started_node 11 12 7 "cid" (pos 60) (5 ∷ []) true 8 9 refl
      refl (omega arith)

data_requests_answer_example :
    let ctx : Context = 1 ∷ 0 ∷ [] in
    Returns
      (λ _. AnswersAdd libraries 12 ctx (1 ∷ []) (AddOption.pin true) add_failed 8 9 running)
      (run_add libraries 0 ctx (1 ∷ []) true 8 9 running)
    × Returns
        (λ _. AnswersAdd libraries 12 ctx (1 ∷ []) AddOption.hash_only calc_cid_failed 8 9 running)
        (run_calc_cid libraries 0 ctx (1 ∷ []) 8 9 running)
    × Returns
        (λ _. AnswersCat libraries 12 ctx "cid" 8 9 running)
        (run_cat libraries 0 ctx "cid" 8 9 running)
data_requests_answer_example =
    data_requests_answer libraries running 0 started_node 12 (1 ∷ 0 ∷ []) (1 ∷ []) "cid" true 8 9
      refl refl

void_requests_answer_example :
    let ctx : Context = 1 ∷ 0 ∷ [] in
    Returns
      (λ _. AnswersPublish libraries 11 ctx "cid" (pos 60) 8 9 running)
      (run_publish libraries 0 ctx "cid" (pos 60) 8 9 running)
    × Returns
        (λ _. AnswersPin libraries 12 ctx "cid" 8 9 running)
        (run_pin libraries 0 ctx "cid" 8 9 running)
    × Returns
        (λ _. AnswersUnpin libraries 12 ctx "cid" 8 9 running)
        (run_unpin libraries 0 ctx "cid" 8 9 running)
    × Returns (λ _. AnswersGc libraries 11 ctx 8 9 running) (run_gc libraries 0 ctx 8 9 running)
void_requests_answer_example =
    void_requests_answer libraries running 0 started_node 12 11 (1 ∷ 0 ∷ []) "cid" (pos 60) 8 9 refl
      refl refl
