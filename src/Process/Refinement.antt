-- ===== src/Process/Refinement.antt =====
-- An abstract machine with one bit, whether there is a node, and its refinement by the functions that
-- start and free the node.
use asio_ipfs.Base.{
  ℕ, ◌≡◌, refl, String, Bool, true, false, Option, none, some, is_some, inl, inr, ◌⊎◌, List, [],
  ◌∷◌, Out, ret, throw, panicked, Ends, and_then, pure, ◌>>=◌, length,
}
use asio_ipfs.Codes.{Code, success, node_exists, no_node}
use asio_ipfs.World.{Libraries}
use asio_ipfs.System.{System, Action}
use asio_ipfs.Lifecycle.{go_asio_ipfs_free}
use asio_ipfs.Lifecycle.Laws.{FreeAnswers, free-Ends}
use asio_ipfs.Start.{go_asio_ipfs_start_blocking}
use asio_ipfs.Start.Errors.{IsStartFailure}
use asio_ipfs.Start.Failed.{start_refused, start_then_start}
use asio_ipfs.Start.Ready.{IsComplete, start_ready}

-- The calls of the host that return a code.
pub data Request : Type 0 where
  start : String → String → ℕ → ℕ → Request
  free : Request

-- From whether there is a node, by a call and its code, to whether there is one. A start that fails
-- leaves a node too.
pub data LifeStep : Bool → Request → Code → Bool → Type 0 where
  started :
      {cfg repo_root : String} {cb arg : ℕ}
      → LifeStep false (start cfg repo_root cb arg) success true
  failed :
      {cfg repo_root : String} {cb arg : ℕ} {code : Code}
      → IsStartFailure code
      → LifeStep false (start cfg repo_root cb arg) code true
  refused :
      {cfg repo_root : String} {cb arg : ℕ}
      → LifeStep true (start cfg repo_root cb arg) node_exists true
  freed : LifeStep true free success false
  nothing_freed : LifeStep false free no_node false

pub data LifeRun : Bool → List (Request × Code) → Bool → Type 0 where
  over : {b : Bool} → LifeRun b [] b
  step_then :
      {a b c : Bool} {r : Request} {code : Code} {l : List (Request × Code)}
      → LifeStep a r code b
      → LifeRun b l c
      → LifeRun a ((r, code) ∷ l) c

module _ {W : Type 0} (x : Libraries W) where
  abbrev pub call : Request → Action W Code
  call (start cfg repo_root cb arg) = go_asio_ipfs_start_blocking x cfg repo_root cb arg
  call free = go_asio_ipfs_free x

  -- The calls with the codes that they return.
  abbrev pub call_all : List Request → Action W (List (Request × Code))
  call_all [] = pure []
  call_all (r ∷ rs) = call r >>= λ code. call_all rs >>= λ l. pure ((r, code) ∷ l)

  start_step :
      (cfg repo_root : String) (cb arg n : ℕ) (P R : System W → Type 0) (o : Out ⊥ (System W) Code)
      → Ends
          (λ code t. ((code ≡ success) × (t.g_node ≡ some n) × P t) ⊎ IsStartFailure code)
          (λ t. ⊥)
          o
      → Ends (λ code t. (t.g_node ≡ some n) × R t) (λ t. ⊥) o
      → Ends
          (λ code t. LifeStep false (start cfg repo_root cb arg) code (is_some t.g_node))
          (λ t. ⊥)
          o
  start_step cfg repo_root cb arg n P R (ret code t) (inl (ok, linked, p)) (k, r) =
      rw ok (rw k (started))
  start_step cfg repo_root cb arg n P R (ret code t) (inr failure) (k, r) = rw k (failed failure)
  start_step cfg repo_root cb arg n P R (throw e t) h k = h
  start_step cfg repo_root cb arg n P R (panicked p) h k = tt

  free_step :
      (found : Option ℕ) (o : Out ⊥ (System W) Code)
      → Ends (FreeAnswers x found) (λ t. ⊥) o
      → Ends (λ code t. LifeStep (is_some found) free code (is_some t.g_node)) (λ t. ⊥) o
  free_step none (ret code t) (k, h, g) = rw k (rw (g refl) (nothing_freed))
  free_step (some n) (ret code t) (k, h, g) = rw k (rw (h refl) (freed))
  free_step found (throw e t) h = h
  free_step found (panicked p) h = tt

  start_call :
      (cfg repo_root : String) (cb arg : ℕ) (found : Option ℕ) (s : System W)
      → s.g_node ≡ found
      → Ends
          (λ code t. LifeStep (is_some found) (start cfg repo_root cb arg) code (is_some t.g_node))
          (λ t. ⊥)
          (go_asio_ipfs_start_blocking x cfg repo_root cb arg s)
  start_call cfg repo_root cb arg none s e =
      start_step cfg repo_root cb arg (length s.heap) (IsComplete x (length s.heap))
        (λ t. go_asio_ipfs_start_blocking x cfg repo_root cb arg t ≡ ret node_exists t) _
        (start_ready x s cfg repo_root cb arg e) (start_then_start x s cfg repo_root cfg cb arg e)
  start_call cfg repo_root cb arg (some n) s e =
      rw (start_refused x s n cfg repo_root cb arg e) (refused_step s e)
    where
      refused_step :
          (s : System W)
          → s.g_node ≡ some n
          → LifeStep true (start cfg repo_root cb arg) node_exists (is_some s.g_node)
      refused_step s e = rw e (refused)

  call_step :
      (r : Request) (s : System W)
      → Ends (λ code t. LifeStep (is_some s.g_node) r code (is_some t.g_node)) (λ t. ⊥) (call r s)
  call_step (start cfg repo_root cb arg) s = start_call cfg repo_root cb arg s.g_node s refl
  call_step free s = free_step s.g_node _ (free-Ends x s)

  more_out :
      (b : Bool) (r : Request) (rs : List Request) (o : Out ⊥ (System W) Code)
      → Ends (λ code t. LifeStep b r code (is_some t.g_node)) (λ t. ⊥) o
      → ((t : System W)
          → Ends (λ l u. LifeRun (is_some t.g_node) l (is_some u.g_node)) (λ u. ⊥) (call_all rs t))
      → Ends
          (λ l u. LifeRun b l (is_some u.g_node))
          (λ u. ⊥)
          (and_then o λ code. call_all rs >>= λ l. pure ((r, code) ∷ l))
  unfolding ◌>>=◌
  more_out b r rs (ret code t) h k = rest_out b r code (is_some t.g_node) (call_all rs t) h (k t)
    where
      rest_out :
          (b : Bool) (r : Request) (code : Code) (c : Bool)
          (o : Out ⊥ (System W) (List (Request × Code)))
          → LifeStep b r code c
          → Ends (λ l u. LifeRun c l (is_some u.g_node)) (λ u. ⊥) o
          → Ends
              (λ l u. LifeRun b l (is_some u.g_node))
              (λ u. ⊥)
              (and_then o λ l. pure ((r, code) ∷ l))
      rest_out b r code c (ret l u) h k = step_then h k
      rest_out b r code c (throw e u) h k = k
      rest_out b r code c (panicked p) h k = tt
  more_out b r rs (throw e t) h k = h
  more_out b r rs (panicked p) h k = tt

  -- Whatever the libraries answer, a sequence of starts and frees that does not panic takes the
  -- abstract machine through its steps, with the codes that the calls returned: it begins and ends
  -- with whether `g_node` is set.
  pub calls_refine :
      (requests : List Request) (s : System W)
      → Ends (λ l t. LifeRun (is_some s.g_node) l (is_some t.g_node)) (λ t. ⊥) (call_all requests s)
  unfolding ◌>>=◌
  calls_refine [] s = over
  calls_refine (r ∷ rs) s =
      more_out (is_some s.g_node) r rs (call r s) (call_step r s) (calls_refine rs)
