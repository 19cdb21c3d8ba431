-- ===== src/Cancel/Uses.antt =====
-- What a cancel signal guarantees, whatever else happens to the signals of the node.
use asio_ipfs.Base.{
  ℕ, ◌+◌, ◌≡◌, ◌≢◌, refl, ◌∙◌, ap, ◌||◌, true, false, some, List, [], ◌∷◌, arith, get_elem?, modify,
  All, contains, ==_refl, Option-cases, inl, inr, Out, ret, throw, panicked, Returns, ◌>>=◌, ◌>>◌,
  pure, and_then, get_elem?-modify_self,
}
use asio_ipfs.World.{Context}
use asio_ipfs.System.{System, Node, Action, is_done}
use asio_ipfs.Cancel.{
  lookup, with_cancel, go_asio_ipfs_cancellation_allocate, go_asio_ipfs_cancellation_free,
  go_asio_ipfs_cancel,
}
use asio_ipfs.Cancel.Laws.{
  lookup-insert, lookup-delete, bind_signal, is_done-cons, with_cancel_lem, go_asio_ipfs_cancel_lem,
}

-- What the host may do with signals: make a request under one, allocate one, free or use one.
pub data Use : Type 0 where
  request free cancel : ℕ → Use
  allocate : Use

-- The signal is neither given to another request nor freed.
abbrev pub Spares : ℕ → Use → Type 0
Spares k (request j) = j ≢ k
Spares k (free j) = j ≢ k
Spares k (cancel j) = Unit
Spares k allocate = Unit

Returns-bind :
    {W A B : Type 0} (Q : A → System W → Type 0) (R : B → System W → Type 0)
    (o : Out ⊥ (System W) A) (f : A → System W → Out ⊥ (System W) B)
    → Returns Q o
    → ((a : A) (t : System W) → Q a t → Returns R (f a t))
    → Returns R (and_then o f)
Returns-bind Q R (ret a t) f h k = k a t h
Returns-bind Q R (throw e t) f h k = h
Returns-bind Q R (panicked p) f h k = h

module _ {W : Type 0} where
  abbrev pub run_use : ℕ → Use → Action W (Unit {0})
  run_use n (request k) = with_cancel n k >>= λ ctx. pure tt
  run_use n allocate = go_asio_ipfs_cancellation_allocate >>= λ id. pure tt
  run_use n (free k) = go_asio_ipfs_cancellation_free k
  run_use n (cancel k) = go_asio_ipfs_cancel k

  abbrev pub run_uses : ℕ → List Use → Action W (Unit {0})
  run_uses n [] = pure tt
  run_uses n (u ∷ us) = run_use n u >>= λ _. run_uses n us

  -- A request's context is made under the signal, and then the signals are used.
  abbrev pub start_and_use : ℕ → ℕ → List Use → Action W Context
  start_and_use n k us = do ctx ← with_cancel n k; run_uses n us; pure ctx

  -- The signal stands for the cancel function with this mark, at the node that `g_node` points to.
  abbrev pub IsBound : ℕ → ℕ → ℕ → System W → Type 0
  IsBound n cancel_signal mark s =
      (s.g_node ≡ some n)
      × (node : Node) × (get_elem? s.heap n ≡ some node)
      × (lookup cancel_signal node.cancel_signals ≡ some mark)

  run_use_lem :
      (n cancel_signal mark : ℕ) (u : Use) (s : System W)
      → Spares cancel_signal u
      → IsBound n cancel_signal mark s
      → Returns (λ _. IsBound n cancel_signal mark) (run_use n u s)
  unfolding with_cancel go_asio_ipfs_cancellation_allocate go_asio_ipfs_cancellation_free
      go_asio_ipfs_cancel ◌>>=◌
  run_use_lem n k mark (request j) s spared (g, node, found, bound) = rw found (
      (
        g,
        bind_signal j s.next_mark node,
        get_elem?-modify_self s.heap n (bind_signal j s.next_mark) found,
        ground (arith, lookup-insert j k s.next_mark node.cancel_signals),
      ))
  run_use_lem n k mark allocate s spared (g, node, found, bound) =
      rw g (rw found ((refl, _, get_elem?-modify_self s.heap n _ found, bound)))
  run_use_lem n k mark (free j) s spared (g, node, found, bound) = rw g (
      (
        refl,
        _,
        get_elem?-modify_self s.heap n _ found,
        ground (arith, lookup-delete j k node.cancel_signals),
      ))
  run_use_lem n k mark (cancel j) s spared (g, node, found, bound) =
      elim (Option-cases (lookup j node.cancel_signals)) [
        | inl unused ↦ rw g (rw found (rw unused ((refl, node, found, bound))))
        | inr (other, used) ↦ rw g (rw found (rw used ((refl, node, found, bound))))
      ]

  run_uses_lem :
      (n cancel_signal mark : ℕ) (us : List Use) (s : System W)
      → All (Spares cancel_signal) us
      → IsBound n cancel_signal mark s
      → Returns (λ _. IsBound n cancel_signal mark) (run_uses n us s)
  unfolding ◌>>=◌
  run_uses_lem n k mark [] s spared bound = bound
  run_uses_lem n k mark (u ∷ us) s (spared, rest) bound =
      Returns-bind (λ _. IsBound n k mark) (λ _. IsBound n k mark) (run_use n u s)
        (λ _. run_uses n us) (run_use_lem n k mark u s spared bound)
        λ v t h. run_uses_lem n k mark us t rest h

  -- A signal is given to a request, and then any signals of the node are allocated, freed and used,
  -- and other requests made, but this signal is neither freed nor given to another request: all of
  -- that returns, and if the signal is used then, it cancels the request's context, and of the
  -- contexts that are not below the request's own mark it changes none.
  pub cancel-with_cancel :
      (s : System W) (n cancel_signal : ℕ) (node : Node) (us : List Use)
      → s.g_node ≡ some n
      → get_elem? s.heap n ≡ some node
      → All (Spares cancel_signal) us
      → Returns
          (λ ctx mid.
            Returns
              (λ _ t.
                (is_done t.cancelled ctx ≡ true)
                × ((other : Context)
                    → contains other s.next_mark ≡ false
                    → is_done t.cancelled other ≡ is_done mid.cancelled other))
              (go_asio_ipfs_cancel cancel_signal mid))
          (start_and_use n cancel_signal us s)
  unfolding ◌>>=◌
  cancel-with_cancel s n k node us g found spared = rw (with_cancel_lem s n k node found) (
      Returns-bind (λ _. IsBound n k s.next_mark) _
        (run_uses n us (record s {
          next_mark = s.next_mark + 1;
          heap = modify s.heap n (bind_signal k s.next_mark);
        }))
        _
        (run_uses_lem n k s.next_mark us _ spared (
          g,
          bind_signal k s.next_mark node,
          get_elem?-modify_self s.heap n (bind_signal k s.next_mark) found,
          lookup-insert k k s.next_mark node.cancel_signals ∙ rw (==_refl k) (refl),
        ))
        λ u mid (g', node', found', bound).
          rw (go_asio_ipfs_cancel_lem mid n k s.next_mark node' g' found' bound) (
            (
              rw (==_refl s.next_mark) (refl),
              λ other apart.
                  is_done-cons s.next_mark mid.cancelled other
                  ∙ ap (λ b. b || is_done mid.cancelled other) apart,
            )))
