-- ===== src/Lifecycle/Laws.antt =====
-- What freeing the node guarantees.
use asio_ipfs.Base.{
  ℕ, ◌≡◌, refl, true, Option, none, some, List, [], ◌∷◌, arith, get_elem?, contains, Returns,
  Returns-imp, Ends, Out, ret, throw, panicked, Option-cases, inl, inr, is_some, false,
}
use asio_ipfs.Config.{Handle}
use asio_ipfs.Codes.{Code, success, no_node}
use asio_ipfs.World.{Context, Libraries, CommandContext}
use asio_ipfs.System.{System, Node, is_done, load, cancel_mark, perform}
use asio_ipfs.Lifecycle.{closing, free_at, unregister, close, close_plugins, go_asio_ipfs_free}

module _ {W : Type 0} where
  -- The pointer `g_node` is nil or points to a node.
  abbrev pub IsLinked : System W → Type 0
  IsLinked s = (n : ℕ) → s.g_node ≡ some n → (node : Node) × (get_elem? s.heap n ≡ some node)

module _ {W : Type 0} (x : Libraries W) where
  -- `contains` finds the mark that was cancelled last.
  is_done_of_contains :
      (mark : ℕ) (cancelled : List ℕ) (ctx : Context)
      → contains ctx mark ≡ true
      → is_done (mark ∷ cancelled) ctx ≡ true
  is_done_of_contains mark cancelled [] h = cc
  is_done_of_contains mark cancelled (m ∷ ctx) h =
      ground (arith, is_done_of_contains mark cancelled ctx)

  cancel_of_same :
      (heap : List Node) (n m : ℕ) (node other : Node)
      → get_elem? heap n ≡ some node
      → get_elem? heap m ≡ some other
      → some n ≡ some m
      → node.cancel ≡ other.cancel
  cancel_of_same heap n m node other h f e = ground arith

  closing_lem :
      (c h : Option Handle) (p : Option CommandContext) (s : System W)
      → Returns
          (λ code t. (code ≡ success) × (t.g_node ≡ none) × (t.cancelled ≡ s.cancelled))
          (closing x c h p s)
  unfolding closing unregister close close_plugins perform
  closing_lem none none none s = (refl, refl, refl)
  closing_lem none none (some p) s = (refl, refl, refl)
  closing_lem none (some h) none s = (refl, refl, refl)
  closing_lem none (some h) (some p) s = (refl, refl, refl)
  closing_lem (some c) none none s = (refl, refl, refl)
  closing_lem (some c) none (some p) s = (refl, refl, refl)
  closing_lem (some c) (some h) none s = (refl, refl, refl)
  closing_lem (some c) (some h) (some p) s = (refl, refl, refl)

  -- What `go_asio_ipfs_free` owes to what it found in `g_node`.
  abbrev FreesAll : Option ℕ → System W → Code → System W → Type 0
  FreesAll found s code t =
      (t.g_node ≡ none)
      × ((n : ℕ) (node : Node) (ctx : Context)
          → found ≡ some n
          → get_elem? s.heap n ≡ some node
          → contains ctx node.cancel ≡ true
          → (code ≡ success) × (is_done t.cancelled ctx ≡ true))
      × (found ≡ none → (code ≡ no_node) × (t ≡ s))

  free_at_lem :
      (found : Option ℕ) (s : System W)
      → s.g_node ≡ found
      → ((n : ℕ) → found ≡ some n → (node : Node) × (get_elem? s.heap n ≡ some node))
      → Returns (FreesAll found s) (free_at x found s)
  unfolding free_at load cancel_mark
  free_at_lem none s g linked = (g, λ n node ctx e. absurd (cc), λ _. (refl, refl))
  free_at_lem (some n) s g linked =
      let (node, h) = linked n refl in
      rw h (
        Returns-imp (closing x node.collector node.node node.cctx _)
          (closing_lem node.collector node.node node.cctx _)
          (λ code t r. (
            r.1,
            λ m other ctx e f c. (
              r.0,
              rw r.2 (
                  is_done_of_contains node.cancel s.cancelled ctx
                    (rw (cancel_of_same s.heap n m node other h f e) c)),
            ),
            λ e. absurd (cc),
          )))

  -- Freeing a node leaves no node and cancels every context that was made from the node's; the
  -- call returns, whatever the libraries answer. With no node it answers `IPFS_NO_NODE` and
  -- changes nothing.
  pub go_asio_ipfs_free_lem :
      (s : System W)
      → IsLinked s
      → Returns
          (λ code t.
            (t.g_node ≡ none)
            × ((n : ℕ) (node : Node) (ctx : Context)
                → s.g_node ≡ some n
                → get_elem? s.heap n ≡ some node
                → contains ctx node.cancel ≡ true
                → (code ≡ success) × (is_done t.cancelled ctx ≡ true))
            × (s.g_node ≡ none → (code ≡ no_node) × (t ≡ s)))
          (go_asio_ipfs_free x s)
  unfolding go_asio_ipfs_free
  go_asio_ipfs_free_lem s linked = free_at_lem s.g_node s refl linked

  -- What a call of `go_asio_ipfs_free` answers, and that it leaves no node.
  abbrev pub FreeAnswers : Option ℕ → Code → System W → Type 0
  FreeAnswers found code t =
      (t.g_node ≡ none)
      × ((is_some found ≡ true) → code ≡ success)
      × ((is_some found ≡ false) → code ≡ no_node)

  closing-Ends :
      (n : ℕ) (o : Out ⊥ (System W) Code)
      → Returns (λ code t. (code ≡ success) × (t.g_node ≡ none)) o
      → Ends (FreeAnswers (some n)) (λ t. ⊥) o
  closing-Ends n (ret code t) (h, k) = (k, λ e. h, λ e. absurd (cc))
  closing-Ends n (throw e t) h = h
  closing-Ends n (panicked p) h = tt

  free_found :
      (found : Option ℕ) (s : System W)
      → s.g_node ≡ found
      → Ends (FreeAnswers found) (λ t. ⊥) (free_at x found s)
  unfolding free_at load cancel_mark
  free_found none s g = (g, λ e. absurd (cc), λ e. refl)
  free_found (some n) s g = elim (Option-cases (get_elem? s.heap n)) [
    | inl missing ↦ rw missing (tt)
    | inr (node, h) ↦ rw h (
        closing-Ends n (closing x node.collector node.node node.cctx _) (
          Returns-imp (closing x node.collector node.node node.cctx _)
            (closing_lem node.collector node.node node.cctx _) (λ code t r. (r.0, r.1))))
  ]

  pub free-Ends : (s : System W) → Ends (FreeAnswers s.g_node) (λ t. ⊥) (go_asio_ipfs_free x s)
  unfolding go_asio_ipfs_free
  free-Ends s = free_found s.g_node s refl
