-- ===== src/Cancel/Allocation.antt =====
-- `go_asio_ipfs_cancellation_allocate`: the signals that it hands out.
use asio_ipfs.Base.{
  ℕ, zero, suc, ◌+◌, ◌%◌, ◌^◌, ◌≤◌, ◌≡◌, refl, some, List, [], ◌∷◌, arith, get_elem?, modify,
  Returns, Returns-imp, ◌>>=◌, pure, ret, get_elem?-modify_self,
}
use asio_ipfs.System.{System, Node, Action}
use asio_ipfs.Cancel.{go_asio_ipfs_cancellation_allocate}

-- `k` signals, allocated one after the other.
pub allocate_many : {W : Type 0} → ℕ → Action W (List ℕ)
unfolding ◌>>=◌
allocate_many zero = pure []
allocate_many (suc k) = do
  id ← go_asio_ipfs_cancellation_allocate
  ids ← allocate_many k
  pure (id ∷ ids)

count_up : ℕ → ℕ → List ℕ
count_up a zero = []
count_up a (suc k) = a ∷ count_up (suc a) k

get_elem?-count_up : (a k i : ℕ) {v : ℕ} → get_elem? (count_up a k) i ≡ some v → v ≡ a + i
unfolding count_up
get_elem?-count_up a zero i h = cc
get_elem?-count_up a (suc k) zero h = ground arith
get_elem?-count_up a (suc k) (suc i) h = omega (arith, get_elem?-count_up (suc a) k i h)

-- No signal stands in the list twice.
abbrev pub AllDistinct : List ℕ → Type 0
AllDistinct ids = (i j v : ℕ) → get_elem? ids i ≡ some v → get_elem? ids j ≡ some v → i ≡ j

count_up-AllDistinct : (a k : ℕ) → AllDistinct (count_up a k)
count_up-AllDistinct a k i j v p q =
    omega (arith, get_elem?-count_up a k i p, get_elem?-count_up a k j q)

abbrev bump : Node → Node
bump m = record m { next_cancel_signal_id = (m.next_cancel_signal_id + 1) % 2 ^ 64 }

module _ {W : Type 0} where
  go_asio_ipfs_cancellation_allocate_lem :
      (s : System W) (n : ℕ) (node : Node)
      → s.g_node ≡ some n
      → get_elem? s.heap n ≡ some node
      → go_asio_ipfs_cancellation_allocate s
        ≡ ret node.next_cancel_signal_id (record s { heap = modify s.heap n bump })
  unfolding go_asio_ipfs_cancellation_allocate
  go_asio_ipfs_cancellation_allocate_lem s n node g h = ground arith

  allocate_many-count_up :
      (k : ℕ) (s : System W) (n a : ℕ) (node : Node)
      → s.g_node ≡ some n
      → get_elem? s.heap n ≡ some node
      → node.next_cancel_signal_id ≡ a
      → a + k ≤ 2 ^ 64
      → Returns (λ ids t. ids ≡ count_up a k) (allocate_many k s)
  unfolding allocate_many count_up
  allocate_many-count_up zero s n a node g h e room = refl
  allocate_many-count_up (suc zero) s n a node g h e room =
      rw (go_asio_ipfs_cancellation_allocate_lem s n node g h) (ground arith)
  allocate_many-count_up (suc (suc k)) s n a node g h e room =
      rw (go_asio_ipfs_cancellation_allocate_lem s n node g h) (
        ground (
          arith,
          allocate_many-count_up (suc k) (record s { heap = modify s.heap n bump }) n (suc a)
              (bump node) g (get_elem?-modify_self s.heap n bump h) (omega arith) (omega arith),
        ))

  -- As long as the 64-bit counter does not wrap, signals allocated one after the other on a node
  -- are pairwise distinct, and each allocation returns.
  pub allocate_many-AllDistinct :
      (k : ℕ) (s : System W) (n : ℕ) (node : Node)
      → s.g_node ≡ some n
      → get_elem? s.heap n ≡ some node
      → node.next_cancel_signal_id + k ≤ 2 ^ 64
      → Returns (λ ids t. AllDistinct ids) (allocate_many k s)
  allocate_many-AllDistinct k s n node g h room =
      Returns-imp (allocate_many k s)
        (allocate_many-count_up k s n node.next_cancel_signal_id node g h refl room)
        (λ ids t e. rw e (count_up-AllDistinct node.next_cancel_signal_id k))
