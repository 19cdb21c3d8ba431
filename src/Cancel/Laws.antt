-- ===== src/Cancel/Laws.antt =====
-- The map of the signals, and the steps that use it.
use asio_ipfs.Base.{
  ℕ, ◌+◌, ◌≡◌, refl, ◌||◌, none, some, List, [], ◌∷◌, arith, get_elem?, modify, contains, ◌==◌,
  if◌then◌else◌, ret,
}
use asio_ipfs.World.{Context}
use asio_ipfs.System.{System, Node, is_done}
use asio_ipfs.Cancel.{lookup, delete, insert, with_cancel, go_asio_ipfs_cancel}

pub lookup-delete :
    (k j : ℕ) (m : List (ℕ × ℕ)) → lookup j (delete k m) ≡ (if k == j then none else lookup j m)
unfolding lookup delete
lookup-delete k j [] = ground arith
lookup-delete k j ((i, v) ∷ m) = ground (arith, lookup-delete k j m)

pub lookup-insert :
    (k j v : ℕ) (m : List (ℕ × ℕ))
    → lookup j (insert k v m) ≡ (if k == j then some v else lookup j m)
unfolding lookup insert
lookup-insert k j v m = ground (arith, lookup-delete k j m)

-- A cancelled mark makes the contexts done that hold it, and no others.
pub is_done-cons :
    (mark : ℕ) (cancelled : List ℕ) (ctx : Context)
    → is_done (mark ∷ cancelled) ctx ≡ (contains ctx mark || is_done cancelled ctx)
is_done-cons mark cancelled [] = refl
is_done-cons mark cancelled (m ∷ ctx) = ground (arith, is_done-cons mark cancelled ctx)

-- `n.cancel_signals[cancel_signal] = cancel`
abbrev pub bind_signal : ℕ → ℕ → Node → Node
bind_signal cancel_signal mark m = record m {
  cancel_signals = insert cancel_signal mark m.cancel_signals;
}

module _ {W : Type 0} where
  -- The new mark is `s.next_mark`, and the signal stands for it from now on.
  pub with_cancel_lem :
      (s : System W) (n cancel_signal : ℕ) (node : Node)
      → get_elem? s.heap n ≡ some node
      → with_cancel n cancel_signal s
        ≡ ret (s.next_mark ∷ node.ctx) (record s {
          next_mark = s.next_mark + 1;
          heap = modify s.heap n (bind_signal cancel_signal s.next_mark);
        })
  unfolding with_cancel
  with_cancel_lem s n cancel_signal node h = ground arith

  pub go_asio_ipfs_cancel_lem :
      (s : System W) (n cancel_signal mark : ℕ) (node : Node)
      → s.g_node ≡ some n
      → get_elem? s.heap n ≡ some node
      → lookup cancel_signal node.cancel_signals ≡ some mark
      → go_asio_ipfs_cancel cancel_signal s ≡ ret tt (record s { cancelled = mark ∷ s.cancelled })
  unfolding go_asio_ipfs_cancel
  go_asio_ipfs_cancel_lem s n cancel_signal mark node g h l = ground arith
