-- ===== src/Monitor/Runs.antt =====
-- The monitor's runs: its turns, interleaved with what the other goroutines and the host do.
use asio_ipfs.Base.{
  ℕ, ◌≡◌, true, String, Option, some, is_some, List, [], ◌∷◌, get_elem?, contains, ret,
}
use asio_ipfs.World.{Libraries}
use asio_ipfs.System.{System, Node, Callback, state_change, is_done}
use asio_ipfs.Monitor.{
  Monitor, Source, gc_chan, api_chan, gateway_chan, Event, received, tick, stopped, react,
}

abbrev pub chan_of : Source → Monitor → Option ℕ
chan_of gc_chan m = m.gc
chan_of api_chan m = m.api
chan_of gateway_chan m = m.gateway

-- The calls of the state callback, with their errors and numbers of peers.
abbrev pub state_changes : List Callback → List (Option String × ℕ)
state_changes [] = []
state_changes (state_change fn arg e peercnt ∷ cs) = (e, peercnt) ∷ state_changes cs
state_changes (c ∷ cs) = state_changes cs

module _ {W : Type 0} where
  -- Whether the `select` may choose the event.
  abbrev pub IsReady : ℕ → Event → Monitor → System W → Type 0
  IsReady n (received c e) m s = is_some (chan_of c m) ≡ true
  IsReady n tick m s = Unit
  IsReady n stopped m s =
      (node : Node) × (get_elem? s.heap n ≡ some node) × (is_done s.cancelled node.ctx ≡ true)

  -- What happens between two turns: the node keeps its context and its cancel function, what was
  -- cancelled stays so, and only the monitor calls the state callback.
  abbrev pub IsBetween : ℕ → System W → System W → Type 0
  IsBetween n s t =
      ((node : Node)
        → get_elem? s.heap n ≡ some node
        → (other : Node) × (get_elem? t.heap n ≡ some other)
          × (other.cancel ≡ node.cancel)
          × (other.ctx ≡ node.ctx))
      × ((mark : ℕ) → contains s.cancelled mark ≡ true → contains t.cancelled mark ≡ true)
      × (state_changes t.calls ≡ state_changes s.calls)

-- From `m` and `s` on, the monitor has come to a further state and is still in its loop.
pub data Runs {W : Type 0} (x : Libraries W) (n : ℕ) (m : Monitor) (s : System W)
    : Monitor → System W → Type 0 where
  begin : Runs x n m s m s
  turned :
      {m1 m2 : Monitor} {s1 s2 : System W} (e : Event)
      → Runs x n m s m1 s1
      → IsReady n e m1 s1
      → react x n e m1 s1 ≡ ret (some m2) s2
      → Runs x n m s m2 s2
  others :
      {m1 : Monitor} {s1 s2 : System W}
      → Runs x n m s m1 s1
      → IsBetween n s1 s2
      → Runs x n m s m1 s2
