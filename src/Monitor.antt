-- ===== src/Monitor.antt =====
-- The state monitor: the goroutine at the end of `start_node` in src/ipfs_bindings/ipfs_node.go, and
-- `makeStateCB` of ipfs_bindings.go. The `select` chooses an event; what it does then is `react`.
pub mod Runs
pub mod Invariant
pub mod Laws
use asio_ipfs.Base.{
  ℕ, ◌+◌, ◌%◌, ◌^◌, String, Option, none, some, List, [], ◌∷◌, ◌==◌, if◌then◌else◌, ◌>>=◌, ◌>>◌,
  pure,
}
use asio_ipfs.World
use asio_ipfs.World.{Libraries}
use asio_ipfs.System.{
  Action, load, deref, perform, execute, c_alloc, c_free, cancel_mark, state_change,
}

-- The variables of the goroutine. A channel that is nil is never ready. `fn` and `arg` are what the
-- closure of `makeStateCB` captures.
pub record Monitor : Type 0 where
  pub gc : Option ℕ
  pub api : Option ℕ
  pub gateway : Option ℕ
  pub pcnt : ℕ
  pub lasterr : Option String
  pub fn : ℕ
  pub arg : ℕ

pub data Source : Type 0 where
  gc_chan api_chan gateway_chan : Source

-- The case of the `select` that is chosen. A received value is an error, or nil, which a closed
-- channel yields too. `tick` is the timer of two seconds, and `stopped` is `<- n.ctx.Done()`.
pub data Event : Type 0 where
  received : Source → Option String → Event
  tick stopped : Event

abbrev pub total : List ℕ → ℕ
total [] = 0
total (v ∷ vs) = v + total vs

-- The channel is never read again.
unfoldable pub forget : Source → Monitor → Monitor
forget gc_chan m = record m { gc = none }
forget api_chan m = record m { api = none }
forget gateway_chan m = record m { gateway = none }

unfoldable pub receive : Source → Option String → Monitor → Monitor
receive c (some e) m = record m { lasterr = some e }
receive c none m = forget c m

module _ {W : Type 0} where
  -- The function that `makeStateCB` returns. The text of the error is freed after the call.
  unfoldable pub report : ℕ → ℕ → Option String → ℕ → Action W (Unit {0})
  report fn arg none peercnt = execute (state_change fn arg none peercnt)
  report fn arg (some e) peercnt = do
    cstr ← c_alloc
    execute (state_change fn arg (some e) peercnt)
    c_free cstr

  -- `if lasterr != nil { n.cancel() }`, on every turn of the loop.
  unfoldable pub cancel_after : ℕ → Option String → Action W (Unit {0})
  cancel_after n none = pure tt
  cancel_after n (some e) = do node ← load n; cancel_mark node.cancel

  unfoldable pub turn : ℕ → Monitor → Action W (Option Monitor)
  turn n m = do cancel_after n m.lasterr; pure (some m)

module _ {W : Type 0} (x : Libraries W) where
  -- The values are floats with no fraction; `uint32` keeps their sum modulo 2 ^ 32.
  unfoldable pub total_peers : ℕ → Action W ℕ
  total_peers n = do
    node ← load n
    collector ← deref node.collector
    vs ← perform x (World.Op.peers_total_values collector)
    pure (total vs % 2 ^ 32)

  -- What the goroutine does before its loop.
  unfoldable pub launch : ℕ → Option ℕ → Option ℕ → Option ℕ → Action W Monitor
  launch n gc api gateway = do
    pcnt ← total_peers n
    node ← load n
    report node.state_cb node.state_cb_arg none pcnt
    pure (record {
      gc = gc;
      api = api;
      gateway = gateway;
      pcnt = pcnt;
      lasterr = none;
      fn = node.state_cb;
      arg = node.state_cb_arg;
    })

  -- The peers are counted, and a new number is reported.
  unfoldable pub count_peers : Monitor → ℕ → Action W Monitor
  count_peers m ncnt =
      if m.pcnt == ncnt
      then pure m
      else (do report m.fn m.arg none ncnt; pure (record m { pcnt = ncnt }))

  -- One turn of the loop. There is none after `stopped`: the goroutine returns.
  unfoldable pub react : ℕ → Event → Monitor → Action W (Option Monitor)
  react n (received c e) m = turn n (receive c e m)
  react n tick m = do ncnt ← total_peers n; next ← count_peers m ncnt; turn n next
  react n stopped m = do report m.fn m.arg m.lasterr 0; pure none
