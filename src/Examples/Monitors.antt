-- ===== src/Examples/Monitors.antt =====
-- The theorems on the state monitor at concrete data: a monitor that receives an error from the GC.
use asio_ipfs.Base.{
  ◌≡◌, ◌++◌, refl, String, Option, none, some, List, [], ◌∷◌, ℕ, ◌>>=◌, ret, Returns, get_elem?,
}
use asio_ipfs.Config.{Handle}
use asio_ipfs.World.{Op}
use asio_ipfs.System.{Node, System, state_change, load, perform, execute, cancel_mark}
use asio_ipfs.Monitor.{
  Monitor, Source, gc_chan, api_chan, received, stopped, launch, react, total_peers, report,
  receive, forget, turn, cancel_after,
}
use asio_ipfs.Monitor.Runs.{Runs, begin, turned, state_changes, chan_of, IsReady}
use asio_ipfs.Monitor.Invariant.{Counts, IsChain}
use asio_ipfs.Monitor.Laws.{monitor_reports, monitor_stops, monitor_closes}
use asio_ipfs.Examples.{libraries, started_node, running}

abbrev begun : Monitor
begun = record {
  gc = some 0;
  api = some 1;
  gateway = none;
  pcnt = 7;
  lasterr = none;
  fn = 1;
  arg = 2;
}

abbrev counted : System ℕ
counted = record running {
  world = 1;
  trace = (Op.peers_total_values 13, 4 ∷ 3 ∷ []) ∷ [];
  calls = state_change 1 2 none 7 ∷ [];
}

abbrev failed : Monitor
failed = record begun { lasterr = some "no space" }

abbrev cancelled : System ℕ
cancelled = record counted { cancelled = 0 ∷ [] }

begins : launch libraries 0 (some 0) (some 1) none running ≡ ret begun counted
unfolding launch total_peers report load perform execute ◌>>=◌
begins = refl

fails : Runs libraries 0 begun counted failed cancelled
unfolding react receive turn cancel_after load cancel_mark ◌>>=◌
fails = turned (received gc_chan (some "no space")) begin refl refl

monitor_reports_example :
    (news : List (Option String × ℕ)) × (state_changes cancelled.calls ≡ news ++ ((none, 7) ∷ []))
    × IsChain libraries 7 7 news
    × (node : Node) × (collector : Handle) × (get_elem? running.heap 0 ≡ some node)
    × (node.collector ≡ some collector)
    × Counts libraries collector running.world 7
    × ((c : Source) → chan_of c begun ≡ none → chan_of c failed ≡ none)
monitor_reports_example =
    monitor_reports libraries 0 (some 0) (some 1) none running counted cancelled begun failed begins
      fails

monitor_stops_example :
    IsReady 0 stopped failed cancelled
    × Returns
        (λ r t.
          (r ≡ none)
          × (state_changes t.calls ≡ (some "no space", 0) ∷ state_changes cancelled.calls)
          × (t.c_live ≡ cancelled.c_live))
        (react libraries 0 stopped failed cancelled)
monitor_stops_example =
    monitor_stops libraries 0 (some 0) (some 1) none running counted cancelled begun failed
      "no space" started_node begins fails refl refl refl

abbrev closed : Monitor
closed = record begun { api = none }

closes : react libraries 0 (received api_chan none) begun counted ≡ ret (some closed) counted
unfolding react receive forget turn cancel_after ◌>>=◌
closes = refl

monitor_closes_example : ¬ IsReady 0 (received api_chan (some "late")) closed counted
monitor_closes_example =
    monitor_closes libraries 0 api_chan begun closed closed counted counted counted (some "late")
      closes begin
