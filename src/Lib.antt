-- ===== src/Lib.antt =====
-- The Go bindings of asio-ipfs (src/ipfs_bindings), which let a C++ program run one IPFS node of
-- go-ipfs inside its process.
--
-- The parts, and where they are modelled:
-- - include/ipfs_error_codes.h: Codes. The codes of the exported functions.
-- - src/ipfs_bindings/ipfs_config.go: Config (AsioConfig, updateConfig), Config.Ports
--   (replacePorts, over bytes), with a description of it by segments in Config.Segments, and
--   Config.Build (makeBuildCfg).
-- - src/ipfs_bindings/ipfs_node.go: System (Node and the package's variables), Lifecycle
--   (allocate_node, go_asio_ipfs_free, go_asio_ipfs_node_id), Start.Env (loadPlugins, buildEnv),
--   Start (start_node and the exported functions that call it) and Monitor (the goroutine at the
--   end of start_node, with makeStateCB). Process lets the host start and free the node
--   repeatedly; Process.Refinement has an abstract machine for it.
-- - src/ipfs_bindings/ipfs_repo.go, with formRepoPath, configUnlocked and updateRepo: Repo.
-- - src/ipfs_bindings/ipfs_api.go: Http. maybeRunGC of ipfs_gc.go is in Start.
-- - src/ipfs_bindings/ipfs_cancel.go: Cancel.
-- - src/ipfs_bindings/ipfs_bindings.go and ipfs_gc.go: Requests (the exported functions) and
--   Requests.Bodies (the goroutines that they start).
-- - src/ipfs_bindings/ipfs_log.go, with executeLogCB: Log.
--
-- A function of the source takes the state of the process, `System`, and ends as Base.Outcome says:
-- with a result, with an error, or in a panic. `g_node` is a pointer into a heap of nodes, so that a
-- goroutine can hold a node that `g_node` no longer names. A request makes a context below the
-- node's, registers its cancel function under the caller's signal, and starts a goroutine, which
-- waits in `tasks`; `body_of` of Tasks gives its body, a function of Requests.Bodies, which runs in
-- one step. Calls into C are listed in `calls`, and memory allocated for C in `c_live`.
--
-- Calls of go-ipfs, of its libraries and of the operating system are values of `World.Op`. How the
-- world answers them is the parameter `Libraries`, as are the parsers without effect. Go's own
-- contexts, maps, strings and conversions are modelled. Lines that only log are left out, and a nil
-- node that is passed to a library is taken to panic there.
--
-- Numbers: cancel signals wrap at 64 bits, the conversion of a size to a C int at 32 bits, and a
-- duration at 64 bits. Decimal printing recurs on the number itself, more rounds than it has digits.
--
-- The values that the collector answers with are taken to be whole; where their sum is 2 ^ 32 or
-- more, the conversion to uint32 is left to the implementation by Go, and the model wraps it.
--
-- A start is one step, up to its goroutines: two goroutines of starts do not interleave on the
-- package's variables, as they could in the source. The servers and the periodic GC run inside the
-- libraries: what they report is an event that the monitor receives. The monitor's turns are one
-- step each, with any steps of the others between them. Values of a map are a list.
--
-- Rules for what a function keeps or establishes are in Base.Rules; System.Stable lists the steps
-- that a start is made of, so that an invariant has to be shown for those only.
--
-- Not modelled: what is only logged (printVersion, printSwarmAddrs, printPeers), `startPinMFS`,
-- which only panics and is not called, `go_asio_ipfs_resolve`, whose body is commented out, and the
-- C++ wrapper in src/node.cpp.
pub mod Base
pub mod Codes
pub mod Config
pub mod World
pub mod System
pub mod Tasks
pub mod Cancel
pub mod Requests
pub mod Lifecycle
pub mod Log
pub mod Repo
pub mod Http
pub mod Start
pub mod Monitor
pub mod Process
pub mod Examples
