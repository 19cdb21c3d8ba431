-- ===== src/Config/Build.antt =====
-- src/ipfs_bindings/ipfs_config.go: `makeBuildCfg`.
pub mod Laws
use asio_ipfs.Base.{
  ℕ, String, Bool, true, false, Panic, routing_option, Result, good, bad, str_eq, if◌then◌else◌,
}

-- libp2p's `DHTClientOption`, `DHTOption`, `DHTServerOption` and `NilRouterOption`.
pub data Routing : Type 0 where
  dht_client dht dht_server nil_router : Routing

-- `core.BuildCfg`; the two last fields are the entries of `ExtraOpts`.
pub record BuildCfg : Type 0 where
  pub repo : ℕ
  pub permanent : Bool
  pub online : Bool
  pub disable_encrypted_connections : Bool
  pub routing : Routing
  pub pubsub : Bool
  pub ipnsps : Bool

-- The empty routing option stands for "dht".
pub routing_name : String → String
routing_name name = if str_eq name "" then "dht" else name

-- The switch; its default case panics.
pub routing_of : String → Result Panic Routing
routing_of option =
    if str_eq option "dhtclient"
    then good dht_client
    else if str_eq option "dht"
    then good dht
    else if str_eq option "dhtserver"
    then good dht_server
    else if str_eq option "none"
    then good nil_router
    else bad (routing_option option)

unfoldable pub make_build_cfg : ℕ → String → Result Panic BuildCfg
unfolding routing_name routing_of
make_build_cfg repo routing_type = elim (routing_of (routing_name routing_type)) [
  | bad p ↦ bad p
  | good r ↦ good (record {
    repo = repo;
    permanent = true;
    online = true;
    disable_encrypted_connections = false;
    routing = r;
    pubsub = false;
    ipnsps = false;
  })
]
