-- ===== src/Config.antt =====
-- src/ipfs_bindings/ipfs_config.go: the configuration that the caller passes, the part of
-- go-ipfs's configuration that this code reads or writes, and `updateConfig`.
pub mod Ports
pub mod Segments
pub mod Build
pub mod Laws
use asio_ipfs.Base.{
  ℕ, ℤ, String, ◌<>◌, Bool, List, [], ◌∷◌, Bytes, Result, good, bad, is_empty, if◌then◌else◌,
}
use Ports.{Component, replace_ports}

-- A value of a library type that this code only passes on: a pointer, an interface or a struct.
abbrev pub Handle : Type 0
Handle = ℕ

pub record AsioConfig : Type 0 where
  pub low_water : ℤ
  pub high_water : ℤ
  pub grace_period : String
  pub auto_relay : Bool
  pub relay_hop : Bool
  pub bootstrap : List String
  pub peering : List Bytes
  pub swarm_port : ℤ
  pub api_address : Bytes
  pub gateway_address : Bytes
  pub default_profile : String
  pub storage_max : String
  pub auto_nat : Bool
  pub auto_nat_limit : ℤ
  pub auto_nat_peer_limit : ℤ
  pub swarm_key : String
  pub routing_type : String
  pub run_gc : Bool

-- `config.AutoNATServiceMode`
pub data ServiceMode : Type 0 where
  service_unset service_enabled service_disabled : ServiceMode

-- `config.Flag`
pub data Flag : Type 0 where
  flag_default flag_true flag_false : Flag

pub data Throttle : Type 0 where
  unthrottled : Throttle
  throttle : ℤ → ℤ → Throttle

-- `config.Config`, field by field as far as this code goes; `other` is all the rest.
pub record Config : Type 0 where
  pub low_water : ℤ
  pub high_water : ℤ
  pub grace_period : String
  pub enable_auto_relay : Bool
  pub enable_relay_hop : Bool
  pub relay : Flag
  pub routing_type : String
  pub storage_max : String
  pub service_mode : ServiceMode
  pub nat_throttle : Throttle
  pub swarm : List Bytes
  pub api : List Bytes
  pub gateway : List Bytes
  pub bootstrap : List String
  pub peers : List Handle
  pub root_redirect : String
  pub writable : Bool
  pub p2p_http_proxy : Bool
  pub other : Handle

-- The parsers of go-multiaddr, go-libp2p-core and go-ipfs-config. A multiaddress is what
-- `ma.ForEach` makes of it, the list of its components.
pub record Parsers : Type 0 where
  pub new_multiaddr : Bytes → Result String (List Component)
  pub addr_infos : List (List Component) → Result String (List Handle)
  pub parse_bootstrap_peers : List String → Result String (List Handle)
  pub bootstrap_peer_strings : List Handle → List String

infixl 5 ◌>>=◌
abbrev ◌>>=◌ : {A B : Type 0} → Result String A → (A → Result String B) → Result String B
good a >>= f = f a
bad e >>= f = bad e

abbrev prefix_error : {A : Type 0} → String → Result String A → Result String A
prefix_error what (good a) = good a
prefix_error what (bad e) = bad (what <> e)

-- An empty address stands for an empty list, not for a list of an empty address.
abbrev pub address_list : Bytes → List Bytes
address_list addr = if is_empty addr then [] else addr ∷ []

-- The assignments above the swarm port, which cannot fail.
unfoldable pub update_plain : Config → AsioConfig → Config
update_plain conf c = record conf {
  low_water = c.low_water;
  high_water = c.high_water;
  grace_period = c.grace_period;
  enable_auto_relay = c.auto_relay;
  enable_relay_hop = c.relay_hop;
  relay = flag_true;
  routing_type = c.routing_type;
  storage_max = c.storage_max;
  service_mode = if c.auto_nat then service_enabled else service_disabled;
  nat_throttle = throttle c.auto_nat_limit c.auto_nat_peer_limit;
}

module _ (p : Parsers) where
  -- The loop over `c.Peering`.
  parse_peering : List Bytes → Result String (List (List Component))
  parse_peering [] = good []
  parse_peering (addr ∷ addrs) = do
    maddr ← prefix_error "Failed to parse peering address: " (p.new_multiaddr addr)
    maddrs ← parse_peering addrs
    good (maddr ∷ maddrs)

  -- "Bootstrap peers": an empty list keeps those of the configuration.
  unfoldable pub update_bootstrap : List String → Config → Result String Config
  update_bootstrap [] conf = good conf
  update_bootstrap (b ∷ bs) conf = do
    ps ← prefix_error "Failed to parse bootstrap peers: " (p.parse_bootstrap_peers (b ∷ bs))
    good (record conf { bootstrap = p.bootstrap_peer_strings ps })

  unfoldable pub update_peering : List Bytes → Config → Result String Config
  unfolding parse_peering
  update_peering [] conf = good conf
  update_peering (a ∷ as') conf = do
    maddrs ← parse_peering (a ∷ as')
    addrs ← prefix_error "Failed to parse peering list: " (p.addr_infos maddrs)
    good (record conf { peers = addrs })

  -- `updateConfig`. It writes into `conf`; after an error its callers drop `conf`, so the
  -- half-written value is not returned.
  unfoldable pub update_config : Config → AsioConfig → Result String Config
  unfolding update_plain
  update_config conf c = do
    swarm ← replace_ports p.new_multiaddr conf.swarm c.swarm_port
    let plain = update_plain conf c
    booted ← update_bootstrap c.bootstrap (record plain {
      swarm = swarm;
      api = address_list c.api_address;
      gateway = address_list c.gateway_address;
    })
    update_peering c.peering booted
