-- ===== src/Config/Build/Laws.antt =====
-- The configuration that `makeBuildCfg` makes for each name of a routing.
use asio_ipfs.Base.{
  ℕ, ◌≡◌, refl, ◌⊎◌, inl, inr, String, eq_iff, true, false, arith, good, bad, routing_option,
}
use asio_ipfs.Config.Build.{
  BuildCfg, Routing, dht_client, dht, dht_server, nil_router, make_build_cfg,
}

-- The routing that `makeBuildCfg` means by a name.
abbrev pub IsRouting : String → Routing → Type 0
IsRouting name dht_client = name ≡ "dhtclient"
IsRouting name dht = (name ≡ "") ⊎ (name ≡ "dht")
IsRouting name dht_server = name ≡ "dhtserver"
IsRouting name nil_router = name ≡ "none"

-- The configuration of a permanent, online node on the repository.
abbrev pub build_cfg : ℕ → Routing → BuildCfg
build_cfg repo r = record {
  repo = repo;
  permanent = true;
  online = true;
  disable_encrypted_connections = false;
  routing = r;
  pubsub = false;
  ipnsps = false;
}

known_routing :
    (repo : ℕ) (name : String) (r : Routing)
    → IsRouting name r
    → make_build_cfg repo name ≡ good (build_cfg repo r)
unfolding make_build_cfg
known_routing repo name dht_client h = rw h (refl)
known_routing repo name dht (inl h) = rw h (refl)
known_routing repo name dht (inr h) = rw h (refl)
known_routing repo name dht_server h = rw h (refl)
known_routing repo name nil_router h = rw h (refl)

-- `makeBuildCfg` makes an online and permanent configuration on the repository, without pubsub and
-- with encryption: with the client, the full or the server DHT for "dhtclient", "dht" and
-- "dhtserver", with no router for "none", and with the full DHT for the empty name. For any other
-- name it panics.
pub make_build_cfg_lem :
    (repo : ℕ) (name : String)
    → ((r : Routing) → IsRouting name r → make_build_cfg repo name ≡ good (build_cfg repo r))
      × (((r : Routing) → ¬ IsRouting name r)
          → make_build_cfg repo name ≡ bad (routing_option name))
unfolding make_build_cfg
make_build_cfg_lem repo name = (
  λ r h. known_routing repo name r h,
  λ h.
      let no_client = h dht_client in
      let no_dht = h dht in
      let no_server = h dht_server in
      let no_router = h nil_router in
      ground (
        arith,
        eq_iff name "",
        eq_iff name "dhtclient",
        eq_iff name "dht",
        eq_iff name "dhtserver",
        eq_iff name "none",
      ),
)
