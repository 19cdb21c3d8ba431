-- ===== src/Config/Laws.antt =====
-- What a successful `updateConfig` guarantees.
use asio_ipfs.Base.{
  ◌≡◌, refl, sym, ap, ◌∙◌, inl, inr, String, List, [], ◌∷◌, Bytes, is_empty, Result, good, bad,
  Result-cases, if◌then◌else◌,
}
use mathlib.Core.Path.{subst}
use asio_ipfs.Config.{
  AsioConfig, Config, Handle, Parsers, flag_true, service_enabled, service_disabled, throttle,
  ◌>>=◌, update_plain, address_list, update_bootstrap, parse_peering, update_peering, update_config,
}
use asio_ipfs.Config.Ports.{Component, replace_ports}
use asio_ipfs.Config.Ports.Laws.{IfGood, IsPorted, AllPairs, replace_ports-AllPairs}

IfGood-bind :
    {A B : Type 0} (P : A → Type 0) (Q : B → Type 0) (m : Result String A) (f : A → Result String B)
    → IfGood P m
    → ((a : A) → P a → IfGood Q (f a))
    → IfGood Q (m >>= f)
IfGood-bind P Q (good a) f h k = k a h
IfGood-bind P Q (bad e) f h k = tt

IfGood-imp :
    {A : Type 0} (P Q : A → Type 0) (m : Result String A)
    → IfGood P m
    → ((a : A) → P a → Q a)
    → IfGood Q m
IfGood-imp P Q (good a) h k = k a h
IfGood-imp P Q (bad e) h k = tt

module _ (p : Parsers) where
  -- The bootstrap peers of the caller, parsed and printed, or those of before if there are none.
  abbrev pub IsBootstrapped : List String → List String → List String → Type 0
  IsBootstrapped [] before after = after ≡ before
  IsBootstrapped (b ∷ bs) before after =
      (peers : List Handle) × (p.parse_bootstrap_peers (b ∷ bs) ≡ good peers)
      × (after ≡ p.bootstrap_peer_strings peers)

  -- Each address parses as the multiaddress in its place.
  abbrev pub AreParsed : List Bytes → List (List Component) → Type 0
  AreParsed = AllPairs λ addr maddr. p.new_multiaddr addr ≡ good maddr

  -- The peers at the caller's addresses, or those of before if there are no addresses.
  abbrev pub IsPeered : List Bytes → List Handle → List Handle → Type 0
  IsPeered [] before after = after ≡ before
  IsPeered (a ∷ as') before after =
      (maddrs : List (List Component)) × AreParsed (a ∷ as') maddrs
      × (p.addr_infos maddrs ≡ good after)

  -- What a successful `updateConfig` has set, and what it has left alone. The caller's default
  -- profile, swarm key and GC flag are for other functions.
  pub record IsUpdated (conf : Config) (c : AsioConfig) (r : Config) : Type 0 where
    pub connections : (r.low_water ≡ c.low_water) × (r.high_water ≡ c.high_water)
    pub grace : r.grace_period ≡ c.grace_period
    pub relays : (r.enable_auto_relay ≡ c.auto_relay) × (r.enable_relay_hop ≡ c.relay_hop)
    pub relay_on : r.relay ≡ flag_true
    pub routing : r.routing_type ≡ c.routing_type
    pub storage : r.storage_max ≡ c.storage_max
    pub nat : r.service_mode ≡ (if c.auto_nat then service_enabled else service_disabled)
    pub nat_limits : r.nat_throttle ≡ throttle c.auto_nat_limit c.auto_nat_peer_limit
    pub api_set : r.api ≡ (if is_empty c.api_address then [] else c.api_address ∷ [])
    pub gateway_set :
        r.gateway ≡ (if is_empty c.gateway_address then [] else c.gateway_address ∷ [])
    pub swarm_set : AllPairs (IsPorted p.new_multiaddr c.swarm_port) conf.swarm r.swarm
    pub bootstrap_set : IsBootstrapped c.bootstrap conf.bootstrap r.bootstrap
    pub peering_set : IsPeered c.peering conf.peers r.peers
    pub rest_kept : (r.root_redirect ≡ conf.root_redirect) × (r.writable ≡ conf.writable)
    pub other_kept : (r.p2p_http_proxy ≡ conf.p2p_http_proxy) × (r.other ≡ conf.other)

  parse_peering-AreParsed : (addrs : List Bytes) → IfGood (AreParsed addrs) (parse_peering p addrs)
  unfolding update_peering
  parse_peering-AreParsed [] = tt
  parse_peering-AreParsed (addr ∷ addrs) = elim (Result-cases (p.new_multiaddr addr)) [
    | inl (e, failed) ↦ rw failed (tt)
    | inr (maddr, h) ↦ rw h (
        IfGood-bind (AreParsed addrs) (AreParsed (addr ∷ addrs)) (parse_peering p addrs) _
          (parse_peering-AreParsed addrs) λ maddrs parsed. (h, parsed))
  ]

  update_peering_lem :
      (peering : List Bytes) (conf : Config)
      → IfGood
          (λ r.
            (peers : List Handle) × (r ≡ record conf { peers = peers })
            × IsPeered peering conf.peers peers)
          (update_peering p peering conf)
  unfolding update_peering
  update_peering_lem [] conf = (conf.peers, refl, refl)
  update_peering_lem (a ∷ more) conf =
      IfGood-bind (AreParsed (a ∷ more)) _ (parse_peering p (a ∷ more)) _
        (parse_peering-AreParsed (a ∷ more))
        λ maddrs parsed. elim (Result-cases (p.addr_infos maddrs)) [
          | inl (e, failed) ↦ rw failed (tt)
          | inr (infos, h) ↦ rw h ((infos, refl, (maddrs, parsed, h)))
        ]

  update_bootstrap_lem :
      (bootstrap : List String) (conf : Config)
      → IfGood
          (λ r.
            (booted : List String) × (r ≡ record conf { bootstrap = booted })
            × IsBootstrapped bootstrap conf.bootstrap booted)
          (update_bootstrap p bootstrap conf)
  unfolding update_bootstrap
  update_bootstrap_lem [] conf = (conf.bootstrap, refl, refl)
  update_bootstrap_lem (b ∷ bs) conf = elim (Result-cases (p.parse_bootstrap_peers (b ∷ bs))) [
    | inl (e, failed) ↦ rw failed (tt)
    | inr (ps, h) ↦ rw h ((p.bootstrap_peer_strings ps, refl, (ps, refl, refl)))
  ]

  -- A successful `updateConfig` has written the caller's settings: the connection limits, the
  -- relays, the routing, the storage, the NAT service, the API and gateway address, of which an
  -- empty one makes an empty list, the swarm port into each swarm address as `replacePort` does,
  -- first for TCP and then for UDP, and the bootstrap and peering peers, of which empty lists keep
  -- what there was. It has changed no field that the record lists as kept.
  pub update_config_good :
      (conf : Config) (c : AsioConfig) → IfGood (IsUpdated conf c) (update_config p conf c)
  unfolding update_config update_plain
  update_config_good conf c =
      IfGood-bind (AllPairs (IsPorted p.new_multiaddr c.swarm_port) conf.swarm) (IsUpdated conf c)
        (replace_ports p.new_multiaddr conf.swarm c.swarm_port) _
        (replace_ports-AllPairs p.new_multiaddr conf.swarm c.swarm_port)
        λ swarm ported.
          IfGood-bind _ (IsUpdated conf c) (update_bootstrap p c.bootstrap (with_addresses swarm)) _
            (update_bootstrap_lem c.bootstrap (with_addresses swarm))
            λ booted (strings, e, k).
              IfGood-imp _ (IsUpdated conf c) (update_peering p c.peering booted)
                (update_peering_lem c.peering booted)
                λ r (peers, f, l). updated_of swarm strings peers ported k booted e r f l
    where
      with_addresses : List Bytes → Config
      with_addresses swarm = record (update_plain conf c) {
        swarm = swarm;
        api = address_list c.api_address;
        gateway = address_list c.gateway_address;
      }

      final_IsUpdated :
          (swarm : List Bytes) (strings : List String) (peers : List Handle)
          → AllPairs (IsPorted p.new_multiaddr c.swarm_port) conf.swarm swarm
          → IsBootstrapped c.bootstrap conf.bootstrap strings
          → IsPeered c.peering conf.peers peers
          → IsUpdated conf c (record (with_addresses swarm) { bootstrap = strings; peers = peers })
      final_IsUpdated swarm strings peers ported k l = record {
        connections = (refl, refl);
        grace = refl;
        relays = (refl, refl);
        relay_on = refl;
        routing = refl;
        storage = refl;
        nat = refl;
        nat_limits = refl;
        api_set = refl;
        gateway_set = refl;
        swarm_set = ported;
        bootstrap_set = k;
        peering_set = l;
        rest_kept = (refl, refl);
        other_kept = (refl, refl);
      }

      updated_of :
          (swarm : List Bytes) (strings : List String) (peers : List Handle)
          → AllPairs (IsPorted p.new_multiaddr c.swarm_port) conf.swarm swarm
          → IsBootstrapped c.bootstrap conf.bootstrap strings
          → (booted : Config) → booted ≡ record (with_addresses swarm) { bootstrap = strings }
          → (r : Config) → r ≡ record booted { peers = peers }
          → IsPeered c.peering booted.peers peers
          → IsUpdated conf c r
      updated_of swarm strings peers ported k booted e r f l =
          subst (IsUpdated conf c) (sym (f ∙ ap (λ (b : Config). record b { peers = peers }) e)) (
            final_IsUpdated swarm strings peers ported k
              (subst (λ (b : Config). IsPeered c.peering b.peers peers) e l))
