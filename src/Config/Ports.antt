-- ===== src/Config/Ports.antt =====
-- src/ipfs_bindings/ipfs_config.go: `replacePorts`, over the bytes of the addresses.
pub mod Laws
use asio_ipfs.Base.{
  ℕ, zero, suc, ◌-◌, ℤ, ◌==◌, String, Option, none, some, List, [], ◌∷◌, ◌++◌, length, Bytes, codes,
  Result, good, bad, format_int, if◌then◌else◌,
}

-- `ma.Component`, of which `replacePort` reads `Protocol().Code` and `Value()`.
pub record Component : Type 0 where
  pub protocol : ℕ
  pub value : Bytes

-- `ma.P_TCP` and `ma.P_UDP`, of go-multiaddr's table of protocols.
abbrev pub p_tcp : ℕ
p_tcp = 6

abbrev pub p_udp : ℕ
p_udp = 273

-- What follows a prefix, if the bytes begin with it.
unfoldable pub strip_prefix : Bytes → Bytes → Option Bytes
strip_prefix [] s = some s
strip_prefix (c ∷ cs) [] = none
strip_prefix (c ∷ cs) (d ∷ ds) = if c == d then strip_prefix cs ds else none

-- `strings.Replace(s, what, with, -1)` for a `what` that is not empty: the occurrences that do not
-- overlap, from the left. `skip` counts the bytes of an occurrence that are still to pass.
unfoldable pub replace_from : Bytes → Bytes → ℕ → Bytes → Bytes
replace_from what with skip [] = []
replace_from what with (suc skip) (c ∷ s) = replace_from what with skip s
replace_from what with zero (c ∷ s) = elim (strip_prefix what (c ∷ s)) [
  | some rest ↦ with ++ replace_from what with (length what - 1) s
  | none ↦ c ∷ replace_from what with zero s
]

unfoldable pub replace_all : Bytes → Bytes → Bytes → Bytes
unfolding replace_from strip_prefix
replace_all s what with = replace_from what with 0 s

-- The function that `replacePort` passes to `ma.ForEach`, for each component in turn.
unfoldable pub replace_component : ℕ → Bytes → ℤ → List Component → Bytes → Bytes
replace_component proto prefix new_port [] addr = addr
replace_component proto prefix new_port (comp ∷ comps) addr =
    replace_component proto prefix new_port comps (
      if comp.protocol == proto
      then replace_all addr (prefix ++ comp.value) (prefix ++ format_int new_port)
      else addr)

abbrev pub Parse : Type 0
Parse = Bytes → Result String (List Component)

-- `replacePort`
unfoldable pub replace_port : Parse → Bytes → ℕ → Bytes → ℤ → Result String Bytes
unfolding replace_component
replace_port parse addr proto prefix new_port = elim (parse addr) [
  | bad e ↦ bad e
  | good maddr ↦ good (replace_component proto prefix new_port maddr addr)
]

-- The body of the loop of `replacePorts`: first the TCP ports, then the UDP ports of the result.
unfoldable pub replace_both : Parse → Bytes → ℤ → Result String Bytes
unfolding replace_port
replace_both parse addr new_port = elim (replace_port parse addr p_tcp (codes "/tcp/") new_port) [
  | bad e ↦ bad e
  | good addr' ↦ replace_port parse addr' p_udp (codes "/udp/") new_port
]

-- `replacePorts`. The source writes the addresses in place, and stops at the first error.
unfoldable pub replace_ports : Parse → List Bytes → ℤ → Result String (List Bytes)
unfolding replace_both
replace_ports parse [] new_port = good []
replace_ports parse (addr ∷ addrs) new_port = elim (replace_both parse addr new_port) [
  | bad e ↦ bad e
  | good addr' ↦ elim (replace_ports parse addrs new_port) [
    | bad e ↦ bad e
    | good addrs' ↦ good (addr' ∷ addrs')
  ]
]
