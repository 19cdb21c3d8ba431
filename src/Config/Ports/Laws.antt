-- ===== src/Config/Ports/Laws.antt =====
-- What `replacePorts` makes of a list of addresses.
use asio_ipfs.Base.{ℤ, ◌≡◌, refl, String, List, [], ◌∷◌, Bytes, codes, Result, good, bad}
use asio_ipfs.Config.Ports.{Parse, p_tcp, p_udp, replace_port, replace_both, replace_ports}

-- A result that is no error has the property.
abbrev pub IfGood {α} : {A : Type α} → (A → Type 0) → Result String A → Type 0
IfGood P (good a) = P a
IfGood P (bad e) = Unit

-- `replacePort` gave `out` for the address, first for its TCP ports and then for its UDP ports.
abbrev pub IsPorted : Parse → ℤ → Bytes → Bytes → Type 0
IsPorted parse port addr out =
    (mid : Bytes) × (replace_port parse addr p_tcp (codes "/tcp/") port ≡ good mid)
    × (replace_port parse mid p_udp (codes "/udp/") port ≡ good out)

-- Two lists of one length, whose entries are related in order.
abbrev pub AllPairs : {A B : Type 0} → (A → B → Type 0) → List A → List B → Type 0
AllPairs R [] [] = Unit
AllPairs R [] (b ∷ bs) = ⊥
AllPairs R (a ∷ as') [] = ⊥
AllPairs R (a ∷ as') (b ∷ bs) = R a b × AllPairs R as' bs

udp_lem :
    (parse : Parse) (addr mid : Bytes) (port : ℤ) (r : Result String Bytes)
    → replace_port parse addr p_tcp (codes "/tcp/") port ≡ good mid
    → replace_port parse mid p_udp (codes "/udp/") port ≡ r
    → IfGood (IsPorted parse port addr) r
udp_lem parse addr mid port (good out) h k = (mid, h, k)
udp_lem parse addr mid port (bad e) h k = tt

tcp_lem :
    (parse : Parse) (addr : Bytes) (port : ℤ) (r : Result String Bytes)
    → replace_port parse addr p_tcp (codes "/tcp/") port ≡ r
    → IfGood (IsPorted parse port addr) (elim r [
      | bad e ↦ bad e
      | good addr' ↦ replace_port parse addr' p_udp (codes "/udp/") port
    ])
tcp_lem parse addr port (good mid) h = udp_lem parse addr mid port _ h refl
tcp_lem parse addr port (bad e) h = tt

replace_both-IsPorted :
    (parse : Parse) (addr : Bytes) (port : ℤ)
    → IfGood (IsPorted parse port addr) (replace_both parse addr port)
unfolding replace_both
replace_both-IsPorted parse addr port = tcp_lem parse addr port _ refl

cons_lem :
    (R : Bytes → Bytes → Type 0) (addr out : Bytes) (addrs : List Bytes)
    (r : Result String (List Bytes))
    → R addr out
    → IfGood (AllPairs R addrs) r
    → IfGood (AllPairs R (addr ∷ addrs)) (elim r [ bad e ↦ bad e | good outs ↦ good (out ∷ outs) ])
cons_lem R addr out addrs (good outs) h k = (h, k)
cons_lem R addr out addrs (bad e) h k = tt

both_lem :
    (R : Bytes → Bytes → Type 0) (addr : Bytes) (addrs : List Bytes) (r : Result String Bytes)
    (rest : Result String (List Bytes))
    → IfGood (R addr) r
    → IfGood (AllPairs R addrs) rest
    → IfGood (AllPairs R (addr ∷ addrs)) (elim r [
      | bad e ↦ bad e
      | good out ↦ elim rest [ bad e ↦ bad e | good outs ↦ good (out ∷ outs) ]
    ])
both_lem R addr addrs (good out) rest h k = cons_lem R addr out addrs rest h k
both_lem R addr addrs (bad e) rest h k = tt

pub replace_ports-AllPairs :
    (parse : Parse) (addrs : List Bytes) (port : ℤ)
    → IfGood (AllPairs (IsPorted parse port) addrs) (replace_ports parse addrs port)
unfolding replace_ports
replace_ports-AllPairs parse [] port = tt
replace_ports-AllPairs parse (addr ∷ addrs) port =
    both_lem (IsPorted parse port) addr addrs (replace_both parse addr port)
      (replace_ports parse addrs port) (replace_both-IsPorted parse addr port)
      (replace_ports-AllPairs parse addrs port)
