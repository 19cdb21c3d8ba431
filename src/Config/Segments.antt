-- ===== src/Config/Segments.antt =====
-- `replacePort` on an address that is a list of segments, each behind a slash: an independent
-- description, which changes whole segments.
pub mod Scan
pub mod Laws
use asio_ipfs.Base.{
  ℕ, ◌+◌, ◌==◌, ◌≡◌, Bool, true, false, Option, none, some, List, [], ◌∷◌, ◌++◌, All, Bytes,
  if◌then◌else◌,
}
use asio_ipfs.Config.Ports.{Component, strip_prefix}

-- The text of an address, such as `/ip4/0.0.0.0/tcp/4001`.
abbrev pub render : List Bytes → Bytes
render [] = []
render (seg ∷ segs) = b'/' ∷ (seg ++ render segs)

abbrev pub IsSlashFree : Bytes → Type 0
IsSlashFree = All (λ c. (c == b'/') ≡ false)

abbrev pub bytes_eq : Bytes → Bytes → Bool
bytes_eq [] [] = true
bytes_eq [] (d ∷ ds) = false
bytes_eq (c ∷ cs) [] = false
bytes_eq (c ∷ cs) (d ∷ ds) = if c == d then bytes_eq cs ds else false

-- What the segment `next` behind the segment `seg` becomes, if `seg` is the name and `next` begins
-- with the value: the rest of it is kept.
abbrev pub swapped : Bytes → Bytes → Bytes → Bytes → Bytes → Option Bytes
swapped name value new seg next =
    if bytes_eq name seg
    then elim (strip_prefix value next) [ none ↦ none | some w ↦ some (new ++ w) ]
    else none

abbrev pub swap : Bytes → Bytes → Bytes → List Bytes → List Bytes
swap name value new [] = []
swap name value new (seg ∷ []) = seg ∷ []
swap name value new (seg ∷ (next ∷ segs)) =
    let one = swap name value new segs in
    let rest = swap name value new (next ∷ segs) in
    elim (swapped name value new seg next) [ none ↦ seg ∷ rest | some out ↦ seg ∷ (out ∷ one) ]

-- What one `replacePort` does: each component of the protocol in turn.
abbrev pub swap_components : ℕ → Bytes → Bytes → List Component → List Bytes → List Bytes
swap_components proto name new [] segs = segs
swap_components proto name new (comp ∷ comps) segs =
    swap_components proto name new comps
      (if comp.protocol == proto then swap name comp.value new segs else segs)
