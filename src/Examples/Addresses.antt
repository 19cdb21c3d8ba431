-- ===== src/Examples/Addresses.antt =====
-- The theorem on the ports of an address at concrete data: an address with one port, and one with two
-- ports of which one begins with the other.
use asio_ipfs.Base.{pos, ◌≡◌, refl, List, [], ◌∷◌, Bytes, codes, good, format_int}
use asio_ipfs.Config.Ports.{
  Component, Parse, p_tcp, p_udp, replace_port, replace_component, replace_all, replace_from,
  strip_prefix,
}
use asio_ipfs.Config.Segments.{render, swap_components}
use asio_ipfs.Config.Segments.Laws.{replace_port-render}

abbrev public_segments : List Bytes
public_segments = codes "ip4" ∷ codes "0.0.0.0" ∷ codes "tcp" ∷ codes "4001" ∷ []

abbrev public_components : List Component
public_components =
    record { protocol = 4; value = codes "0.0.0.0" }
    ∷ record { protocol = 6; value = codes "4001" }
    ∷ []

abbrev parse_public : Parse
parse_public addr = good public_components

replace_port-render_example :
    (replace_port parse_public (render public_segments) p_tcp (codes "/tcp/") (pos 5)
      ≡ good (
          render (
            swap_components p_tcp
              (codes "tcp")
              (format_int (pos 5))
              public_components
              public_segments)))
    × (replace_port parse_public (render public_segments) p_udp (codes "/udp/") (pos 5)
        ≡ good (
            render (
              swap_components p_udp
                (codes "udp")
                (format_int (pos 5))
                public_components
                public_segments)))
replace_port-render_example =
    replace_port-render parse_public (pos 5) public_segments public_components refl
      (
        (refl, (refl, (refl, (refl, (refl, (refl, (refl, tt))))))),
        ((refl, (refl, (refl, (refl, tt)))), tt),
      )
      (
        (refl, (refl, (refl, tt))),
        (
          (refl, (refl, (refl, (refl, (refl, (refl, (refl, tt))))))),
          ((refl, (refl, (refl, tt))), ((refl, (refl, (refl, (refl, tt)))), tt)),
        ),
      )

-- The port of the first component is a prefix of the other port, which is not replaced as a whole.
relay_test :
    replace_port
      (λ addr. good (
        record { protocol = 6; value = codes "40" }
        ∷ record { protocol = 6; value = codes "4001" }
        ∷ []))
      (codes "/tcp/40/p2p-circuit/tcp/4001")
      p_tcp
      (codes "/tcp/")
      (pos 5)
    ≡ good (codes "/tcp/5/p2p-circuit/tcp/501")
unfolding replace_port replace_component replace_all replace_from strip_prefix format_int
relay_test = refl
