-- ===== src/Config/Segments/Laws.antt =====
-- `replacePort` changes whole segments of an address.
use asio_ipfs.Base.{
  ℕ, zero, suc, ◌+◌, ◌/◌, ◌%◌, ◌==◌, ltb, ◌≡◌, refl, ap, ◌∙◌, ℤ, pos, negsuc, false, Bool-cases,
  Option-cases, inl, inr, List, [], ◌∷◌, ◌++◌, All, arith, Bytes, codes, good, format_int,
  decimal_rounds,
}
use mathlib.Core.Path.{subst}
use mathlib.Core.List.{append_assoc}
use asio_ipfs.Config.Ports.{
  Component, Parse, p_tcp, p_udp, strip_prefix, replace_all, replace_component, replace_port,
}
use asio_ipfs.Config.Segments.{render, IsSlashFree, bytes_eq, swap, swap_components}
use asio_ipfs.Config.Segments.Scan.{
  replace-render, strip_prefix_lem, free_tail, swap-none, swap-some,
}

digit_free : (d : ℕ) → (b'0' + d == b'/') ≡ false
digit_free d = ground arith

decimal_free : (f n : ℕ) (acc : Bytes) → IsSlashFree acc → IsSlashFree (decimal_rounds f n acc)
unfolding format_int
decimal_free zero n acc h = (digit_free (n % 10), h)
decimal_free (suc f) n acc h = elim (Bool-cases (ltb n 10)) [
  | inl e ↦ rw e ((digit_free n, h))
  | inr e ↦ rw e (decimal_free f (n / 10) _ (digit_free (n % 10), h))
]

format_int-IsSlashFree : (port : ℤ) → IsSlashFree (format_int port)
unfolding format_int
format_int-IsSlashFree (pos n) = decimal_free n n [] tt
format_int-IsSlashFree (negsuc n) = (refl, decimal_free (suc n) (suc n) [] tt)

free_append : (a b : Bytes) → IsSlashFree a → IsSlashFree b → IsSlashFree (a ++ b)
free_append [] b h k = k
free_append (c ∷ a) b (h, hs) k = (h, free_append a b hs k)

module _ (name value new : Bytes) (new_free : IsSlashFree new) where
  swap-free :
      (segs : List Bytes) → All IsSlashFree segs → All IsSlashFree (swap name value new segs)
  swap-free [] h = h
  swap-free (seg ∷ []) h = h
  swap-free (seg ∷ (next ∷ segs)) (h, hs) =
      let rest = swap-free (next ∷ segs) hs in
      let one = swap-free segs hs.1 in
      elim (Bool-cases (bytes_eq name seg)) [
        | inl e ↦ elim (Option-cases (strip_prefix value next)) [
          | inl f ↦ rw (swap-none name value new seg next segs (rw e (rw f (refl)))) ((h, rest))
          | inr (w, f) ↦
              rw (swap-some name value new seg next (new ++ w) segs (rw e (rw f (refl)))) (
                (
                  h,
                  (
                    free_append new w new_free (
                        free_tail value w
                          (subst IsSlashFree (strip_prefix_lem value next w f) hs.0)),
                    one,
                  ),
                ))
        ]
        | inr e ↦ rw (swap-none name value new seg next segs (rw e (refl))) ((h, rest))
      ]

module _ (proto : ℕ) (name : Bytes) (port : ℤ) (name_free : IsSlashFree name) where
  replace_one :
      (value : Bytes) (segs : List Bytes)
      → IsSlashFree value
      → All IsSlashFree segs
      → replace_all
          (render segs)
          ((b'/' ∷ (name ++ (b'/' ∷ []))) ++ value)
          ((b'/' ∷ (name ++ (b'/' ∷ []))) ++ format_int port)
        ≡ render (swap name value (format_int port) segs)
  unfolding replace_all
  replace_one value segs h k = rw (append_assoc name (b'/' ∷ []) value) (
      rw (append_assoc name (b'/' ∷ []) (format_int port))
        (replace-render name value (format_int port) name_free h segs k))

  replace_component-render :
      (comps : List Component) (segs : List Bytes)
      → All (λ c. IsSlashFree c.value) comps
      → All IsSlashFree segs
      → replace_component proto (b'/' ∷ (name ++ (b'/' ∷ []))) port comps (render segs)
        ≡ render (swap_components proto name (format_int port) comps segs)
  unfolding replace_component
  replace_component-render [] segs h k = refl
  replace_component-render (comp ∷ comps) segs (h, hs) k =
      elim (Bool-cases (comp.protocol == proto)) [
        | inl e ↦ rw e (
            ap (replace_component proto (b'/' ∷ (name ++ (b'/' ∷ []))) port comps)
              (replace_one comp.value segs h k)
            ∙ replace_component-render comps (swap name comp.value (format_int port) segs) hs
                (swap-free name comp.value (format_int port) (format_int-IsSlashFree port) segs k))
        | inr e ↦ rw e (replace_component-render comps segs hs k)
      ]

module _ (parse : Parse) (port : ℤ) (segs : List Bytes) (comps : List Component) where
  -- `replacePort` on an address that is the text of slash-free segments, for TCP and for UDP: where
  -- the address parses, and no component's value has a slash, the result is the text of the
  -- segments that the description changes: for each component of the protocol in turn, a segment
  -- behind the protocol's name that begins with the component's value gets the new port in place of
  -- that value, and all other segments stay as they are.
  pub replace_port-render :
      parse (render segs) ≡ good comps
      → All (λ c. IsSlashFree c.value) comps
      → All IsSlashFree segs
      → (replace_port parse (render segs) p_tcp (codes "/tcp/") port
          ≡ good (render (swap_components p_tcp (codes "tcp") (format_int port) comps segs)))
        × (replace_port parse (render segs) p_udp (codes "/udp/") port
            ≡ good (render (swap_components p_udp (codes "udp") (format_int port) comps segs)))
  unfolding replace_port
  replace_port-render parsed values free = (
    rw (parsed, replace_port)
        (ap good (
          replace_component-render p_tcp (codes "tcp") port (refl, (refl, (refl, tt))) comps segs
            values free)),
    rw (parsed, replace_port)
        (ap good (
          replace_component-render p_udp (codes "udp") port (refl, (refl, (refl, tt))) comps segs
            values free)),
  )
