-- ===== src/Config/Segments/Scan.antt =====
-- The scan of `strings.Replace` over the text of an address, segment by segment.
use asio_ipfs.Base.{
  ℕ, suc, ◌-◌, ◌==◌, ◌≡◌, refl, sym, ap, ◌∙◌, Bool, true, false, Bool-cases, inl, inr, Option,
  Option-cases, none, some, List, [], ◌∷◌, ◌++◌, length, All, arith, Bytes, if◌then◌else◌,
}
use mathlib.Core.Path.{subst}
use mathlib.Core.List.{append_assoc}
use asio_ipfs.Config.Ports.{strip_prefix, replace_from}
use asio_ipfs.Config.Segments.{render, IsSlashFree, bytes_eq, swapped, swap}

==_flip : (a b : ℕ) → (a == b) ≡ false → (b == a) ≡ false
==_flip a b h = ground arith

skip_lem :
    (what with a s : Bytes)
    → replace_from what with (length a) (a ++ s) ≡ replace_from what with 0 s
unfolding replace_from
skip_lem what with [] s = refl
skip_lem what with (c ∷ a) s = skip_lem what with a s

hit_lem :
    (what with : Bytes) (c : ℕ) (s r : Bytes)
    → strip_prefix what (c ∷ s) ≡ some r
    → replace_from what with 0 (c ∷ s) ≡ with ++ replace_from what with (length what - 1) s
unfolding replace_from
hit_lem what with c s r h = rw (h, replace_from) (refl)

miss_lem :
    (what with : Bytes) (c : ℕ) (s : Bytes)
    → strip_prefix what (c ∷ s) ≡ none
    → replace_from what with 0 (c ∷ s) ≡ c ∷ replace_from what with 0 s
unfolding replace_from
miss_lem what with c s h = rw (h, replace_from) (refl)

no_slash_lem :
    (what : Bytes) (c : ℕ) (s : Bytes)
    → (c == b'/') ≡ false
    → strip_prefix (b'/' ∷ what) (c ∷ s) ≡ none
unfolding strip_prefix
no_slash_lem what c s h = rw (==_flip c b'/' h) (refl)

copy_lem :
    (what with seg s : Bytes)
    → IsSlashFree seg
    → replace_from (b'/' ∷ what) with 0 (seg ++ s) ≡ seg ++ replace_from (b'/' ∷ what) with 0 s
copy_lem what with [] s h = refl
copy_lem what with (c ∷ seg) s (h, hs) =
    miss_lem (b'/' ∷ what) with c (seg ++ s) (no_slash_lem what c (seg ++ s) h)
    ∙ ap (λ r. c ∷ r) (copy_lem what with seg s hs)

bytes_eq_lem : (a b : Bytes) → bytes_eq a b ≡ true → a ≡ b
bytes_eq_lem [] [] h = refl
bytes_eq_lem [] (d ∷ ds) h = absurd (cc)
bytes_eq_lem (c ∷ cs) [] h = absurd (cc)
bytes_eq_lem (c ∷ cs) (d ∷ ds) h = ground (arith, bytes_eq_lem cs ds)

pub strip_prefix_lem : (value s w : Bytes) → strip_prefix value s ≡ some w → s ≡ value ++ w
unfolding strip_prefix
strip_prefix_lem [] s w h = ground arith
strip_prefix_lem (c ∷ cs) [] w h = absurd (cc)
strip_prefix_lem (c ∷ cs) (d ∷ ds) w h = ground (arith, strip_prefix_lem cs ds w)

-- A name that ends in a slash, against a segment.
strip_name :
    (name value seg : Bytes) (segs : List Bytes)
    → IsSlashFree name
    → IsSlashFree seg
    → strip_prefix (name ++ (b'/' ∷ value)) (seg ++ render segs)
      ≡ (if bytes_eq name seg then strip_prefix (b'/' ∷ value) (render segs) else none)
unfolding strip_prefix
strip_name [] value [] segs h k = refl
strip_name [] value (d ∷ ds) segs h (k, ks) = rw (==_flip d b'/' k) (refl)
strip_name (c ∷ cs) value [] [] h k = refl
strip_name (c ∷ cs) value [] (seg ∷ segs) (h, hs) k = rw h (refl)
strip_name (c ∷ cs) value (d ∷ ds) segs (h, hs) (k, ks) = elim (Bool-cases (c == d)) [
  | inl e ↦ rw e (strip_name cs value ds segs hs ks)
  | inr e ↦ rw e (refl)
]

strip_value :
    (value seg : Bytes) (segs : List Bytes)
    → IsSlashFree value
    → strip_prefix value (seg ++ render segs)
      ≡ elim (strip_prefix value seg) [ none ↦ none | some w ↦ some (w ++ render segs) ]
unfolding strip_prefix
strip_value [] seg segs h = refl
strip_value (c ∷ cs) [] [] h = refl
strip_value (c ∷ cs) [] (seg ∷ segs) (h, hs) = rw h (refl)
strip_value (c ∷ cs) (d ∷ ds) segs (h, hs) = elim (Bool-cases (c == d)) [
  | inl e ↦ rw e (strip_value cs ds segs hs)
  | inr e ↦ rw e (refl)
]

if_same : (b : Bool) → ◌≡◌ {A = Option Bytes} (if b then none else none) none
if_same true = refl
if_same false = refl

pub swap-none :
    (name value new seg next : Bytes) (segs : List Bytes)
    → swapped name value new seg next ≡ none
    → swap name value new (seg ∷ (next ∷ segs)) ≡ seg ∷ swap name value new (next ∷ segs)
swap-none name value new seg next segs h = rw (h, swap) (refl)

pub swap-some :
    (name value new seg next out : Bytes) (segs : List Bytes)
    → swapped name value new seg next ≡ some out
    → swap name value new (seg ∷ (next ∷ segs)) ≡ seg ∷ (out ∷ swap name value new segs)
swap-some name value new seg next out segs h = rw (h, swap) (refl)

nothing_lem : (what with : Bytes) → replace_from what with 0 [] ≡ []
unfolding replace_from
nothing_lem what with = refl

pub free_tail : (a b : Bytes) → IsSlashFree (a ++ b) → IsSlashFree b
free_tail [] b h = h
free_tail (c ∷ a) b (h, hs) = free_tail a b hs

pred_lem : (n : ℕ) → suc n - 1 ≡ n
pred_lem n = omega arith

module _ (name value new : Bytes) (name_free : IsSlashFree name)
    (value_free : IsSlashFree value) where
  abbrev tail_of : Bytes → Bytes
  tail_of v = name ++ (b'/' ∷ v)

  abbrev what : Bytes
  what = b'/' ∷ tail_of value

  abbrev with : Bytes
  with = b'/' ∷ tail_of new

  strip_segment :
      (seg next : Bytes) (segs : List Bytes)
      → IsSlashFree seg
      → strip_prefix what (render (seg ∷ (next ∷ segs))) ≡ (
          if bytes_eq name seg
          then elim (strip_prefix value next) [ none ↦ none | some w ↦ some (w ++ render segs) ]
          else none)
  unfolding strip_prefix
  strip_segment seg next segs h =
      strip_name name value seg (next ∷ segs) name_free h
      ∙ rw (strip_value value next segs value_free) (refl)

  strip_last : (seg : Bytes) → IsSlashFree seg → strip_prefix what (render (seg ∷ [])) ≡ none
  unfolding strip_prefix
  strip_last seg h = strip_name name value seg [] name_free h ∙ if_same (bytes_eq name seg)

  miss_segment :
      (seg : Bytes) (segs : List Bytes)
      → IsSlashFree seg
      → strip_prefix what (render (seg ∷ segs)) ≡ none
      → replace_from what with 0 (render (seg ∷ segs))
        ≡ b'/' ∷ (seg ++ replace_from what with 0 (render segs))
  miss_segment seg segs h m =
      miss_lem what with b'/' (seg ++ render segs) m
      ∙ ap (λ r. b'/' ∷ r) (copy_lem (tail_of value) with seg (render segs) h)

  split_lem :
      (w : Bytes) (segs : List Bytes) (seg next : Bytes)
      → seg ≡ name
      → next ≡ value ++ w
      → seg ++ render (next ∷ segs) ≡ tail_of value ++ (w ++ render segs)
  split_lem w segs seg next e f = rw e (
      rw f (
        rw (append_assoc value w (render segs))
          (sym (append_assoc name (b'/' ∷ value) (w ++ render segs)))))

  hit_segment :
      (w : Bytes) (segs : List Bytes) (seg next : Bytes)
      → IsSlashFree w
      → seg ≡ name
      → next ≡ value ++ w
      → strip_prefix what (render (seg ∷ (next ∷ segs))) ≡ some (w ++ render segs)
      → replace_from what with 0 (render (seg ∷ (next ∷ segs)))
        ≡ with ++ (w ++ replace_from what with 0 (render segs))
  hit_segment w segs seg next h e f m =
      hit_lem what with b'/' (seg ++ render (next ∷ segs)) _ m
      ∙ ap (λ r. with ++ r)
          (ap (λ k. replace_from what with k (seg ++ render (next ∷ segs)))
              (pred_lem (length (tail_of value)))
            ∙ ap (λ t. replace_from what with (length (tail_of value)) t)
                (split_lem w segs seg next e f)
            ∙ skip_lem what with (tail_of value) (w ++ render segs)
            ∙ copy_lem (tail_of value) with w (render segs) h)

  -- The two texts of a segment that was changed.
  joined_lem :
      (seg w r : Bytes) → seg ≡ name → with ++ (w ++ r) ≡ b'/' ∷ (seg ++ (b'/' ∷ ((new ++ w) ++ r)))
  joined_lem seg w r e =
      rw e
        (rw (append_assoc new w r) (ap (λ t. b'/' ∷ t) (append_assoc name (b'/' ∷ new) (w ++ r))))

  -- The byte scan of `strings.Replace` changes the segments that the description changes.
  pub replace-render :
      (segs : List Bytes)
      → All IsSlashFree segs
      → replace_from what with 0 (render segs) ≡ render (swap name value new segs)
  replace-render [] h = nothing_lem what with
  replace-render (seg ∷ []) (h, hs) =
      miss_segment seg [] h (strip_last seg h) ∙ ap (λ r. b'/' ∷ (seg ++ r)) (nothing_lem what with)
  replace-render (seg ∷ (next ∷ segs)) (h, hs) =
      let more = replace-render (next ∷ segs) hs in
      let later = replace-render segs hs.1 in
      elim (Bool-cases (bytes_eq name seg)) [
        | inl e ↦ elim (Option-cases (strip_prefix value next)) [
          | inl f ↦
              miss_segment seg (next ∷ segs) h (strip_segment seg next segs h ∙ rw e (rw f (refl)))
              ∙ ap (λ r. b'/' ∷ (seg ++ r)) more
              ∙ ap render (sym (swap-none name value new seg next segs (rw e (rw f (refl)))))
          | inr (w, f) ↦
              let same = sym (bytes_eq_lem name seg e) in
              let parts = strip_prefix_lem value next w f in
              hit_segment w segs seg next (free_tail value w (subst IsSlashFree parts hs.0)) same
                parts (strip_segment seg next segs h ∙ rw e (rw f (refl)))
              ∙ ap (λ r. with ++ (w ++ r)) later
              ∙ joined_lem seg w (render (swap name value new segs)) same
              ∙ ap render
                  (sym (swap-some name value new seg next (new ++ w) segs (rw e (rw f (refl)))))
        ]
        | inr e ↦
            miss_segment seg (next ∷ segs) h (strip_segment seg next segs h ∙ rw e (refl))
            ∙ ap (λ r. b'/' ∷ (seg ++ r)) more
            ∙ ap render (sym (swap-none name value new seg next segs (rw e (refl))))
      ]
