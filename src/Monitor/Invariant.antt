-- ===== src/Monitor/Invariant.antt =====
-- What a turn of the monitor keeps, and so every run of it.
use asio_ipfs.Base.{
  ℕ, ◌+◌, ◌%◌, ◌^◌, ◌≡◌, refl, ap, ◌∙◌, ◌≢◌, true, String, Option, none, some, is_some, List, [],
  ◌∷◌, ◌++◌, arith, get_elem?, contains, ◌==◌, ==_refl, ◌>>=◌, pure, Ends, Ensures, Ensures-bind,
  Ensures_of_action, Ends-respects, Option-cases, Bool-cases, inl, inr,
}
use asio_ipfs.Config.{Handle}
use asio_ipfs.World
use asio_ipfs.World.{Libraries}
use asio_ipfs.System.{System, Node, perform, load, execute, c_alloc, c_free, cancel_mark}
use asio_ipfs.System.Stable.{Keeps-load, Keeps-deref}
use asio_ipfs.Monitor.{
  Monitor, Source, gc_chan, api_chan, gateway_chan, Event, received, tick, stopped, forget, receive,
  report, cancel_after, turn, total, total_peers, count_peers, react,
}
use asio_ipfs.Monitor.Runs.{chan_of, state_changes, IsBetween, Runs, begin, turned, others}

-- The sum of the values and of what was summed before.
abbrev pub sum_from : ℕ → List ℕ → ℕ
sum_from res [] = res
sum_from res (v ∷ vs) = sum_from (res + v) vs

-- The number is the sum of the values that the collector answers with in the world `w`, modulo
-- 2 ^ 32.
abbrev pub Counts : {W : Type 0} → Libraries W → Handle → W → ℕ → Type 0
Counts x collector w c =
    let vs : List ℕ = (x.answer (World.Op.peers_total_values collector) w).0 in
    c ≡ sum_from 0 vs % 2 ^ 32

-- The number is what a collector answered.
abbrev pub IsCount : {W : Type 0} → Libraries W → ℕ → Type 0
IsCount {W} x c = (collector : Handle) × (w : W) × Counts x collector w c

-- Reports without an error, the latest first, from the number `p` to the number `q`: each is what a
-- collector answered, and differs from the one before.
abbrev pub IsChain : {W : Type 0} → Libraries W → ℕ → ℕ → List (Option String × ℕ) → Type 0
IsChain x p q [] = q ≡ p
IsChain x p q ((e, c) ∷ l) =
    (e ≡ none) × (c ≡ q) × IsCount x c × (r : ℕ) × (q ≢ r) × IsChain x p r l

sum_from-total : (res : ℕ) (vs : List ℕ) → res + total vs ≡ sum_from res vs
sum_from-total res [] = omega arith
sum_from-total res (v ∷ vs) = omega (arith, sum_from-total (res + v) vs)

total-sum_from : (vs : List ℕ) → total vs ≡ sum_from 0 vs
total-sum_from vs = omega (arith, sum_from-total 0 vs)

pub Counts-total :
    {W : Type 0} (x : Libraries W) (collector : Handle) (w : W)
    → Counts x collector w (total (x.answer (World.Op.peers_total_values collector) w).0 % 2 ^ 32)
Counts-total x collector w =
    let vs : List ℕ = (x.answer (World.Op.peers_total_values collector) w).0 in
    ap (λ v. v % 2 ^ 32) (total-sum_from vs)

pcnt-forget : (c : Source) (m : Monitor) → (forget c m).pcnt ≡ m.pcnt
unfolding forget
pcnt-forget gc_chan m = refl
pcnt-forget api_chan m = refl
pcnt-forget gateway_chan m = refl

chan_of-forget : (c d : Source) (m : Monitor) → chan_of d m ≡ none → chan_of d (forget c m) ≡ none
unfolding forget
chan_of-forget gc_chan gc_chan m h = refl
chan_of-forget gc_chan api_chan m h = h
chan_of-forget gc_chan gateway_chan m h = h
chan_of-forget api_chan gc_chan m h = h
chan_of-forget api_chan api_chan m h = refl
chan_of-forget api_chan gateway_chan m h = h
chan_of-forget gateway_chan gc_chan m h = h
chan_of-forget gateway_chan api_chan m h = h
chan_of-forget gateway_chan gateway_chan m h = refl

chan_of-error :
    (d : Source) (m : Monitor) (e : String)
    → chan_of d m ≡ none
    → chan_of d (record m { lasterr = some e }) ≡ none
chan_of-error gc_chan m e h = h
chan_of-error api_chan m e h = h
chan_of-error gateway_chan m e h = h

chan_of-count :
    (d : Source) (m : Monitor) (p : ℕ)
    → chan_of d m ≡ none
    → chan_of d (record m { pcnt = p }) ≡ none
chan_of-count gc_chan m p h = h
chan_of-count api_chan m p h = h
chan_of-count gateway_chan m p h = h

-- A property of the monitor's variables, if it did not return.
abbrev pub IfOn : {W : Type 0} → (Monitor → System W → Type 0) → Option Monitor → System W → Type 0
IfOn P none s = Unit
IfOn P (some m) s = P m s

module _ {W : Type 0} (x : Libraries W) where
  -- The node's own cancel function has been called.
  abbrev pub IsCancelled : ℕ → System W → Type 0
  IsCancelled n s =
      (node : Node) × (get_elem? s.heap n ≡ some node) × (contains s.cancelled node.cancel ≡ true)

  -- What a turn keeps: the reports so far make a chain, and a channel that was nil still is.
  abbrev pub IsOrderly : Monitor → System W → Monitor → System W → Type 0
  IsOrderly m0 s0 m s =
      (news : List (Option String × ℕ)) × (state_changes s.calls ≡ news ++ state_changes s0.calls)
      × IsChain x m0.pcnt m.pcnt news
      × ((c : Source) → chan_of c m0 ≡ none → chan_of c m ≡ none)

  -- Once there is an error the node is cancelled.
  abbrev pub IsSound : ℕ → Monitor → System W → Monitor → System W → Type 0
  IsSound n m0 s0 m s = IsOrderly m0 s0 m s × (is_some m.lasterr ≡ true → IsCancelled n s)

  module _ (n : ℕ) (m0 : Monitor) (s0 : System W) where
    cancel_after_lem :
        (m : Monitor) (e : Option String) (s : System W)
        → m.lasterr ≡ e
        → IsOrderly m0 s0 m s
        → Ends (IfOn (IsSound n m0 s0)) (λ _. ⊥) ((cancel_after n e >>= λ _. pure (some m)) s)
    unfolding cancel_after load cancel_mark ◌>>=◌
    cancel_after_lem m none s h o = (o, λ k. absurd (cc))
    cancel_after_lem m (some e) s h o = elim (Option-cases (get_elem? s.heap n)) [
      | inl missing ↦ rw missing (tt)
      | inr (node, found) ↦ rw found ((o, λ k. (node, found, rw (==_refl node.cancel) (refl))))
    ]

    Ensures-turn :
        (m : Monitor) → Ensures (IsOrderly m0 s0 m) (turn n m) (IfOn (IsSound n m0 s0)) (λ _. ⊥)
    unfolding turn
    Ensures-turn m = record { at = λ s o. cancel_after_lem m m.lasterr s refl o }

    receive_lem :
        (c : Source) (e : Option String) (m : Monitor) (s : System W)
        → IsOrderly m0 s0 m s
        → IsOrderly m0 s0 (receive c e m) s
    unfolding receive
    receive_lem c (some e) m s (news, h, chain, nils) =
        (news, h, chain, λ d k. chan_of-error d m e (nils d k))
    receive_lem c none m s (news, h, chain, nils) =
        (news, h, rw (pcnt-forget c m) chain, λ d k. chan_of-forget c d m (nils d k))

    count_lem :
        (m : Monitor) (ncnt : ℕ) (s : System W)
        → IsOrderly m0 s0 m s
        → IsCount x ncnt
        → Ends (λ next. IsOrderly m0 s0 next) (λ _. ⊥) (count_peers x m ncnt s)
    unfolding count_peers report execute ◌>>=◌
    count_lem m ncnt s (news, h, chain, nils) counted = elim (Bool-cases (m.pcnt == ncnt)) [
      | inl same ↦ rw same ((news, h, chain, nils))
      | inr new ↦ rw new (
          (
            (none, ncnt) ∷ news,
            ap (λ l. (none, ncnt) ∷ l) h,
            (refl, refl, counted, m.pcnt, (λ e. ground arith), chain),
            λ d k. chan_of-count d m ncnt (nils d k),
          ))
    ]

    Ensures-total_peers :
        (m : Monitor)
        → Ensures
            (IsOrderly m0 s0 m)
            (total_peers x n)
            (λ ncnt s. IsOrderly m0 s0 m s × IsCount x ncnt)
            (λ _. ⊥)
    unfolding total_peers perform ◌>>=◌
    Ensures-total_peers m =
        Ensures-bind (λ _. IsOrderly m0 s0 m) (Ensures_of_action (Keeps-load n))
          λ node.
            Ensures-bind (λ _. IsOrderly m0 s0 m) (Ensures_of_action (Keeps-deref node.collector))
              λ collector. record {
                at = λ s o. (o, (collector, s.world, Counts-total x collector s.world));
              }

    stopped_lem :
        (m : Monitor) (e : Option String) (s : System W)
        → Ends (IfOn (IsSound n m0 s0)) (λ _. ⊥) ((report m.fn m.arg e 0 >>= λ _. pure none) s)
    unfolding report execute c_alloc c_free ◌>>=◌
    stopped_lem m none s = tt
    stopped_lem m (some e) s = tt

    pub Ensures-react :
        (m : Monitor) (e : Event)
        → Ensures (IsOrderly m0 s0 m) (react x n e m) (IfOn (IsSound n m0 s0)) (λ _. ⊥)
    unfolding react ◌>>=◌
    Ensures-react m (received c e) = record {
      at = λ s o. (Ensures-turn (receive c e m)).at s (receive_lem c e m s o);
    }
    Ensures-react m tick =
        Ensures-bind (λ ncnt s. IsOrderly m0 s0 m s × IsCount x ncnt) (Ensures-total_peers m)
          λ ncnt.
            Ensures-bind (λ next. IsOrderly m0 s0 next)
              (record { at = λ s (o, counted). count_lem m ncnt s o counted })
              λ next. Ensures-turn next
    Ensures-react m stopped = record { at = λ s o. stopped_lem m m.lasterr s }

    IsCancelled-between : (s t : System W) → IsBetween n s t → IsCancelled n s → IsCancelled n t
    IsCancelled-between s t (same, grows, calls) (node, found, h) =
        let (other, loaded, cancel, ctx) = same node found in
        (other, loaded, rw cancel (grows node.cancel h))

    pub orderly_lem : {m : Monitor} {s : System W} → Runs x n m0 s0 m s → IsOrderly m0 s0 m s
    orderly_lem begin = ([], refl, refl, λ c k. k)
    orderly_lem (turned {m1} {m2} {s1} {s2} e r ready run) =
        (Ends-respects (IfOn (IsSound n m0 s0)) (λ _. ⊥) run
          ((Ensures-react m1 e).at s1 (orderly_lem r))).0
    orderly_lem (others {m1} {s1} {s2} r between) =
        let (news, h, chain, nils) = orderly_lem r in (news, between.2 ∙ h, chain, nils)

    pub cancelled_lem :
        {m : Monitor} {s : System W}
        → m0.lasterr ≡ none
        → Runs x n m0 s0 m s
        → is_some m.lasterr ≡ true
        → IsCancelled n s
    cancelled_lem fresh begin k = absurd (cc)
    cancelled_lem fresh (turned {m1} {m2} {s1} {s2} e r ready run) k =
        (Ends-respects (IfOn (IsSound n m0 s0)) (λ _. ⊥) run
            ((Ensures-react m1 e).at s1 (orderly_lem r))).1
          k
    cancelled_lem fresh (others {m1} {s1} {s2} r between) k =
        IsCancelled-between s1 s2 between (cancelled_lem fresh r k)
