-- ===== src/Monitor/Laws.antt =====
-- What the state monitor guarantees.
use asio_ipfs.Base.{
  ℕ, ◌≡◌, refl, sym, ap, ◌∙◌, true, String, Option, none, some, List, [], ◌∷◌, ◌++◌, arith,
  get_elem?, contains, ==_refl, Out, ret, throw, panicked, Returns, ◌>>=◌, pure, Ends,
  Ends-respects, Option-cases, inl, inr,
}
use mathlib.Core.Path.{subst}
use mathlib.Core.Option.{some_inj}
use asio_ipfs.Config.{Handle}
use asio_ipfs.World.{Libraries, Context}
use asio_ipfs.System.{System, Node, load, perform, execute, c_alloc, c_free, cancel_mark, is_done}
use asio_ipfs.Monitor.{
  Monitor, Source, gc_chan, api_chan, gateway_chan, received, stopped, forget, receive, report,
  cancel_after, turn, total_peers, launch, react,
}
use asio_ipfs.Monitor.Runs.{chan_of, state_changes, IsReady, Runs}
use asio_ipfs.Monitor.Invariant.{Counts, Counts-total, IsChain, IfOn, orderly_lem, cancelled_lem}

is_done_of_both :
    (cancelled : List ℕ) (ctx : Context) (mark : ℕ)
    → contains ctx mark ≡ true
    → contains cancelled mark ≡ true
    → is_done cancelled ctx ≡ true
is_done_of_both cancelled [] mark h k = cc
is_done_of_both cancelled (m ∷ ctx) mark h k = ground (arith, is_done_of_both cancelled ctx mark)

Ends-map :
    {W A : Type 0} {Q R : A → System W → Type 0} (o : Out ⊥ (System W) A)
    → Ends Q (λ _. ⊥) o
    → ((a : A) (t : System W) → Q a t → R a t)
    → Ends R (λ _. ⊥) o
Ends-map (ret a t) h k = k a t h
Ends-map (throw e t) h k = absurd e
Ends-map (panicked p) h k = tt

-- What the monitor has when its loop begins, where its node has a collector.
launched_with :
    {W : Type 0} (x : Libraries W) (n : ℕ) (gc api gateway : Option ℕ) (s : System W) (node : Node)
    (collector : Handle)
    → get_elem? s.heap n ≡ some node
    → node.collector ≡ some collector
    → Ends
        (λ m t.
          (m.lasterr ≡ none)
          × (state_changes t.calls ≡ (none, m.pcnt) ∷ state_changes s.calls)
          × Counts x collector s.world m.pcnt)
        (λ _. ⊥)
        (launch x n gc api gateway s)
unfolding launch total_peers load perform report execute ◌>>=◌
launched_with x n gc api gateway s node collector found set =
    rw found (rw set (rw found ((refl, refl, Counts-total x collector s.world))))

launched :
    {W : Type 0} (x : Libraries W) (n : ℕ) (gc api gateway : Option ℕ) (s : System W)
    → Ends
        (λ m t.
          (m.lasterr ≡ none)
          × (state_changes t.calls ≡ (none, m.pcnt) ∷ state_changes s.calls)
          × (node : Node) × (collector : Handle) × (get_elem? s.heap n ≡ some node)
          × (node.collector ≡ some collector)
          × Counts x collector s.world m.pcnt)
        (λ _. ⊥)
        (launch x n gc api gateway s)
unfolding launch total_peers load perform report execute ◌>>=◌
launched x n gc api gateway s = elim (Option-cases (get_elem? s.heap n)) [
  | inl missing ↦ rw missing (tt)
  | inr (node, found) ↦ elim (Option-cases node.collector) [
    | inl unset ↦ rw found (rw unset (tt))
    | inr (collector, set) ↦
        Ends-map (launch x n gc api gateway s)
          (launched_with x n gc api gateway s node collector found set)
          λ m t (fresh, told, counted). (fresh, told, node, collector, found, set, counted)
  ]
]

turn_same :
    {W : Type 0} (n : ℕ) (m : Monitor) (e : Option String) (s : System W)
    → Ends (IfOn (λ next t. next ≡ m)) (λ _. ⊥) ((cancel_after n e >>= λ _. pure (some m)) s)
unfolding cancel_after load cancel_mark ◌>>=◌
turn_same n m none s = refl
turn_same n m (some e) s = elim (Option-cases (get_elem? s.heap n)) [
  | inl missing ↦ rw missing (tt)
  | inr (node, found) ↦ rw found (refl)
]

forgotten : (c : Source) (m : Monitor) → chan_of c (forget c m) ≡ none
unfolding forget
forgotten gc_chan m = refl
forgotten api_chan m = refl
forgotten gateway_chan m = refl

module _ {W : Type 0} (x : Libraries W) (n : ℕ) where
  closed_lem :
      (c : Source) (m1 m2 : Monitor) (s1 s2 : System W)
      → react x n (received c none) m1 s1 ≡ ret (some m2) s2
      → chan_of c m2 ≡ none
  unfolding react turn receive
  closed_lem c m1 m2 s1 s2 run =
      ap (chan_of c) (
        Ends-respects (IfOn (λ next t. next ≡ forget c m1)) (λ _. ⊥) run
          (turn_same n (forget c m1) (forget c m1).lasterr s1))
      ∙ forgotten c m1

  reported :
      (m : Monitor) (e : Option String) (s : System W)
      → Returns
          (λ r t.
            (r ≡ none)
            × (state_changes t.calls ≡ (e, 0) ∷ state_changes s.calls)
            × (t.c_live ≡ s.c_live))
          ((report m.fn m.arg e 0 >>= λ _. pure {A = Option Monitor} none) s)
  unfolding report execute c_alloc c_free ◌>>=◌
  reported m none s = (refl, refl, refl)
  reported m (some e) s = (refl, refl, rw (==_refl s.next_ptr) (refl))

  -- When it starts, the monitor reports the number of peers: the sum, modulo 2 ^ 32, of the values
  -- that the node's collector answers with. From then on, whatever it receives and whatever happens
  -- between its turns, it reports only, and until it stops no error, such a sum of a collector's
  -- values that differs from the number reported before. A channel that is nil stays nil.
  pub monitor_reports :
      (gc api gateway : Option ℕ) (s0 s1 s : System W) (m1 m : Monitor)
      → launch x n gc api gateway s0 ≡ ret m1 s1
      → Runs x n m1 s1 m s
      → (news : List (Option String × ℕ)) × (state_changes s.calls
          ≡ news ++ ((none, m1.pcnt) ∷ state_changes s0.calls))
        × IsChain x m1.pcnt m.pcnt news
        × (node : Node) × (collector : Handle) × (get_elem? s0.heap n ≡ some node)
        × (node.collector ≡ some collector)
        × Counts x collector s0.world m1.pcnt
        × ((c : Source) → chan_of c m1 ≡ none → chan_of c m ≡ none)
  monitor_reports gc api gateway s0 s1 s m1 m start runs =
      let begun = Ends-respects _ (λ _. ⊥) start (launched x n gc api gateway s0) in
      let (news, h, chain, nils) = orderly_lem x n m1 s1 runs in
      let (fresh, reported_, node, collector, found, set, counted) = begun in
      (news, h ∙ ap (λ l. news ++ l) reported_, chain, node, collector, found, set, counted, nils)

  -- Once the monitor has an error, its node's cancel function has been called. If the node's
  -- context is the one that this function cancels, the monitor can stop at once, and when it does
  -- its last report holds the error and no peers, and the error's text is freed.
  pub monitor_stops :
      (gc api gateway : Option ℕ) (s0 s1 s : System W) (m1 m : Monitor) (e : String) (node : Node)
      → launch x n gc api gateway s0 ≡ ret m1 s1
      → Runs x n m1 s1 m s
      → m.lasterr ≡ some e
      → get_elem? s.heap n ≡ some node
      → contains node.ctx node.cancel ≡ true
      → IsReady n stopped m s
        × Returns
            (λ r t.
              (r ≡ none)
              × (state_changes t.calls ≡ (some e, 0) ∷ state_changes s.calls)
              × (t.c_live ≡ s.c_live))
            (react x n stopped m s)
  unfolding react
  monitor_stops gc api gateway s0 s1 s m1 m e node start runs failed found own =
      let begun = Ends-respects _ (λ _. ⊥) start (launched x n gc api gateway s0) in
      let (other, loaded, h) = cancelled_lem x n m1 s1 begun.0 runs (rw failed (refl)) in
      let called =
        subst (λ a. contains s.cancelled a.cancel ≡ true) (some_inj.0 (sym loaded ∙ found)) h in
      (
        (node, found, is_done_of_both s.cancelled node.ctx node.cancel own called),
        rw failed (reported m (some e) s),
      )

  -- A channel from which nil was received, as it is when it is closed, is never chosen again.
  pub monitor_closes :
      (c : Source) (m1 m2 m : Monitor) (s1 s2 s : System W) (e : Option String)
      → react x n (received c none) m1 s1 ≡ ret (some m2) s2
      → Runs x n m2 s2 m s
      → ¬ IsReady n (received c e) m s
  monitor_closes c m1 m2 m s1 s2 s e run runs ready =
      let (news, h, chain, nils) = orderly_lem x n m2 s2 runs in
      let gone = nils c (closed_lem c m1 m2 s1 s2 run) in absurd (cc)
