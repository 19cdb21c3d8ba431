-- ===== src/System/Stable.antt =====
-- Properties of the system that every primitive step of a start preserves.
use asio_ipfs.Base.{
  ℕ, ◌+◌, ◌≡◌, Bool, true, false, ◌||◌, Option, none, some, List, [], ◌∷◌, ◌++◌, good, modify,
  get_elem?, Keeps, Ends,
}
use asio_ipfs.Config.{Handle}
use asio_ipfs.World
use asio_ipfs.World.{Op, Reply, Call, Libraries}
use asio_ipfs.System.{
  System, Node, Task, Callback, execute, cancel_mark, gets, deref, load, store, spawn, make_chan,
  perform,
}

abbrev pub is_metrics_injection : Op → Bool
is_metrics_injection World.Op.inject_metrics = true
is_metrics_injection op = false

abbrev pub is_plugins_injection : Op → Bool
is_plugins_injection (World.Op.inject_plugins l) = true
is_plugins_injection op = false

-- The two calls that a process must not repeat.
abbrev pub is_injection : Op → Bool
is_injection op = is_metrics_injection op || is_plugins_injection op

-- Whether an injection was answered without an error.
abbrev pub is_injected : (op : Op) → Reply op → Bool
is_injected World.Op.inject_metrics (good u) = true
is_injected (World.Op.inject_plugins l) (good u) = true
is_injected op r = false

-- `P` is kept by every call of a library but an injection.
abbrev pub Allows : {W : Type 0} → (System W → Type 0) → Type 0
Allows {W} P =
    (s : System W) (op : Op) (r : Reply op) (w : W)
    → is_injection op ≡ false
    → P s
    → P (record s { world = w; trace = (op, r) ∷ s.trace })

-- `P` is kept by every primitive step of a start. An injection that succeeds is taken together
-- with the flag that records it, and needs the flag to be clear before.
pub record Stable {W : Type 0} (P : System W → Type 0) : Type 0 where
  pub called : Allows P
  pub injection_refused :
      (s : System W) (op : Op) (r : Reply op) (w : W)
      → is_injected op r ≡ false
      → P s
      → P (record s { world = w; trace = (op, r) ∷ s.trace })
  pub metrics_injected :
      (s : System W) (w : W)
      → s.mprome_injected ≡ false
      → P s
      → P (record s {
        world = w;
        trace = (World.Op.inject_metrics, good tt) ∷ s.trace;
        mprome_injected = true;
      })
  pub plugins_injected :
      (s : System W) (l : Handle) (w : W)
      → s.plugins_injected ≡ false
      → P s
      → P (record s {
        world = w;
        trace = (World.Op.inject_plugins l, good tt) ∷ s.trace;
        plugins_injected = true;
      })
  pub spawned : (s : System W) (t : Task) → P s → P (record s { tasks = s.tasks ++ (t ∷ []) })
  pub chan_made : (s : System W) → P s → P (record s { next_chan = s.next_chan + 1 })
  pub info_registered : (s : System W) → P s → P (record s { mprome_metrics = true })
  pub mark_cancelled : (s : System W) (m : ℕ) → P s → P (record s { cancelled = m ∷ s.cancelled })

-- `P` is kept by a change of a node.
abbrev pub Stores : {W : Type 0} → (System W → Type 0) → Type 0
Stores {W} P =
    (s : System W) (n : ℕ) (f : Node → Node) → P s → P (record s { heap = modify s.heap n f })

-- `P` is kept by a call into C.
abbrev pub Executes : {W : Type 0} → (System W → Type 0) → Type 0
Executes {W} P = (s : System W) (c : Callback) → P s → P (record s { calls = c ∷ s.calls })

-- `P` does not speak of the nodes and of `g_node`.
abbrev pub Relinks : {W : Type 0} → (System W → Type 0) → Type 0
Relinks {W} P =
    (s : System W) (g : Option ℕ) (heap : List Node) (m : ℕ)
    → P s
    → P (record s { g_node = g; heap = heap; next_mark = m })

deref_keeps :
    {W A : Type 0} (E : Type 0) (P : System W → Type 0) (o : Option A) (s : System W)
    → P s
    → Ends (λ _. P) P (deref {E = E} o s)
deref_keeps E P none s h = tt
deref_keeps E P (some a) s h = h

module _ {W : Type 0} {P : System W → Type 0} {E : Type 0} where
  pub Keeps-gets : {A : Type 0} (f : System W → A) → Keeps P (gets {E = E} f)
  Keeps-gets f = record { at = λ s h. h }

  pub Keeps-deref : {A : Type 0} (o : Option A) → Keeps P (deref {E = E} o)
  Keeps-deref o = record { at = deref_keeps E P o }

  pub Keeps-load : (n : ℕ) → Keeps P (load {E = E} n)
  unfolding load
  Keeps-load n = record { at = λ s h. deref_keeps E P (get_elem? s.heap n) s h }

  pub Keeps-execute : Executes P → (c : Callback) → Keeps P (execute {E = E} c)
  unfolding execute
  Keeps-execute executes c = record { at = λ s h. executes s c h }

  pub Keeps-store : Stores P → (n : ℕ) (f : Node → Node) → Keeps P (store {E = E} n f)
  unfolding store
  Keeps-store stores n f = record { at = λ s h. stores s n f h }

  pub Keeps-call :
      (x : Libraries W) (op : Op)
      → ((s : System W) (r : Reply op) (w : W)
          → P s
          → P (record s { world = w; trace = (op, r) ∷ s.trace }))
      → Keeps P (perform x {E = E} op)
  unfolding perform
  Keeps-call x op h = record { at = λ s k. h s _ _ k }

  pub Keeps-perform :
      Allows P
      → (x : Libraries W) (op : Op) → is_injection op ≡ false
      → Keeps P (perform x {E = E} op)
  unfolding perform
  Keeps-perform called x op plain = record {
    at = λ s h. called s op (x.answer op s.world).0 (x.answer op s.world).1 plain h;
  }

module _ {W : Type 0} {P : System W → Type 0} (stable : Stable P) {E : Type 0} where
  pub Keeps-spawn : (t : Task) → Keeps P (spawn {E = E} t)
  unfolding spawn
  Keeps-spawn t = record { at = λ s h. stable.spawned s t h }

  pub Keeps-cancel_mark : (m : ℕ) → Keeps P (cancel_mark {E = E} m)
  unfolding cancel_mark
  Keeps-cancel_mark m = record { at = λ s h. stable.mark_cancelled s m h }

  pub Keeps-make_chan : Keeps P (make_chan {E = E})
  unfolding make_chan
  Keeps-make_chan = record { at = λ s h. stable.chan_made s h }
