-- ===== src/Base/Rules.antt =====
-- Rules for what a function keeps or establishes, one for each way to build it. An end in a panic
-- is the end of the process, and owes nothing.
use asio_ipfs.Base.Tests.{if◌then◌else◌}
use mathlib.Core.Path.{◌≡◌, subst}
use mathlib.Core.Bool.{Bool, true, false}
use asio_ipfs.Base.Outcome.{
  Out, ret, throw, panicked, Go, Panic, Result, good, bad, ◌>>=◌, pure, fail, panic, check, wrap,
  attempt, and_then, wrap_out, attempt_out,
}

-- `Q` of a result, `T` of the state at an error.
abbrev pub Ends {ε σ α} :
    {E : Type ε} {S : Type σ} {A : Type α} → (A → S → Type 0) → (S → Type 0) → Out E S A → Type 0
Ends Q T (ret a s) = Q a s
Ends Q T (throw e s) = T s
Ends Q T (panicked p) = Unit

pub Ends-respects {ε σ α} :
    {E : Type ε} {S : Type σ} {A : Type α} (Q : A → S → Type 0) (T : S → Type 0) {o p : Out E S A}
    → o ≡ p
    → Ends Q T o
    → Ends Q T p
Ends-respects Q T e h = subst (λ o. Ends Q T o) e h

-- `m` keeps `P`, whether it returns or fails.
pub record Keeps {ε σ α} {E : Type ε} {S : Type σ} {A : Type α} (P : S → Type 0) (m : Go E S A)
    : Type σ where
  pub at : (s : S) → P s → Ends (λ _. P) P (m s)

check_out {ε σ α} :
    {E : Type ε} {S : Type σ} {A : Type α} (P : S → Type 0) (r : Result E A) (s : S)
    → P s
    → Ends (λ _. P) P (check r s)
check_out P (good a) s p = p
check_out P (bad e) s p = p

module _ {ε σ} {E : Type ε} {S : Type σ} {P : S → Type 0} where
  bind_out {α β} :
      {A : Type α} {B : Type β} (o : Out E S A) (f : A → Go E S B)
      → Ends (λ _. P) P o
      → ((a : A) → Keeps P (f a))
      → Ends (λ _. P) P (and_then o f)
  bind_out (ret a s) f h k = (k a).at s h
  bind_out (throw e s) f h k = h
  bind_out (panicked p) f h k = tt

  pub Keeps-bind {α β} :
      {A : Type α} {B : Type β} {m : Go E S A} {f : A → Go E S B}
      → Keeps P m
      → ((a : A) → Keeps P (f a))
      → Keeps P (m >>= f)
  unfolding ◌>>=◌
  Keeps-bind {m} {f} h k = record { at = λ s p. bind_out (m s) f (h.at s p) k }

  pub Keeps-pure {α} : {A : Type α} (a : A) → Keeps P (pure {E = E} a)
  Keeps-pure a = record { at = λ s p. p }

  pub Keeps-fail {α} : {A : Type α} (e : E) → Keeps P (fail {A = A} e)
  Keeps-fail e = record { at = λ s p. p }

  pub Keeps-panic {α} : {A : Type α} (p : Panic) → Keeps P (panic {E = E} {A = A} p)
  Keeps-panic p = record { at = λ s h. tt }

  pub Keeps-check {α} : {A : Type α} (r : Result E A) → Keeps P (check r)
  Keeps-check r = record { at = check_out P r }

  pub Keeps-if {α} :
      {A : Type α} (b : Bool) {m n : Go E S A}
      → Keeps P m
      → Keeps P n
      → Keeps P (if b then m else n)
  Keeps-if true h k = h
  Keeps-if false h k = k

wrap_keeps {ε κ σ α} :
    {E : Type ε} {F : Type κ} {S : Type σ} {A : Type α} (P : S → Type 0) (f : E → F) (o : Out E S A)
    → Ends (λ _. P) P o
    → Ends (λ _. P) P (wrap_out f o)
wrap_keeps P f (ret a s) h = h
wrap_keeps P f (throw e s) h = h
wrap_keeps P f (panicked p) h = tt

attempt_keeps {ε κ σ α} :
    {E : Type ε} (F : Type κ) {S : Type σ} {A : Type α} (P : S → Type 0) (o : Out E S A)
    → Ends (λ _. P) P o
    → Ends (λ _. P) P (attempt_out {F = F} o)
attempt_keeps F P (ret a s) h = h
attempt_keeps F P (throw e s) h = h
attempt_keeps F P (panicked p) h = tt

module _ {ε κ σ α} {E : Type ε} {F : Type κ} {S : Type σ} {A : Type α} {P : S → Type 0}
    {m : Go E S A} where
  pub Keeps-wrap : (f : E → F) → Keeps P m → Keeps P (wrap f m)
  unfolding wrap
  Keeps-wrap f h = record { at = λ s p. wrap_keeps P f (m s) (h.at s p) }

  pub Keeps-attempt : Keeps P m → Keeps P (attempt {F = F} m)
  unfolding attempt
  Keeps-attempt h = record { at = λ s p. attempt_keeps F P (m s) (h.at s p) }

-- From `P`, a result of `m` has `Q`, and at an error the state has `T`.
pub record Ensures {ε σ α} {E : Type ε} {S : Type σ} {A : Type α} (P : S → Type 0) (m : Go E S A)
    (Q : A → S → Type 0) (T : S → Type 0) : Type σ where
  pub at : (s : S) → P s → Ends Q T (m s)

module _ {ε σ} {E : Type ε} {S : Type σ} where
  ensure_out {α β} :
      {A : Type α} {B : Type β} (R : A → S → Type 0) (Q : B → S → Type 0) (T : S → Type 0)
      (o : Out E S A) (f : A → Go E S B)
      → Ends R T o
      → ((a : A) → Ensures (R a) (f a) Q T)
      → Ends Q T (and_then o f)
  ensure_out R Q T (ret a s) f h k = (k a).at s h
  ensure_out R Q T (throw e s) f h k = h
  ensure_out R Q T (panicked p) f h k = tt

  pub Ensures-bind {α β} :
      {A : Type α} {B : Type β} {P : S → Type 0} (R : A → S → Type 0) {Q : B → S → Type 0}
      {T : S → Type 0} {m : Go E S A} {f : A → Go E S B}
      → Ensures P m R T
      → ((a : A) → Ensures (R a) (f a) Q T)
      → Ensures P (m >>= f) Q T
  unfolding ◌>>=◌
  Ensures-bind R {Q} {T} {m} {f} h k = record { at = λ s p. ensure_out R Q T (m s) f (h.at s p) k }

  pub Ensures_of_Keeps {α} :
      {A : Type α} {P : S → Type 0} {m : Go E S A} → Keeps P m → Ensures P m (λ _. P) P
  Ensures_of_Keeps h = record { at = λ s p. h.at s p }

  -- After a part that keeps `P`, `P` still holds.
  pub Ensures-after {α β} :
      {A : Type α} {B : Type β} {P : S → Type 0} {Q : B → S → Type 0} {m : Go E S A}
      {f : A → Go E S B}
      → Keeps P m
      → ((a : A) → Ensures P (f a) Q P)
      → Ensures P (m >>= f) Q P
  Ensures-after {P} h k = Ensures-bind (λ _. P) (Ensures_of_Keeps h) k

pub Ends-imp {ε σ α} :
    {E : Type ε} {S : Type σ} {A : Type α} (P Q : S → Type 0) (o : Out E S A)
    → Ends (λ _. P) P o
    → ((s : S) → P s → Q s)
    → Ends (λ _. Q) (λ _. Unit) o
Ends-imp P Q (ret a s) h k = k s h
Ends-imp P Q (throw e s) h k = tt
Ends-imp P Q (panicked p) h k = tt

kept_out {ε σ α} :
    {E : Type ε} {S : Type σ} {A : Type α} (P : S → Type 0) (o : Out E S A)
    → Ends (λ _. P) P o
    → Ends (λ _. P) (λ _. Unit) o
kept_out P (ret a s) h = h
kept_out P (throw e s) h = tt
kept_out P (panicked p) h = tt

-- Where an error owes nothing.
pub Ensures-Keeps {ε σ α} :
    {E : Type ε} {S : Type σ} {A : Type α} {P : S → Type 0} {m : Go E S A}
    → Keeps P m
    → Ensures P m (λ _. P) (λ _. Unit)
Ensures-Keeps {P} {m} h = record { at = λ s p. kept_out P (m s) (h.at s p) }

weaken_out {ε σ α} :
    {E : Type ε} {S : Type σ} {A : Type α} (Q : A → S → Type 0) (T U : S → Type 0) (o : Out E S A)
    → ((s : S) → T s → U s)
    → Ends Q T o
    → Ends Q U o
weaken_out Q T U (ret a s) k h = h
weaken_out Q T U (throw e s) k h = k s h
weaken_out Q T U (panicked p) k h = tt

pub Ensures-weaken {ε σ α} :
    {E : Type ε} {S : Type σ} {A : Type α} {P : S → Type 0} {Q : A → S → Type 0} (T : S → Type 0)
    {U : S → Type 0} {m : Go E S A}
    → ((s : S) → T s → U s)
    → Ensures P m Q T
    → Ensures P m Q U
Ensures-weaken {Q} T {U} {m} k h = record { at = λ s p. weaken_out Q T U (m s) k (h.at s p) }

action_out {σ α} :
    {S : Type σ} {A : Type α} (P : S → Type 0) (Q : A → S → Type 0) (T : S → Type 0) (o : Out ⊥ S A)
    → Ends Q P o
    → Ends Q T o
action_out P Q T (ret a s) h = h
action_out P Q T (throw e s) h = absurd e
action_out P Q T (panicked p) h = tt

-- What has no error owes nothing at one.
pub Ensures_of_action {σ α} :
    {S : Type σ} {A : Type α} {P : S → Type 0} {T : S → Type 0} {m : Go ⊥ S A}
    → Keeps P m
    → Ensures P m (λ _. P) T
Ensures_of_action {P} {T} {m} h = record { at = λ s p. action_out P (λ _. P) T (m s) (h.at s p) }

pub ruleset keeps_rules = (
  Keeps-bind, Keeps-pure, Keeps-fail, Keeps-panic, Keeps-check, Keeps-if, Keeps-wrap, Keeps-attempt,
)
