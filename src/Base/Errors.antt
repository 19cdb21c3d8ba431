-- ===== src/Base/Errors.antt =====
-- Rules for the errors that a function can end in, one for each way to build it.
use mathlib.Core.Bool.{Bool, true, false}
use asio_ipfs.Base.Tests.{if◌then◌else◌}
use asio_ipfs.Base.Outcome.{
  Out, ret, throw, panicked, Go, Panic, ◌>>=◌, pure, panic, wrap, and_then, wrap_out, attempt,
  attempt_out,
}

-- An error has `Q`.
abbrev pub ThrowsOnly {ε σ α} :
    {E : Type ε} {S : Type σ} {A : Type α} → (E → Type 0) → Out E S A → Type 0
ThrowsOnly Q (ret a s) = Unit
ThrowsOnly Q (throw e s) = Q e
ThrowsOnly Q (panicked p) = Unit

-- Every error of `m` has `Q`.
pub record Throws {ε σ α} {E : Type ε} {S : Type σ} {A : Type α} (Q : E → Type 0) (m : Go E S A)
    : Type (ε ⊔ σ) where
  pub at : (s : S) → ThrowsOnly Q (m s)

module _ {ε σ} {E : Type ε} {S : Type σ} {Q : E → Type 0} where
  bind_out {α β} :
      {A : Type α} {B : Type β} (o : Out E S A) (f : A → Go E S B)
      → ThrowsOnly Q o
      → ((a : A) → Throws Q (f a))
      → ThrowsOnly Q (and_then o f)
  bind_out (ret a s) f h k = (k a).at s
  bind_out (throw e s) f h k = h
  bind_out (panicked p) f h k = tt

  pub Throws-bind {α β} :
      {A : Type α} {B : Type β} {m : Go E S A} {f : A → Go E S B}
      → Throws Q m
      → ((a : A) → Throws Q (f a))
      → Throws Q (m >>= f)
  unfolding ◌>>=◌
  Throws-bind {m} {f} h k = record { at = λ s. bind_out (m s) f (h.at s) k }

  pub Throws-pure {α} : {A : Type α} (a : A) → Throws Q (pure {E = E} {S = S} a)
  Throws-pure a = record { at = λ s. tt }

  pub Throws-panic {α} : {A : Type α} (p : Panic) → Throws Q (panic {E = E} {S = S} {A = A} p)
  Throws-panic p = record { at = λ s. tt }

  pub Throws-if {α} :
      {A : Type α} (b : Bool) {m n : Go E S A}
      → Throws Q m
      → Throws Q n
      → Throws Q (if b then m else n)
  Throws-if true h k = h
  Throws-if false h k = k

module _ {ε κ σ α} {E : Type ε} {F : Type κ} {S : Type σ} {A : Type α} where
  wrapped :
      (Q : F → Type 0) (f : E → F) (o : Out E S A)
      → ((e : E) → Q (f e))
      → ThrowsOnly Q (wrap_out f o)
  wrapped Q f (ret a s) h = tt
  wrapped Q f (throw e s) h = h e
  wrapped Q f (panicked p) h = tt

  pub Throws-wrap :
      {Q : F → Type 0} (f : E → F) (m : Go E S A) → ((e : E) → Q (f e)) → Throws Q (wrap f m)
  unfolding wrap
  Throws-wrap {Q} f m h = record { at = λ s. wrapped Q f (m s) h }

  attempted : (Q : F → Type 0) (o : Out E S A) → ThrowsOnly Q (attempt_out {F = F} o)
  attempted Q (ret a s) = tt
  attempted Q (throw e s) = tt
  attempted Q (panicked p) = tt

  pub Throws-attempt : {Q : F → Type 0} (m : Go E S A) → Throws Q (attempt {F = F} m)
  unfolding attempt
  Throws-attempt {Q} m = record { at = λ s. attempted Q (m s) }
