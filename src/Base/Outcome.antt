-- ===== src/Base/Outcome.antt =====
-- How a Go function ends: with a result, with an error that the caller tests, or in a panic,
-- which stops the process. `throw` carries the state too, since what was done stays done.
use Prim.Native.String.{String}
use mathlib.Core.Path.{◌≡◌, refl}
use mathlib.Core.Logic.{◌⊎◌, inl, inr}

pub data Panic : Type 0 where
  nil_pointer index_range go_bytes_length state_cb_missing load_config_path : Panic
  already_registered log_cb_nil slice_bounds mfs_unsupported : Panic
  routing_option key_encoder : String → Panic

-- Go's pair of a value and an `error`.
pub data Result {ε α} (E : Type ε) (A : Type α) : Type (ε ⊔ α) where
  good : A → Result E A
  bad : E → Result E A

pub Result-cases {ε α} :
    {E : Type ε} {A : Type α} (r : Result E A) → ((e : E) × (r ≡ bad e)) ⊎ ((a : A) × (r ≡ good a))
Result-cases (good a) = inr (a, refl)
Result-cases (bad e) = inl (e, refl)

pub data Out {ε σ α} (E : Type ε) (S : Type σ) (A : Type α) : Type (ε ⊔ σ ⊔ α) where
  ret : A → S → Out E S A
  throw : E → S → Out E S A
  panicked : Panic → Out E S A

abbrev pub Go {ε σ α} : Type ε → Type σ → Type α → Type (ε ⊔ σ ⊔ α)
Go E S A = S → Out E S A

module _ {ε σ} {E : Type ε} {S : Type σ} where
  abbrev pub and_then {α β} :
      {A : Type α} {B : Type β} → Out E S A → (A → S → Out E S B) → Out E S B
  and_then (ret a s) f = f a s
  and_then (throw e s) f = throw e s
  and_then (panicked p) f = panicked p

  infixl 5 ◌>>=◌ ◌>>◌
  unfoldable pub ◌>>=◌ {α β} : {A : Type α} {B : Type β} → Go E S A → (A → Go E S B) → Go E S B
  ◌>>=◌ m f s = and_then (m s) f

  abbrev pub ◌>>◌ {β} : {B : Type β} → Go E S (Unit {0}) → Go E S B → Go E S B
  m >> k = m >>= λ _. k

  abbrev pub pure {α} : {A : Type α} → A → Go E S A
  pure a s = ret a s

  abbrev pub fail {α} : {A : Type α} → E → Go E S A
  fail e s = throw e s

  abbrev pub panic {α} : {A : Type α} → Panic → Go E S A
  panic p s = panicked p

  -- `if err != nil { return err }`
  abbrev pub check {α} : {A : Type α} → Result E A → Go E S A
  check (good a) s = ret a s
  check (bad e) s = throw e s

module _ {ε κ σ α} {E : Type ε} {F : Type κ} {S : Type σ} {A : Type α} where
  -- `if err != nil { return f(err) }`
  abbrev pub wrap_out : (E → F) → Out E S A → Out F S A
  wrap_out f (ret a s) = ret a s
  wrap_out f (throw e s) = throw (f e) s
  wrap_out f (panicked p) = panicked p

  unfoldable pub wrap : (E → F) → Go E S A → Go F S A
  wrap f m s = wrap_out f (m s)

  -- The error is kept as a value, for a caller that goes on after it.
  abbrev pub attempt_out : Out E S A → Out F S (Result E A)
  attempt_out (ret a s) = ret (good a) s
  attempt_out (throw e s) = ret (bad e) s
  attempt_out (panicked p) = panicked p

  unfoldable pub attempt : Go E S A → Go F S (Result E A)
  attempt m s = attempt_out (m s)

-- The function returns, and what it returns has the property.
abbrev pub Returns {ε σ α} :
    {E : Type ε} {S : Type σ} {A : Type α} → (A → S → Type 0) → Out E S A → Type 0
Returns P (ret a s) = P a s
Returns P (throw e s) = ⊥
Returns P (panicked p) = ⊥

pub Returns-imp {ε σ α} :
    {E : Type ε} {S : Type σ} {A : Type α} {P Q : A → S → Type 0} (o : Out E S A)
    → Returns P o
    → ((a : A) (s : S) → P a s → Q a s)
    → Returns Q o
Returns-imp (ret a s) h f = f a s h
Returns-imp (throw e s) h f = h
Returns-imp (panicked p) h f = h
