-- ===== src/Start/Once.antt =====
-- What a process does at most once, over all its starts.
use asio_ipfs.Base.{
  ℕ, suc, ◌≤◌, ◌≡◌, ap, ◌∙◌, Bool, true, false, ◌&&◌, List, [], ◌∷◌, arith, if◌then◌else◌,
}
use asio_ipfs.World.{Op, Reply, Call}
use asio_ipfs.System.{System}
use asio_ipfs.System.Stable.{
  Stable, is_injection, is_injected, is_metrics_injection, is_plugins_injection,
}

-- How many of the calls that `chosen` picks are injections without an error.
abbrev pub injections : (Op → Bool) → List Call → ℕ
injections chosen [] = 0
injections chosen ((op, r) ∷ t) =
    let n = injections chosen t in if chosen op && is_injected op r then suc n else n

abbrev bit : Bool → ℕ
bit true = 1
bit false = 0

-- The flags of the package tell how often the metrics' handler and the plugins were injected.
abbrev pub IsOnce : {W : Type 0} → System W → Type 0
IsOnce s =
    (injections is_metrics_injection s.trace ≡ bit s.mprome_injected)
    × (injections is_plugins_injection s.trace ≡ bit s.plugins_injected)

called_lem :
    (op : Op) (r : Reply op) (t : List Call)
    → is_injection op ≡ false
    → (injections is_metrics_injection ((op, r) ∷ t) ≡ injections is_metrics_injection t)
      × (injections is_plugins_injection ((op, r) ∷ t) ≡ injections is_plugins_injection t)
called_lem op r t h = ground arith

refused_lem :
    (chosen : Op → Bool) (op : Op) (r : Reply op) (t : List Call)
    → is_injected op r ≡ false
    → injections chosen ((op, r) ∷ t) ≡ injections chosen t
refused_lem chosen op r t h = ground arith

pub IsOnce-Stable : {W : Type 0} → Stable {W = W} IsOnce
IsOnce-Stable = record {
  called = λ s op r w plain h. let c = called_lem op r s.trace plain in (c.0 ∙ h.0, c.1 ∙ h.1);
  injection_refused = λ s op r w refused h. (
    refused_lem is_metrics_injection op r s.trace refused ∙ h.0,
    refused_lem is_plugins_injection op r s.trace refused ∙ h.1,
  );
  metrics_injected = λ s w flag h. (ap suc (h.0 ∙ ap bit flag), h.1);
  plugins_injected = λ s l w flag h. (h.0, ap suc (h.1 ∙ ap bit flag));
  spawned = λ s t h. h;
  chan_made = λ s h. h;
  info_registered = λ s h. h;
  mark_cancelled = λ s m h. h;
}

bit_le_one : (b : Bool) → bit b ≤ 1
bit_le_one true = omega arith
bit_le_one false = omega arith

pub injections_le_one :
    {W : Type 0} (s : System W)
    → IsOnce s
    → (injections is_metrics_injection s.trace ≤ 1) × (injections is_plugins_injection s.trace ≤ 1)
injections_le_one s h =
    (rw h.0 (bit_le_one s.mprome_injected), rw h.1 (bit_le_one s.plugins_injected))
