-- ===== src/Base/Words.antt =====
-- Go strings that the code takes apart, as their bytes, and Go's machine integers.
use Prim.Native.Nat.{ℕ, zero, suc, ◌+◌, ◌-◌, ◌/◌, ◌%◌, ◌^◌}
use Prim.Native.Char.{code}
use Prim.Native.String.{String}
use mathlib.Core.List.{List, [], ◌∷◌}
use asio_ipfs.Base.Tests.{ltb, if◌then◌else◌}

abbrev pub Bytes : Type 0
Bytes = List ℕ

-- The bytes of an ASCII literal.
abbrev pub codes : String → Bytes
codes String.[] = []
codes (String.◌∷◌ c s) = code c ∷ codes s

-- `negsuc n` is -(n + 1).
pub data ℤ : Type 0 where
  pos : ℕ → ℤ
  negsuc : ℕ → ℤ

-- The conversion of a `size_t` to a C `int` of 32 bits.
unfoldable pub c_int : ℕ → ℤ
c_int n = if ltb (n % 2 ^ 32) (2 ^ 31) then pos (n % 2 ^ 32) else negsuc (2 ^ 32 - 1 - n % 2 ^ 32)

-- The decimal digits of a number, most significant first; as many rounds as the number itself
-- are enough.
pub decimal_rounds : ℕ → ℕ → Bytes → Bytes
decimal_rounds zero n acc = (b'0' + n % 10) ∷ acc
decimal_rounds (suc f) n acc =
    let rest = decimal_rounds f (n / 10) ((b'0' + n % 10) ∷ acc) in
    if ltb n 10 then (b'0' + n) ∷ acc else rest

-- `strconv.FormatInt(n, 10)`
unfoldable pub format_int : ℤ → Bytes
unfolding decimal_rounds
format_int (pos n) = decimal_rounds n n []
format_int (negsuc n) = b'-' ∷ decimal_rounds (suc n) (suc n) []
