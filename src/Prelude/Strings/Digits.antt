-- ===== src/Prelude/Strings/Digits.antt =====
-- Decimal integers as Go's math/big and strconv print and parse them, in base 10.
pub mod RoundTrip
use Prim.Native.Nat.{ℕ, zero, suc, ◌+◌, ◌-◌, ◌*◌, ◌/◌, ◌%◌, ◌^◌}
use mathlib.Core.Bool.{Bool, true, false, ◌&&◌}
use mathlib.Core.Option.{Option, none, some}
use mathlib.Core.List.{[], ◌∷◌}
use soroprobe.Prelude.Tests.{ltb, leb, ◌==◌, if◌then◌else◌}
use soroprobe.Prelude.Int.{ℤ, pos, negsuc, neg_ℤ}
use soroprobe.Prelude.Strings.Bytes.{Text}

abbrev pub is_digit : ℕ → Bool
is_digit c = leb b'0' c && leb c b'9'

-- a run of digits, the empty one included
unfoldable pub all_digits : Text → Bool
all_digits [] = true
all_digits (c ∷ s) = is_digit c && all_digits s

-- the number that digits stand for behind a number `v`
unfoldable pub value_from : ℕ → Text → ℕ
value_from v [] = v
value_from v (c ∷ s) = value_from (v * 10 + (c - b'0')) s

unfoldable pub digits_from : ℕ → ℕ → Text → Text
digits_from zero n rest = rest
digits_from (suc fuel) n rest =
    let here = (b'0' + n % 10) ∷ rest in
    let more = digits_from fuel (n / 10) here in if n / 10 == 0 then here else more

-- strconv.FormatUint; a number has fewer digits than its successor
unfoldable pub nat_text : ℕ → Text
nat_text n = digits_from (suc n) n []

-- strconv.FormatInt, big.Int.String
unfoldable pub int_text : ℤ → Text
int_text (pos n) = nat_text n
int_text (negsuc n) = b'-' ∷ nat_text (suc n)

-- one digit or more
unfoldable pub parse_nat : Text → Option ℕ
parse_nat [] = none
parse_nat (c ∷ s) = if all_digits (c ∷ s) then some (value_from 0 (c ∷ s)) else none

abbrev pub negated : Option ℕ → Option ℤ
negated none = none
negated (some n) = some (neg_ℤ (pos n))

abbrev pub positive : Option ℕ → Option ℤ
positive none = none
positive (some n) = some (pos n)

-- big.Int.SetString: an optional sign and digits
unfoldable pub set_string : Text → Option ℤ
set_string [] = none
set_string (c ∷ s) =
    if c == b'-'
    then negated (parse_nat s)
    else if c == b'+'
    then positive (parse_nat s)
    else positive (parse_nat (c ∷ s))

-- strconv.ParseUint at 64 bits
unfoldable pub parse_uint_64 : Text → Option ℕ
unfolding parse_nat
parse_uint_64 s = elim (parse_nat s) [
  | none ↦ none
  | some n ↦ if ltb n (2 ^ 64) then some n else none
]
