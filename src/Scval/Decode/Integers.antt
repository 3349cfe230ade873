-- ===== src/Scval/Decode/Integers.antt =====
-- Decode renders an integer as the number that the value stands for.
use soroprobe.Prelude.{◌≡◌, some, ok, arith}
use soroprobe.Prelude.Int.{ℤ}
use soroprobe.Prelude.Strings.Digits.{int_text}
use soroprobe.Scval.Value.{ScVal}
use soroprobe.Scval.Decode.{Sdk, Json, num, str, to_big_int, decode}

-- How an integer of a value's type is rendered: a JSON number for the types of 32 bits, and its
-- decimal text for every other one.
abbrev pub rendered : ScVal → ℤ → Json
rendered (ScVal.u32 o) n = num n
rendered (ScVal.i32 o) n = num n
rendered _ n = str (int_text n)

-- Whatever value ToBigInt reads as an integer, Decode renders as that integer: as a JSON number
-- just if its type has 32 bits, and as its decimal text, which loses no digit, if it is wider.
pub decode-to_big_int :
    (a : Sdk) (v : ScVal) (n : ℤ) → to_big_int v ≡ some n → decode a v ≡ ok (rendered v n)
unfolding to_big_int decode int_text
decode-to_big_int a (ScVal.u32 o) n h = ground arith
decode-to_big_int a (ScVal.i32 o) n h = ground arith
decode-to_big_int a _ n h = ground arith
