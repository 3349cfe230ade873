-- ===== src/Scval/Encode.antt =====
-- internal/scval/encode.go: one encoder for each type name.
-- The Stellar SDK's strkey codec is a parameter.
pub mod Integers
use soroprobe.Prelude.{
  ℕ, ◌+◌, ◌%◌, ◌<◌, ◌^◌, Bool, true, false, not, ◌&&◌, ◌||◌, Option, none, some, [], ◌∷◌, ◌++◌,
  List, ltb, leb, ◌==◌, if◌then◌else◌, Result, ok, err, ◌>>=◌, ◌>>◌, Text, text, text_eq, is_empty,
  length, take, replicate,
}
use soroprobe.Prelude.Int.{ℤ, pos, pos_part, neg_part, to_word, of_word, wrap_int64, wrap_int32}
use soroprobe.Prelude.Strings.{trim_space, has_prefix}
use soroprobe.Prelude.Strings.Digits.{parse_uint_64, is_digit}
use soroprobe.Prelude.Strings.Hex.{hex_decode}
use soroprobe.Scval.Value.{ScVal, ScAddress}
use soroprobe.Scval.Words.{in_range, twos_complement_words}
use soroprobe.Scval.Literal.{
  LiteralError, Parsed, parse_integer, out_of_range, expected_boolean, expected_timestamp,
  expected_duration, expected_hex, symbol_too_long, bad_symbol, expected_address, bad_account,
  bad_contract,
}

abbrev pub max_symbol_len : ℕ
max_symbol_len = 32

-- checkRange
unfoldable pub check_range : ℤ → ℕ → Bool → Text → Parsed (Unit {0})
check_range n bits signed name = if in_range n bits signed then ok tt else err (out_of_range n name)

unfoldable pub encode_u32 : Text → Parsed ScVal
encode_u32 literal = do
  n ← parse_integer literal
  check_range n 32 false (text "u32")
  ok (ScVal.u32 (some (to_word n % 2 ^ 32)))

unfoldable pub encode_i32 : Text → Parsed ScVal
encode_i32 literal = do
  n ← parse_integer literal
  check_range n 32 true (text "i32")
  ok (ScVal.i32 (some (wrap_int32 (wrap_int64 n))))

unfoldable pub encode_u64 : Text → Parsed ScVal
encode_u64 literal = do
  n ← parse_integer literal
  check_range n 64 false (text "u64")
  ok (ScVal.u64 (some (to_word n)))

unfoldable pub encode_i64 : Text → Parsed ScVal
encode_i64 literal = do
  n ← parse_integer literal
  check_range n 64 true (text "i64")
  ok (ScVal.i64 (some (wrap_int64 n)))

-- What the four wide encoders do with the words; the conversion of the first word to an int64
-- keeps its bits.
unfoldable pub unsigned_pair : List ℕ → ScVal
unsigned_pair (hi ∷ lo ∷ []) = ScVal.u128 (some (record { hi = hi; lo = lo }))
unsigned_pair _ = ScVal.u128 none

unfoldable pub signed_pair : List ℕ → ScVal
signed_pair (hi ∷ lo ∷ []) = ScVal.i128 (some (record { hi = of_word hi; lo = lo }))
signed_pair _ = ScVal.i128 none

unfoldable pub unsigned_quad : List ℕ → ScVal
unsigned_quad (a ∷ b ∷ c ∷ d ∷ []) =
    ScVal.u256 (some (record { hi_hi = a; hi_lo = b; lo_hi = c; lo_lo = d }))
unsigned_quad _ = ScVal.u256 none

unfoldable pub signed_quad : List ℕ → ScVal
signed_quad (a ∷ b ∷ c ∷ d ∷ []) =
    ScVal.i256 (some (record { hi_hi = of_word a; hi_lo = b; lo_hi = c; lo_lo = d }))
signed_quad _ = ScVal.i256 none

unfoldable pub encode_u128 : Text → Parsed ScVal
unfolding unsigned_pair
encode_u128 literal = do
  n ← parse_integer literal
  check_range n 128 false (text "u128")
  ok (unsigned_pair (twos_complement_words n 2))

unfoldable pub encode_i128 : Text → Parsed ScVal
unfolding signed_pair
encode_i128 literal = do
  n ← parse_integer literal
  check_range n 128 true (text "i128")
  ok (signed_pair (twos_complement_words n 2))

unfoldable pub encode_u256 : Text → Parsed ScVal
unfolding unsigned_quad
encode_u256 literal = do
  n ← parse_integer literal
  check_range n 256 false (text "u256")
  ok (unsigned_quad (twos_complement_words n 4))

unfoldable pub encode_i256 : Text → Parsed ScVal
unfolding signed_quad
encode_i256 literal = do
  n ← parse_integer literal
  check_range n 256 true (text "i256")
  ok (signed_quad (twos_complement_words n 4))

unfoldable pub encode_timepoint : Text → Parsed ScVal
encode_timepoint literal = elim (parse_uint_64 (trim_space literal)) [
  | none ↦ err (expected_timestamp literal)
  | some n ↦ ok (ScVal.timepoint (some n))
]

unfoldable pub encode_duration : Text → Parsed ScVal
encode_duration literal = elim (parse_uint_64 (trim_space literal)) [
  | none ↦ err (expected_duration literal)
  | some n ↦ ok (ScVal.duration (some n))
]

abbrev one_of : Text → List Text → Bool
one_of s [] = false
one_of s (t ∷ ts) = text_eq s t || one_of s ts

-- strconv.ParseBool
unfoldable pub parse_bool : Text → Option Bool
parse_bool s =
    if one_of s (text "1" ∷ text "t" ∷ text "T" ∷ text "TRUE" ∷ text "true" ∷ text "True" ∷ [])
    then some true
    else if one_of s
        (text "0" ∷ text "f" ∷ text "F" ∷ text "FALSE" ∷ text "false" ∷ text "False" ∷ [])
    then some false
    else none

unfoldable pub encode_bool : Text → Parsed ScVal
encode_bool literal = elim (parse_bool (trim_space literal)) [
  | none ↦ err (expected_boolean literal)
  | some b ↦ ok (ScVal.bool (some b))
]

abbrev pub symbol_byte : ℕ → Bool
symbol_byte c = leb b'a' c && leb c b'z' || leb b'A' c && leb c b'Z' || is_digit c || c == b'_'

unfoldable pub all_symbol_bytes : Text → Bool
all_symbol_bytes [] = true
all_symbol_bytes (c ∷ s) = symbol_byte c && all_symbol_bytes s

-- The loop of the source goes over characters; one outside ASCII has only bytes that are refused.
unfoldable pub is_symbol_literal : Text → Bool
is_symbol_literal s =
    if is_empty s || ltb max_symbol_len (length s) then false else all_symbol_bytes s

-- the text without its last byte, and that byte
abbrev pub split_last : ℕ → Text → Text × ℕ
split_last c [] = ([], c)
split_last c (d ∷ s) = let (init, last) = split_last d s in (c ∷ init, last)

unfoldable pub unquote : Text → Text
unquote (q ∷ c ∷ s) =
    let (init, last) = split_last c s in
    if q == b'"' && last == b'"' || q == 39 && last == 39 then init else q ∷ c ∷ s
unquote s = s

unfoldable pub encode_symbol : Text → Parsed ScVal
encode_symbol literal =
    let s = unquote literal in
    if ltb max_symbol_len (length s)
    then err (symbol_too_long s (length s))
    else if not (is_symbol_literal s) && not (is_empty s)
    then err (bad_symbol s)
    else ok (ScVal.symbol (some s))

unfoldable pub encode_string : Text → Parsed ScVal
encode_string literal = ok (ScVal.string (some (unquote literal)))

-- strings.TrimPrefix(s, "0x")
unfoldable pub trim_0x : Text → Text
trim_0x (a ∷ b ∷ s) = if a == b'0' && b == b'x' then s else a ∷ b ∷ s
trim_0x s = s

unfoldable pub encode_bytes : Text → Parsed ScVal
encode_bytes literal = elim (hex_decode (trim_0x (trim_space (unquote literal)))) [
  | none ↦ err (expected_hex literal)
  | some raw ↦ ok (ScVal.bytes (some raw))
]

-- The strkey package: validity tests, and the payload of a valid text.
pub record Strkey : Type 0 where
  pub is_account : Text → Bool
  pub is_contract : Text → Bool
  pub decode_account : Text → Result Text Text
  pub decode_contract : Text → Result Text Text

-- `copy` into an array of 32 bytes
unfoldable pub copy_32 : Text → Text
copy_32 raw = take 32 (raw ++ replicate 32 0)

unfoldable pub encode_address : Strkey → Text → Parsed ScVal
encode_address k literal =
    let s = trim_space (unquote literal) in
    if k.is_account s
    then elim (k.decode_account s) [
      | ok raw ↦ ok (ScVal.address (some (ScAddress.account (copy_32 raw))))
      | err e ↦ err (bad_account s e)
    ]
    else if k.is_contract s
    then elim (k.decode_contract s) [
      | ok raw ↦ ok (ScVal.address (some (ScAddress.contract (copy_32 raw))))
      | err e ↦ err (bad_contract s e)
    ]
    else err (expected_address s)
