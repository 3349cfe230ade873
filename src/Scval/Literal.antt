-- ===== src/Scval/Literal.antt =====
-- internal/scval/encode.go: integer literals, with an optional decimal scale.
pub mod Scale
pub mod Whole
use soroprobe.Prelude.{
  ℕ, ◌-◌, Bool, true, false, not, ◌||◌, ◌&&◌, Option, none, some, [], ◌∷◌, ◌++◌, ltb, ◌==◌, leb,
  length, replicate, if◌then◌else◌, Result, ok, err, Text, is_empty,
}
use soroprobe.Prelude.Int.{ℤ, pos, ltb_ℤ, neg_ℤ, pos_part}
use soroprobe.Prelude.Strings.{trim_space, cut, contains_byte, trim_byte}
use soroprobe.Prelude.Strings.Digits.{all_digits, set_string, value_from}

-- The messages of the encoders. A literal that a message quotes is its argument.
pub data LiteralError : Type 0 where
  expected_integer expected_base_10 write_scale expected_number : Text → LiteralError
  expected_decimal_count : Text → LiteralError
  decimal_count_out_of_range : ℤ → LiteralError
  too_many_fraction_digits : Text → ℕ → ℕ → LiteralError
  out_of_range : ℤ → Text → LiteralError
  expected_boolean expected_timestamp expected_duration expected_hex : Text → LiteralError
  symbol_too_long : Text → ℕ → LiteralError
  bad_symbol expected_address : Text → LiteralError
  bad_account bad_contract : Text → Text → LiteralError
  in_argument : Text → LiteralError → LiteralError
  at_arg : ℕ → LiteralError → LiteralError
  external : Text → LiteralError

abbrev pub Parsed : Type 0 → Type 0
Parsed A = Result LiteralError A

abbrev pub max_decimals : ℕ
max_decimals = 76

unfoldable pub is_integer_literal : Text → Bool
is_integer_literal s =
    let body = trim_byte b'+' (trim_byte b'-' s) in
    not (is_empty s) && not (is_empty body) && all_digits body

-- isDigits
unfoldable pub is_digits : Text → Bool
is_digits s = all_digits s

unfoldable pub parse_whole_number : Text → Text → Parsed ℤ
parse_whole_number s literal =
    if contains_byte b'.' s
    then err (write_scale literal)
    else elim (set_string s) [ none ↦ err (expected_base_10 literal) | some n ↦ ok n ]

-- the switch on the sign: is the value negative, and what follows the sign
unfoldable pub split_sign : Text → Bool × Text
split_sign [] = (false, [])
split_sign (c ∷ s) =
    if c == b'-' then (true, s) else if c == b'+' then (false, s) else (false, c ∷ s)

abbrev pub or_empty : Option Text → Text
or_empty none = []
or_empty (some s) = s

unfoldable pub scale_parts : Bool → Text → Text → ℕ → Text → Parsed ℤ
scale_parts negative int_part frac_part decimals literal =
    if is_empty int_part && is_empty frac_part
    then err (expected_number literal)
    else if not (is_digits int_part) || not (is_digits frac_part)
    then err (expected_number literal)
    else if ltb decimals (length frac_part)
    then err (too_many_fraction_digits literal (length frac_part) decimals)
    else elim (set_string
        (int_part ++ (frac_part ++ replicate (decimals - length frac_part) b'0'))) [
          | none ↦ err (expected_number literal)
          | some n ↦ ok (if negative then neg_ℤ n else n)
        ]

unfoldable pub scale_by_decimals : Text → ℕ → Text → Parsed ℤ
scale_by_decimals value decimals literal =
    let (negative, unsigned) = split_sign value in
    let (int_part, frac_part) = cut b'.' unsigned in
    scale_parts negative int_part (or_empty frac_part) decimals literal

-- what parseInteger does with the decimal count; a negative count is refused before a large one
unfoldable pub parse_scaled : Text → Text → Text → Parsed ℤ
parse_scaled value scale literal = elim (set_string scale) [
  | none ↦ err (expected_decimal_count scale)
  | some decimals ↦
      if ltb_ℤ decimals (pos 0)
      then err (expected_decimal_count scale)
      else if ltb max_decimals (pos_part decimals)
      then err (decimal_count_out_of_range decimals)
      else scale_by_decimals value (pos_part decimals) literal
]

-- what parseInteger does with the text that it cut at the "@"
unfoldable pub parse_cut : Text → Option Text → Text → Parsed ℤ
parse_cut value none literal = parse_whole_number value literal
parse_cut value (some scale) literal = parse_scaled value scale literal

unfoldable pub parse_integer : Text → Parsed ℤ
parse_integer literal =
    let s = trim_space literal in
    if is_empty s
    then err (expected_integer literal)
    else let (value, scale) = cut b'@' s in parse_cut value scale literal
