-- ===== src/Scval/Literal/Scale.antt =====
-- A scaled amount is exact.
use soroprobe.Prelude.{
  ℕ, zero, suc, ◌+◌, ◌-◌, ◌*◌, ◌^◌, ◌≤◌, ◌<◌, ◌≡◌, refl, ◌∙◌, ap, Bool, true, false, some, [], ◌∷◌,
  ◌++◌, length, length-append, replicate, if◌then◌else◌, ok, err, Text, arith, All, All-append,
}
use soroprobe.Prelude.Int.{ℤ, pos, neg_ℤ}
use soroprobe.Prelude.Strings.{cut}
use soroprobe.Prelude.Strings.Digits.{value_from, set_string}
use soroprobe.Prelude.Strings.Digits.RoundTrip.{
  IsDigit, all_digits-All, value_from-append, parse_nat-digits,
}
use soroprobe.Scval.Literal.{
  is_digits, split_sign, scale_parts, scale_by_decimals, too_many_fraction_digits,
}
use native.Mathlib.Nat.{pow-suc}

value_from-zeros : (v k : ℕ) → value_from v (replicate k b'0') ≡ v * 10 ^ k
unfolding value_from
value_from-zeros v zero = omega arith
value_from-zeros v (suc k) = value_from-zeros (v * 10 + (b'0' - b'0')) k ∙ rw pow-suc (omega arith)

value_from-split : (v : ℕ) (s : Text) → value_from v s ≡ v * 10 ^ length s + value_from 0 s
unfolding value_from
value_from-split v [] = omega arith
value_from-split v (c ∷ s) =
    let d : ℕ = c - b'0' in
    value_from-split (v * 10 + d) s ∙ rw (value_from-split (0 + d) s, pow-suc) (omega arith)

zeros-digits : (k : ℕ) → All IsDigit (replicate k b'0')
zeros-digits zero = tt
zeros-digits (suc k) = (omega arith, zeros-digits k)

cut-digits : (b : ℕ) (i f : Text) → b < b'0' → All IsDigit i → cut b (i ++ (b ∷ f)) ≡ (i, some f)
unfolding cut
cut-digits b [] f h d = ground arith
cut-digits b (c ∷ i) f h d = ground (arith, cut-digits b i f h d.1)

-- The number of base units that an amount stands for: its digits, and zeros up to the decimals.
abbrev pub base_units : Text → Text → ℕ → ℕ
base_units int_part frac_part decimals =
    (value_from 0 int_part * 10 ^ length frac_part + value_from 0 frac_part)
    * 10 ^ (decimals - length frac_part)

abbrev pub signed : Bool → ℕ → ℤ
signed negative n = if negative then neg_ℤ (pos n) else pos n

set_string-digits :
    (s : Text) → All IsDigit s → 0 < length s → set_string s ≡ some (pos (value_from 0 s))
unfolding set_string
set_string-digits [] h n = absurd (omega arith)
set_string-digits (c ∷ s) h n = ground (arith, parse_nat-digits c s h)

value-amount :
    (i f : Text) (k : ℕ)
    → value_from 0 (i ++ (f ++ replicate k b'0'))
      ≡ (value_from 0 i * 10 ^ length f + value_from 0 f) * 10 ^ k
value-amount i f k =
    value_from-append 0 i (f ++ replicate k b'0')
    ∙ value_from-append (value_from 0 i) f (replicate k b'0')
    ∙ value_from-zeros (value_from (value_from 0 i) f) k
    ∙ ap (λ m. m * 10 ^ k) (value_from-split (value_from 0 i) f)

scale_parts-digits :
    (negative : Bool) (i f : Text) (decimals : ℕ) (literal : Text)
    → All IsDigit i
    → All IsDigit f
    → 0 < length i + length f
    → length f ≤ decimals
    → scale_parts negative i f decimals literal ≡ ok (signed negative (base_units i f decimals))
unfolding scale_parts is_digits
scale_parts-digits negative i f decimals literal di df ne le =
    let k : ℕ = decimals - length f in
    let zeros = replicate k b'0' in
    let all =
      All-append IsDigit i (f ++ zeros) di (All-append IsDigit f zeros df (zeros-digits k)) in
    let long : 0 < length (i ++ (f ++ zeros)) =
      omega (arith, length-append {0} i (f ++ zeros), length-append {0} f zeros) in
    let whole = set_string-digits (i ++ (f ++ zeros)) all long in
    ground (arith, all_digits-All i di, all_digits-All f df, whole, value-amount i f k)

-- The text of an amount with its sign.
abbrev pub sign_text : Bool → Text → Text
sign_text true s = b'-' ∷ s
sign_text false s = s

split_sign-sign_text :
    (negative : Bool) (i : Text) (f : Text)
    → All IsDigit i
    → split_sign (sign_text negative (i ++ (b'.' ∷ f))) ≡ (negative, i ++ (b'.' ∷ f))
unfolding split_sign
split_sign-sign_text true i f d = refl
split_sign-sign_text false [] f d = refl
split_sign-sign_text false (c ∷ i) f d = ground arith

-- An amount with an integer part, a point and a fraction of at most `decimals` digits, with a minus
-- sign or none, is scaled to exactly its digits as one number, times ten to the power of
-- the decimals that the fraction leaves unused.
pub scale_by_decimals_exact :
    (negative : Bool) (i f : Text) (decimals : ℕ) (literal : Text)
    → All IsDigit i
    → All IsDigit f
    → 0 < length i + length f
    → length f ≤ decimals
    → scale_by_decimals (sign_text negative (i ++ (b'.' ∷ f))) decimals literal
      ≡ ok (signed negative (base_units i f decimals))
unfolding scale_by_decimals
scale_by_decimals_exact negative i f decimals literal di df ne le =
    rw (split_sign-sign_text negative i f di, cut-digits b'.' i f (omega arith) di)
      (scale_parts-digits negative i f decimals literal di df ne le)

-- A fraction with more digits than the token has decimals is refused, and never rounded.
pub scale_by_decimals_refuses :
    (negative : Bool) (i f : Text) (decimals : ℕ) (literal : Text)
    → All IsDigit i
    → All IsDigit f
    → decimals < length f
    → scale_by_decimals (sign_text negative (i ++ (b'.' ∷ f))) decimals literal
      ≡ err (too_many_fraction_digits literal (length f) decimals)
unfolding scale_by_decimals
scale_by_decimals_refuses negative i f decimals literal di df more =
    rw (split_sign-sign_text negative i f di, cut-digits b'.' i f (omega arith) di)
      (unfold scale_parts is_digits in ground (arith, all_digits-All i di, all_digits-All f df))
