-- ===== src/Probe/Check/Compare.antt =====
-- What it means that two values match.
use soroprobe.Prelude.{
  ℕ, ◌≡◌, ◌∙◌, refl, sym, ap, ◌↔◌, true, false, Option, none, some, ok, Text, text_eq_refl, arith,
}
use soroprobe.Prelude.Int.{ℤ, pos, negsuc}
use soroprobe.Scval.Value.{ScVal}
use soroprobe.Scval.Literal.{parse_integer}
use soroprobe.Scval.Encode.Integers.{IntType, encoder, encoder-faithful}
use soroprobe.Scval.Decode.{to_big_int}
use soroprobe.Stellar.{Sdk}
use soroprobe.Probe.Check.Expect.{
  eq_ℤ, type_of, same_type, compare_bytes, compare_others, compare_by, compare_sc_vals,
}

eq_ℤ-iff : (x y : ℤ) → (eq_ℤ x y ≡ true) ↔ (x ≡ y)
unfolding eq_ℤ
eq_ℤ-iff (pos m) (pos n) = ground arith
eq_ℤ-iff (pos m) (negsuc n) = ground arith
eq_ℤ-iff (negsuc m) (pos n) = ground arith
eq_ℤ-iff (negsuc m) (negsuc n) = ground arith

compare_by_integers :
    (sdk : Sdk) (a b : ScVal) (x y : ℤ)
    → to_big_int a ≡ some x
    → to_big_int b ≡ some y
    → compare_sc_vals sdk a b ≡ (eq_ℤ x y, false)
unfolding compare_sc_vals compare_by
compare_by_integers sdk a b x y h k = rw (h, k) refl

parsed_same :
    (l k : Text) (x y : ℤ)
    → parse_integer l ≡ ok x
    → parse_integer k ≡ ok y
    → (x ≡ y) ↔ (parse_integer l ≡ parse_integer k)
parsed_same l k x y h g = (λ e. h ∙ ap ok e ∙ sym g, λ e. cc)

-- Whatever literals two integer encoders accept, of one type or of two types that differ in width or
-- sign, the values that they build match just if the literals denote the same integer, and never
-- differ in type.
pub compare-encoder :
    (sdk : Sdk) (t u : IntType) (l k : Text) (a b : ScVal)
    → encoder t l ≡ ok a
    → encoder u k ≡ ok b
    → (((compare_sc_vals sdk a b).0 ≡ true) ↔ (parse_integer l ≡ parse_integer k))
      × ((compare_sc_vals sdk a b).1 ≡ false)
compare-encoder sdk t u l k a b h g =
    let (x, parsed_x, _, reads_x) = encoder-faithful t l a h in
    let (y, parsed_y, _, reads_y) = encoder-faithful u k b g in
    let (same, back) = parsed_same l k x y parsed_x parsed_y in
    let (equal, equal_back) = eq_ℤ-iff x y in
    rw (compare_by_integers sdk a b x y reads_x reads_y)
      ((λ e. same (equal e), λ e. equal_back (back e)), refl)

same_type_refl : (t : ℕ × Text) → same_type t t ≡ true
same_type_refl (n, s) = ground (arith, text_eq_refl s)

compare_bytes_refl :
    (sdk : Sdk) (a : ScVal) (o : Option Text)
    → sdk.deep_equal a a ≡ true
    → compare_bytes sdk a a o o ≡ true
unfolding compare_bytes
compare_bytes_refl sdk a none h = h
compare_bytes_refl sdk a (some s) h = text_eq_refl s

compare_others_refl :
    (sdk : Sdk) (a : ScVal) → sdk.deep_equal a a ≡ true → compare_others sdk a a ≡ (true, false)
unfolding compare_others
compare_others_refl sdk a h =
    rw (same_type_refl (type_of a), compare_bytes_refl sdk a (sdk.marshal_value a) h) refl

compare_by_refl :
    (sdk : Sdk) (a : ScVal) (o : Option ℤ)
    → sdk.deep_equal a a ≡ true
    → compare_by sdk a a o o ≡ (true, false)
unfolding compare_by
compare_by_refl sdk a none h = compare_others_refl sdk a h
compare_by_refl sdk a (some x) h = rw ((eq_ℤ-iff x x).1 refl) refl

-- A value matches itself, whether or not it can be marshalled, if reflect.DeepEqual says that it
-- equals itself.
pub compare_refl :
    (sdk : Sdk) (a : ScVal) → sdk.deep_equal a a ≡ true → compare_sc_vals sdk a a ≡ (true, false)
unfolding compare_sc_vals
compare_refl sdk a h = compare_by_refl sdk a (to_big_int a) h
