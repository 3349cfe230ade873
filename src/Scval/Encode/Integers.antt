-- ===== src/Scval/Encode/Integers.antt =====
-- The eight integer encoders: each accepts exactly the integers of its type.
use soroprobe.Prelude.{
  ℕ, ◌%◌, ◌^◌, ◌≡◌, refl, ap, sym, ◌∙◌, ◌⊎◌, Bool, true, false, some, ok, err, Text, text, arith,
  ◌>>=◌, bind-eq-ok, Bool-cases, inl, inr,
}
use soroprobe.Prelude.Int.{ℤ, wrap_int64, wrap_int32, to_word, of_word}
use soroprobe.Prelude.Strings.Digits.{int_text}
use soroprobe.Scval.Value.{ScVal}
use soroprobe.Scval.Words.{in_range, twos_complement_words}
use soroprobe.Scval.Words.RoundTrip.{words_128, words_256}
use soroprobe.Scval.Literal.{Parsed, parse_integer, out_of_range}
use soroprobe.Scval.Literal.Whole.{parse_integer-int_text}
use soroprobe.Scval.Decode.{to_big_int}
use soroprobe.Scval.Encode.{
  check_range, encode_u32, encode_i32, encode_u64, encode_i64, encode_u128, encode_i128,
  encode_u256, encode_i256, unsigned_pair, signed_pair, unsigned_quad, signed_quad,
}

pub data IntType : Type 0 where
  u32 i32 u64 i64 u128 i128 u256 i256 : IntType

abbrev pub encoder : IntType → Text → Parsed ScVal
encoder u32 = encode_u32
encoder i32 = encode_i32
encoder u64 = encode_u64
encoder i64 = encode_i64
encoder u128 = encode_u128
encoder i128 = encode_i128
encoder u256 = encode_u256
encoder i256 = encode_i256

abbrev pub bits : IntType → ℕ
bits u32 = 32
bits i32 = 32
bits u64 = 64
bits i64 = 64
bits u128 = 128
bits i128 = 128
bits u256 = 256
bits i256 = 256

abbrev pub is_signed : IntType → Bool
is_signed u32 = false
is_signed i32 = true
is_signed u64 = false
is_signed i64 = true
is_signed u128 = false
is_signed i128 = true
is_signed u256 = false
is_signed i256 = true

abbrev pub name : IntType → Text
name u32 = text "u32"
name i32 = text "i32"
name u64 = text "u64"
name i64 = text "i64"
name u128 = text "u128"
name i128 = text "i128"
name u256 = text "u256"
name i256 = text "i256"

-- what each encoder builds from an integer
abbrev built : IntType → ℤ → ScVal
built u32 n = ScVal.u32 (some (to_word n % 2 ^ 32))
built i32 n = ScVal.i32 (some (wrap_int32 (wrap_int64 n)))
built u64 n = ScVal.u64 (some (to_word n))
built i64 n = ScVal.i64 (some (wrap_int64 n))
built u128 n = unsigned_pair (twos_complement_words n 2)
built i128 n = signed_pair (twos_complement_words n 2)
built u256 n = unsigned_quad (twos_complement_words n 4)
built i256 n = signed_quad (twos_complement_words n 4)

to_word-of_word : (z : ℤ) → to_word (of_word (to_word z)) ≡ to_word z
to_word-of_word z = ground arith

narrow : (n : ℤ) → in_range n 32 true ≡ true → wrap_int32 (wrap_int64 n) ≡ n
unfolding in_range wrap_int32 wrap_int64
narrow n h = ground arith

to_big_int-built :
    (t : IntType) (n : ℤ)
    → in_range n (bits t) (is_signed t) ≡ true
    → to_big_int (built t n) ≡ some n
unfolding to_big_int
to_big_int-built u32 n h = unfold in_range in ground arith
to_big_int-built i32 n h = ground (arith, narrow n h)
to_big_int-built u64 n h = unfold in_range in ground arith
to_big_int-built i64 n h = unfold in_range wrap_int64 in ground arith
to_big_int-built u128 n h =
    unfold unsigned_pair twos_complement_words in ap some (words_128 n false h)
to_big_int-built i128 n h =
    unfold signed_pair twos_complement_words in rw to_word-of_word (ap some (words_128 n true h))
to_big_int-built u256 n h =
    unfold unsigned_quad twos_complement_words in ap some (words_256 n false h)
to_big_int-built i256 n h =
    unfold signed_quad twos_complement_words in rw to_word-of_word (ap some (words_256 n true h))

encoder-eq :
    (t : IntType) (literal : Text)
    → encoder t literal ≡ (
        parse_integer literal >>= λ n.
        check_range n (bits t) (is_signed t) (name t) >>= λ _. ok (built t n))
encoder-eq u32 literal = unfold encode_u32 in refl
encoder-eq i32 literal = unfold encode_i32 in refl
encoder-eq u64 literal = unfold encode_u64 in refl
encoder-eq i64 literal = unfold encode_i64 in refl
encoder-eq u128 literal = unfold encode_u128 in refl
encoder-eq i128 literal = unfold encode_i128 in refl
encoder-eq u256 literal = unfold encode_u256 in refl
encoder-eq i256 literal = unfold encode_i256 in refl

check_range-ok :
    (n : ℤ) (b : ℕ) (s : Bool) (name : Text) (w v : ScVal)
    → (check_range n b s name >>= λ _. ok w) ≡ ok v
    → (in_range n b s ≡ true) × (w ≡ v)
unfolding check_range
check_range-ok n b s name w v h = ground arith

encoder-parsed :
    (t : IntType) (n : ℤ)
    → encoder t (int_text n)
      ≡ (check_range n (bits t) (is_signed t) (name t) >>= λ _. ok (built t n))
encoder-parsed t n = encoder-eq t (int_text n) ∙ rw (parse_integer-int_text n)

-- Whatever literal an integer encoder accepts, the value that it builds stands for the integer that
-- the literal parses to, and that integer is in the range of the type.
pub encoder-faithful :
    (t : IntType) (literal : Text) (v : ScVal)
    → encoder t literal ≡ ok v
    → (n : ℤ) × (parse_integer literal ≡ ok n)
      × (in_range n (bits t) (is_signed t) ≡ true)
      × (to_big_int v ≡ some n)
encoder-faithful t literal v h =
    let (n, parsed, rest) = bind-eq-ok (parse_integer literal) _ (rw (encoder-eq t literal) at h) in
    let (good, same) = check_range-ok n (bits t) (is_signed t) (name t) (built t n) v rest in
    (n, parsed, good, ap to_big_int (sym same) ∙ to_big_int-built t n good)

-- Each integer encoder maps the decimal text of an integer to a value that stands for it if the
-- integer is in the range of the type, and to the out-of-range error of the type if it is not.
pub encoder-int_text :
    (t : IntType) (n : ℤ)
    → ((in_range n (bits t) (is_signed t) ≡ true)
        × (v : ScVal) × (encoder t (int_text n) ≡ ok v)
        × (to_big_int v ≡ some n))
      ⊎ ((in_range n (bits t) (is_signed t) ≡ false)
          × (encoder t (int_text n) ≡ err (out_of_range n (name t))))
encoder-int_text t n = elim (Bool-cases (in_range n (bits t) (is_signed t))) [
  | inl good ↦ inl (
    good,
    built t n,
    encoder-parsed t n ∙ unfold check_range in rw good,
    to_big_int-built t n good,
  )
  | inr bad ↦ inr (bad, encoder-parsed t n ∙ unfold check_range in rw bad)
]
