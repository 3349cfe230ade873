-- ===== src/Tests/Scval.antt =====
-- Literals and values at concrete inputs.
use soroprobe.Prelude.{
  ℕ, ◌≡◌, refl, ◌⊎◌, true, false, some, List, [], ◌∷◌, ◌++◌, ok, err, Text, text, text_eq, arith,
}
use soroprobe.Prelude.Int.{ℤ, pos, negsuc}
use soroprobe.Prelude.Dict.{lookup}
use soroprobe.Prelude.Strings.{cut, to_lower}
use soroprobe.Prelude.Strings.Digits.{int_text}
use soroprobe.Scval.Value.{ScVal}
use soroprobe.Scval.Words.{in_range}
use soroprobe.Scval.Literal.{LiteralError, parse_integer, scale_by_decimals, out_of_range, at_arg}
use soroprobe.Scval.Literal.Scale.{signed, sign_text, base_units, scale_by_decimals_exact}
use soroprobe.Scval.Literal.Whole.{parse_integer-int_text}
use soroprobe.Scval.Encode.{Strkey, encode_bool, encode_u32, check_range}
use soroprobe.Scval.Encode.Integers.{
  IntType, encoder, bits, is_signed, name, encoder-faithful, encoder-int_text,
}
use soroprobe.Scval.Decode.{Sdk, to_big_int, decode}
use soroprobe.Scval.Decode.Integers.{rendered, decode-to_big_int}
use soroprobe.Scval.Registry.{
  EncodeFunc, Registry, named, split_spec, checked_spec, find_encoder, all_prefix_bytes, in_spec,
  encode, encode_all, has_type,
}
use soroprobe.Scval.Registry.Laws.{Encodes, FailsAt, encode_all-explains, has_type-named}

scale_by_decimals_exact_example :
    scale_by_decimals (sign_text true (text "1" ++ (46 ∷ text "5"))) 7 (text "-1.5e7")
    ≡ ok (signed true (base_units (text "1") (text "5") 7))
scale_by_decimals_exact_example =
    scale_by_decimals_exact true (text "1") (text "5") 7 (text "-1.5e7") (ground arith)
      (ground arith) (omega arith) (omega arith)

abbrev seven : ScVal
seven = ScVal.u32 (some 7)

u32_of_seven : encoder IntType.u32 (int_text (pos 7)) ≡ ok seven
unfolding encode_u32 check_range in_range
u32_of_seven = rw (parse_integer-int_text (pos 7)) refl

encoder-faithful_example :
    (n : ℤ) × (parse_integer (int_text (pos 7)) ≡ ok n)
    × (in_range n (bits IntType.u32) (is_signed IntType.u32) ≡ true)
    × (to_big_int seven ≡ some n)
encoder-faithful_example = encoder-faithful IntType.u32 (int_text (pos 7)) seven u32_of_seven

encoder-int_text_example :
    ((in_range (negsuc 0) (bits IntType.u128) (is_signed IntType.u128) ≡ true)
      × (v : ScVal) × (encoder IntType.u128 (int_text (negsuc 0)) ≡ ok v)
      × (to_big_int v ≡ some (negsuc 0)))
    ⊎ ((in_range (negsuc 0) (bits IntType.u128) (is_signed IntType.u128) ≡ false)
        × (encoder IntType.u128 (int_text (negsuc 0))
            ≡ err (out_of_range (negsuc 0) (name IntType.u128))))
encoder-int_text_example = encoder-int_text IntType.u128 (negsuc 0)

abbrev the_texts : Sdk
the_texts = record { address_text = λ a. ok (text "G"); executable_name = λ e. text "wasm" }

decode-to_big_int_example : decode the_texts seven ≡ ok (rendered seven (pos 7))
unfolding to_big_int
decode-to_big_int_example = decode-to_big_int the_texts seven (pos 7) refl

abbrev no_strkey : Strkey
no_strkey = record {
  is_account = λ s. false;
  is_contract = λ s. false;
  decode_account = λ s. err (text "no account");
  decode_contract = λ s. err (text "no contract");
}

abbrev bools : Registry
bools = record { encoders = (text "bool", encode_bool) ∷ [] }

encode_all-explains_example :
    ((vs : List ScVal) × (encode_all no_strkey bools (text "bool:true" ∷ text "bool:2" ∷ [])
        ≡ ok vs)
      × Encodes (encode no_strkey bools) (text "bool:true" ∷ text "bool:2" ∷ []) vs)
    ⊎ ((j : ℕ) × (d : LiteralError) × (encode_all no_strkey bools
            (text "bool:true" ∷ text "bool:2" ∷ [])
          ≡ err (at_arg j d))
        × FailsAt (encode no_strkey bools) (text "bool:true" ∷ text "bool:2" ∷ []) j d)
encode_all-explains_example =
    encode_all-explains no_strkey bools (text "bool:true" ∷ text "bool:2" ∷ [])

typed : has_type bools (text "bool:true") ≡ true
unfolding has_type named split_spec checked_spec find_encoder all_prefix_bytes cut to_lower lookup
    text_eq
typed = refl

has_type-named_example :
    ((fn : EncodeFunc) × (literal : Text) × (lookup
          (to_lower (cut 58 (text "bool:true")).0)
          bools.encoders
        ≡ some fn)
      × ((cut 58 (text "bool:true")).1 ≡ some literal)
      × (encode no_strkey bools (text "bool:true") ≡ in_spec (text "bool:true") (fn literal)))
    ⊎ ((to_lower (text "bool:true") ≡ text "void") ⊎ (to_lower (text "bool:true") ≡ text "null"))
has_type-named_example = has_type-named no_strkey bools (text "bool:true") typed
