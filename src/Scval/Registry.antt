-- ===== src/Scval/Registry.antt =====
-- internal/scval/scval.go: the registry of encoders, and inference for bare arguments
-- (encode.go). The encoders of collections are parameters here: they parse JSON.
pub mod Laws
use soroprobe.Prelude.{
  ℕ, suc, ◌+◌, Bool, true, false, not, ◌&&◌, ◌||◌, Option, none, some, List, [], ◌∷◌, leb, ◌==◌,
  if◌then◌else◌, Result, ok, err, ◌>>=◌, Text, text, text_eq, is_empty,
}
use soroprobe.Prelude.Dict.{Dict, lookup, insert}
use soroprobe.Prelude.Strings.{cut, to_lower}
use soroprobe.Scval.Value.{ScVal}
use soroprobe.Scval.Literal.{LiteralError, Parsed, is_integer_literal, in_argument, at_arg}
use soroprobe.Scval.Encode.{
  Strkey, encode_bool, encode_u32, encode_i32, encode_u64, encode_i64, encode_u128, encode_i128,
  encode_u256, encode_i256, encode_timepoint, encode_duration, encode_symbol, encode_string,
  encode_bytes, encode_address, is_symbol_literal,
}

abbrev pub EncodeFunc : Type 0
EncodeFunc = Text → Parsed ScVal

pub record Registry : Type 0 where
  pub encoders : Dict EncodeFunc

unfoldable pub register : Text → EncodeFunc → Registry → Registry
register type_name fn r = record { encoders = insert (to_lower type_name) fn r.encoders }

abbrev encode_void : EncodeFunc
encode_void literal = ok ScVal.void

-- registerBuiltins
unfoldable pub register_builtins : Strkey → Registry → Registry
unfolding register
register_builtins k r =
    let r = register (text "bool") encode_bool r in
    let r = register (text "void") encode_void r in
    let r = register (text "null") encode_void r in
    let r = register (text "u32") encode_u32 r in
    let r = register (text "i32") encode_i32 r in
    let r = register (text "u64") encode_u64 r in
    let r = register (text "i64") encode_i64 r in
    let r = register (text "u128") encode_u128 r in
    let r = register (text "i128") encode_i128 r in
    let r = register (text "u256") encode_u256 r in
    let r = register (text "i256") encode_i256 r in
    let r = register (text "timepoint") encode_timepoint r in
    let r = register (text "duration") encode_duration r in
    let r = register (text "sym") encode_symbol r in
    let r = register (text "symbol") encode_symbol r in
    let r = register (text "str") encode_string r in
    let r = register (text "string") encode_string r in
    let r = register (text "bytes") encode_bytes r in
    let r = register (text "addr") (encode_address k) r in
    register (text "address") (encode_address k) r

-- NewRegistry, with the encoders of registerCollections
unfoldable pub new_registry : Strkey → EncodeFunc → EncodeFunc → Registry
unfolding register_builtins
new_registry k encode_vec encode_map =
    register (text "map") encode_map
      (register (text "vec") encode_vec (register_builtins k (record { encoders = [] })))

abbrev pub prefix_byte : ℕ → Bool
prefix_byte c = leb b'a' c && leb c b'z' || leb b'0' c && leb c b'9' || c == b'_'

unfoldable pub all_prefix_bytes : Text → Bool
all_prefix_bytes [] = true
all_prefix_bytes (c ∷ s) = prefix_byte c && all_prefix_bytes s

-- The checks of splitSpec on what it cut at the colon; `idx <= 0` is no colon, or one in front.
unfoldable pub checked_spec : Text → Option Text → Option (Text × Text)
checked_spec before none = none
checked_spec before (some literal) =
    if is_empty before
    then none
    else if all_prefix_bytes (to_lower before)
    then some (to_lower before, literal)
    else none

unfoldable pub split_spec : Text → Option (Text × Text)
split_spec spec = let (before, after) = cut b':' spec in checked_spec before after

abbrev pub with_literal : Text → Option EncodeFunc → Option (EncodeFunc × Text)
with_literal literal none = none
with_literal literal (some fn) = some (fn, literal)

unfoldable pub find_encoder : Registry → Option (Text × Text) → Option (EncodeFunc × Text)
find_encoder r none = none
find_encoder r (some (prefix, literal)) = with_literal literal (lookup prefix r.encoders)

-- the encoder that a spec names, and the literal for it
unfoldable pub named : Registry → Text → Option (EncodeFunc × Text)
named r spec = find_encoder r (split_spec spec)

unfoldable pub infer : Strkey → EncodeFunc
infer k spec =
    let s = to_lower spec in
    if text_eq s (text "true") || text_eq s (text "false")
    then encode_bool spec
    else if text_eq s (text "void") || text_eq s (text "null")
    then ok ScVal.void
    else if k.is_account spec || k.is_contract spec
    then encode_address k spec
    else if is_integer_literal spec
    then encode_i128 spec
    else if is_symbol_literal spec
    then encode_symbol spec
    else encode_string spec

-- the wrapping of an error by Encode
abbrev pub in_spec : Text → Parsed ScVal → Parsed ScVal
in_spec spec (ok v) = ok v
in_spec spec (err e) = err (in_argument spec e)

unfoldable pub encode : Strkey → Registry → EncodeFunc
encode k r spec = elim (named r spec) [
  | some (fn, literal) ↦ in_spec spec (fn literal)
  | none ↦ in_spec spec (infer k spec)
]

abbrev pub at_index : {A : Type 0} → ℕ → Parsed A → Parsed A
at_index i (ok a) = ok a
at_index i (err e) = err (at_arg i e)

-- EncodeAll, from the index of the first spec
unfoldable pub encode_all_from : EncodeFunc → ℕ → List Text → Parsed (List ScVal)
encode_all_from f i [] = ok []
encode_all_from f i (spec ∷ specs) =
    at_index i (f spec) >>= λ v. encode_all_from f (i + 1) specs >>= λ vs. ok (v ∷ vs)

unfoldable pub encode_all : Strkey → Registry → List Text → Parsed (List ScVal)
unfolding encode_all_from
encode_all k r specs = encode_all_from (encode k r) 0 specs

unfoldable pub has_type : Registry → Text → Bool
has_type r spec = elim (named r spec) [
  | some _ ↦ true
  | none ↦ text_eq (to_lower spec) (text "void") || text_eq (to_lower spec) (text "null")
]
