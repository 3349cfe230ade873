-- ===== src/Abi/Annotate.antt =====
-- internal/abi/abi.go: Annotate. encoding/json is a parameter.
pub mod Rules
pub mod Forms
pub mod Items
pub mod Typed
use soroprobe.Prelude.{
  Bool, not, ◌||◌, ◌+◌, ◌==◌, Option, none, some, List, [], ◌∷◌, ◌++◌, if◌then◌else◌, ℕ, Text, text,
  text_eq, Result, ok, err, length,
}
use soroprobe.Prelude.Outcome.{◌>>=◌}
use soroprobe.Prelude.Strings.{trim_space, to_lower, has_prefix}
use soroprobe.Abi.{
  SpecType, spec_type, MaybeType, no_type, a_type, Param, Function, AbiError, argument_count,
  argument, not_an_array, not_pairs, not_a_pair, at_item, at_key, at_value, json_error, signature,
}

-- What is decoded and encoded as JSON: an array of raw items, an array of arrays, a string; an
-- array of strings, an array of pairs of them.
pub record Json : Type 0 where
  pub items : Text → Result Text (List Text)
  pub lists : Text → Result Text (List (List Text))
  pub string : Text → Result Text Text
  pub marshal : List Text → Result Text Text
  pub marshal_pairs : List (Text × Text) → Result Text Text

abbrev pub own_prefixes : List Text
own_prefixes =
    text "bool"
    ∷ text "void"
    ∷ text "u32"
    ∷ text "i32"
    ∷ text "u64"
    ∷ text "i64"
    ∷ text "u128"
    ∷ text "i128"
    ∷ text "u256"
    ∷ text "i256"
    ∷ text "timepoint"
    ∷ text "duration"
    ∷ text "bytes"
    ∷ text "string"
    ∷ text "symbol"
    ∷ text "address"
    ∷ []

unfoldable pub listed : Text → List Text → Bool
listed k [] = Bool.false
listed k (p ∷ ps) = text_eq k p || listed k ps

-- prefixes[kind]
unfoldable pub prefix_of : Text → Option Text
prefix_of kind =
    if text_eq kind (text "bytes_n")
    then some (text "bytes")
    else if listed kind own_prefixes
    then some kind
    else none

unfoldable pub with_prefix : Option Text → Text → Text
with_prefix none literal = literal
with_prefix (some p) literal = p ++ b':' ∷ literal

abbrev pub wrapped : {A : Type 0} → (Text → AbiError) → Result Text A → Result AbiError A
wrapped f (ok a) = ok a
wrapped f (err e) = err (f e)

abbrev pub located : {A : Type 0} → (AbiError → AbiError) → Result AbiError A → Result AbiError A
located f (ok a) = ok a
located f (err e) = err (f e)

-- the loop of vec, from an index
unfoldable pub each_item :
    (Text → Result AbiError Text) → ℕ → List Text → Result AbiError (List Text)
each_item element i [] = ok []
each_item element i (raw ∷ rest) =
    located (at_item i) (element raw) >>= λ s. each_item element (i + 1) rest >>= λ ss. ok (s ∷ ss)

-- one round of the loop of mapSpec
unfoldable pub pair_of :
    (Text → Result AbiError Text)
    → (Text → Result AbiError Text)
    → ℕ
    → List Text
    → Result AbiError (Text × Text)
pair_of key value i (k ∷ v ∷ []) =
    located (at_key i) (key k) >>= λ a. located (at_value i) (value v) >>= λ b. ok (a, b)
pair_of key value i _ = err (not_a_pair i)

unfoldable pub each_pair :
    (Text → Result AbiError Text)
    → (Text → Result AbiError Text)
    → ℕ
    → List (List Text)
    → Result AbiError (List (Text × Text))
each_pair key value i [] = ok []
each_pair key value i (p ∷ ps) =
    pair_of key value i p >>= λ q. each_pair key value (i + 1) ps >>= λ qs. ok (q ∷ qs)

module _ (json : Json) where
  -- vec, by the way its elements are typed
  unfoldable pub annotate_vec : (Text → Result AbiError Text) → Text → Text → Result AbiError Text
  annotate_vec element shown literal =
      wrapped (not_an_array shown) (json.items literal) >>= λ items.
      each_item element 0 items >>= λ specs.
      wrapped json_error (json.marshal specs) >>= λ body. ok (text "vec:" ++ body)

  -- mapSpec
  unfoldable pub annotate_map :
      (Text → Result AbiError Text)
      → (Text → Result AbiError Text)
      → Text
      → Text
      → Result AbiError Text
  annotate_map key value shown literal = wrapped (not_pairs shown) (json.lists literal) >>= λ items.
      each_pair key value 0 items >>= λ pairs.
      wrapped json_error (json.marshal_pairs pairs) >>= λ body. ok (text "map:" ++ body)

  -- the first part of element: the literal that a raw item stands for
  unfoldable pub literal_of : Text → Result AbiError Text
  literal_of raw =
      if has_prefix (trim_space raw) (text "\"")
      then wrapped json_error (json.string raw)
      else ok (trim_space raw)

  unfoldable pub as_vec : Text → Text
  as_vec s = if has_prefix s (text "[") then text "vec:" ++ s else s

  module _ (has_type : Text → Bool) where
    -- the switch of spec, by the ways of typing what the type is made of
    unfoldable pub by_kind :
        Text
        → Text
        → Result AbiError Text
        → Result AbiError Text
        → Result AbiError Text
        → Text
        → Result AbiError Text
    by_kind kind shown inner vec pairs literal =
        if text_eq kind (text "option")
        then if text_eq (to_lower literal) (text "void") || text_eq (to_lower literal) (text "null")
          then ok (text "void:" ++ literal)
          else inner
        else if text_eq kind (text "vec")
        then if has_prefix (trim_space literal) (text "[") then vec else ok literal
        else if text_eq kind (text "map")
        then if has_prefix (trim_space literal) (text "[") then pairs else ok literal
        else ok (with_prefix (prefix_of kind) literal)

    -- spec, spec of the inner type of an option, and element
    unfoldable mutual
      pub annotate_spec : SpecType → Text → Result AbiError Text
      annotate_spec (spec_type kind shown inner element key value) literal =
          let in_option = annotate_inner inner literal in
          let in_vec = annotate_vec (λ raw. annotate_element element raw) shown literal in
          let in_map =
            annotate_map (λ raw. annotate_element key raw) (λ raw. annotate_element value raw) shown
              literal in
          if has_type literal
          then ok literal
          else by_kind kind shown in_option in_vec in_map literal

      pub annotate_inner : MaybeType → Text → Result AbiError Text
      annotate_inner no_type literal = ok literal
      annotate_inner (a_type t) literal = annotate_spec t literal

      pub annotate_element : MaybeType → Text → Result AbiError Text
      annotate_element no_type raw = literal_of raw >>= λ literal. ok (as_vec literal)
      annotate_element (a_type t) raw =
          literal_of raw >>= λ literal. annotate_spec t literal >>= λ s. ok (as_vec s)

    -- the loop of Annotate
    unfoldable pub annotate_each : List Param → List Text → Result AbiError (List Text)
    annotate_each (p ∷ ps) (a ∷ as_) =
        located (argument p.name) (annotate_spec p.of_type a) >>= λ s.
        annotate_each ps as_ >>= λ ss. ok (s ∷ ss)
    annotate_each _ _ = ok []

    -- Annotate
    unfoldable pub annotate : Function → List Text → Result AbiError (List Text)
    annotate f args =
        if not (length args == length f.inputs)
        then err (argument_count (signature f) (length f.inputs) (length args))
        else annotate_each f.inputs args
