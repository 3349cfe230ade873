-- ===== src/Abi/Annotate/Rules.antt =====
-- How an argument is to be typed, described by the form of its type.
use soroprobe.Prelude.{
  ◌≡◌, Bool, true, false, ◌||◌, Option, none, some, List, [], ◌∷◌, ◌++◌, Text, text, text_eq, ok,
  map,
}
use soroprobe.Prelude.Dict.{Dict, lookup}
use soroprobe.Prelude.Strings.{trim_space, to_lower, has_prefix}
use soroprobe.Abi.{SpecType, spec_type, MaybeType, no_type, a_type}
use soroprobe.Abi.Annotate.{Json}

-- the forms of types: scalars with the prefix of their literals, options, vecs, maps, and the types
-- that have no literal
pub data Form : Type 0 where
  scalar : Text → Form
  optional vector mapping opaque : Form

abbrev pub own : Text → Text × Form
own kind = (kind, scalar kind)

abbrev pub forms : Dict Form
forms =
    (text "option", optional)
    ∷ (text "vec", vector)
    ∷ (text "map", mapping)
    ∷ (text "bytes_n", scalar (text "bytes"))
    ∷ map own (
        text "bool"
        ∷ text "void"
        ∷ text "u32"
        ∷ text "i32"
        ∷ text "u64"
        ∷ text "i64"
        ∷ text "u128"
        ∷ text "i128"
        ∷ text "u256"
        ∷ text "i256"
        ∷ text "timepoint"
        ∷ text "duration"
        ∷ text "bytes"
        ∷ text "string"
        ∷ text "symbol"
        ∷ text "address"
        ∷ [])

abbrev pub form_in : Option Form → Form
form_in none = opaque
form_in (some f) = f

abbrev pub form_of : Text → Form
form_of kind = form_in (lookup kind forms)

-- an option that is written as absent
abbrev pub absent : Text → Bool
absent a = text_eq (to_lower a) (text "void") || text_eq (to_lower a) (text "null")

-- what is written as a JSON array
abbrev pub is_array : Text → Bool
is_array a = has_prefix (trim_space a) (text "[")

-- one of two conditions, by a test
abbrev pub Either : Bool → Type 0 → Type 0 → Type 0
Either true P Q = P
Either false P Q = Q

abbrev pub EachOf : {A B : Type 0} → (A → B → Type 0) → List A → List B → Type 0
EachOf P [] [] = Unit
EachOf P (x ∷ xs) (y ∷ ys) = P x y × EachOf P xs ys
EachOf P _ _ = ⊥

-- a pair comes from an array of two
abbrev pub PairOf :
    (Text → Text → Type 0) → (Text → Text → Type 0) → List Text → Text × Text → Type 0
PairOf K V (k ∷ v ∷ []) (a, b) = K k a × V v b
PairOf K V _ _ = ⊥

-- What an argument becomes, by the form of its type and by what its parts become.
abbrev pub ByForm : Form → Type 0 → Type 0 → Type 0 → Text → Text → Type 0
ByForm (scalar prefix) Inner Vec Map a s = s ≡ prefix ++ b':' ∷ a
ByForm optional Inner Vec Map a s = Either (absent a) (s ≡ text "void:" ++ a) Inner
ByForm vector Inner Vec Map a s = Either (is_array a) Vec (s ≡ a)
ByForm mapping Inner Vec Map a s = Either (is_array a) Map (s ≡ a)
ByForm opaque Inner Vec Map a s = s ≡ a

module _ (json : Json) where
  -- an array becomes `vec:` and the array of what its items become
  abbrev pub VecOf : (Text → Text → Type 0) → Text → Text → Type 0
  VecOf Element a s =
      (items : List Text) × (json.items a ≡ ok items)
      × (specs : List Text) × EachOf Element items specs
      × (body : Text) × (json.marshal specs ≡ ok body)
      × (s ≡ text "vec:" ++ body)

  -- an array of arrays of two becomes `map:` and the array of what the pairs become
  abbrev pub MapOf : (Text → Text → Type 0) → (Text → Text → Type 0) → Text → Text → Type 0
  MapOf Key Value a s =
      (items : List (List Text)) × (json.lists a ≡ ok items)
      × (pairs : List (Text × Text)) × EachOf (PairOf Key Value) items pairs
      × (body : Text) × (json.marshal_pairs pairs ≡ ok body)
      × (s ≡ text "map:" ++ body)

  -- a JSON string stands for its content, any other item for itself without surrounding space
  abbrev pub StandsFor : Text → Text → Type 0
  StandsFor raw a =
      Either (has_prefix (trim_space raw) (text "\"")) (json.string raw ≡ ok a) (a ≡ trim_space raw)

  -- an array among the items is marked as a vec
  abbrev pub Nested : Text → Text → Type 0
  Nested s marked = Either (has_prefix s (text "[")) (marked ≡ text "vec:" ++ s) (marked ≡ s)

  module _ (has_type : Text → Bool) where
    -- An argument and what it becomes for a type, for the inner type of an option, and for the type
    -- of a vec's or a map's items.
    unfoldable mutual
      pub TypedAs : SpecType → Text → Text → Type 0
      TypedAs (spec_type kind shown inner element key value) a s = Either (has_type a) (s ≡ a) (
          ByForm (form_of kind) (InnerAs inner a s) (VecOf (λ r t. ItemAs element r t) a s)
            (MapOf (λ r t. ItemAs key r t) (λ r t. ItemAs value r t) a s) a s)

      pub InnerAs : MaybeType → Text → Text → Type 0
      InnerAs no_type a s = s ≡ a
      InnerAs (a_type t) a s = TypedAs t a s

      pub ItemAs : MaybeType → Text → Text → Type 0
      ItemAs no_type raw marked = (a : Text) × StandsFor raw a × Nested a marked
      ItemAs (a_type t) raw marked =
          (a : Text) × StandsFor raw a × (s : Text) × TypedAs t a s × Nested s marked
