-- ===== src/Scval/Decode.antt =====
-- internal/scval/decode.go: a Soroban value as a JSON value, and as an integer.
-- The texts that the Stellar SDK renders are a parameter.
pub mod Integers
use soroprobe.Prelude.{
  ℕ, zero, suc, ◌+◌, Bool, true, false, ◌&&◌, Option, none, some, List, [], ◌∷◌, if◌then◌else◌,
  Result, ok, err, ◌>>=◌, Text, text, text_eq,
}
use soroprobe.Prelude.Int.{ℤ, pos, to_word}
use soroprobe.Prelude.Strings.Digits.{nat_text, int_text}
use soroprobe.Prelude.Strings.Hex.{hex_encode}
use soroprobe.Scval.Value.{ScVal, ScVec, ScMap, ScAddress, Executable, ScError}
use soroprobe.Scval.Words.{words_to_big_int}

-- The values that Decode returns. An object keeps the order in which its members were set.
mutual
  pub data Json : Type 0 where
    null : Json
    bool : Bool → Json
    num : ℤ → Json
    str : Text → Json
    arr : Items → Json
    obj : Members → Json

  pub data Items : Type 0 where
    nil : Items
    cons : Json → Items → Items

  pub data Members : Type 0 where
    end : Members
    member : Text → Json → Members → Members

pub data DecodeError : Type 0 where
  no_value : Text → DecodeError
  bad_address : Text → DecodeError
  at_item at_key at_value : ℕ → DecodeError → DecodeError
  in_storage : DecodeError → DecodeError
  unsupported_type : Text → DecodeError

abbrev pub Decoded : Type 0 → Type 0
Decoded A = Result DecodeError A

-- the error of an item, with its place
abbrev pub within : {A : Type 0} → (DecodeError → DecodeError) → Decoded A → Decoded A
within f (ok a) = ok a
within f (err e) = err (f e)

abbrev scalar : {A : Type 0} → Text → Option A → (A → Json) → Decoded Json
scalar name none f = err (no_value name)
scalar name (some a) f = ok (f a)

-- `_, ok := k.(string)`
unfoldable pub is_string : Json → Bool
is_string (str s) = true
is_string _ = false

-- The decoded pairs of a map, in order.
unfoldable pub all_string_keys : List (Json × Json) → Bool
all_string_keys [] = true
all_string_keys ((k, v) ∷ ps) = is_string k && all_string_keys ps

-- `out[key] = value` on a Go map
unfoldable pub set_member : Text → Json → Members → Members
set_member k v end = member k v end
set_member k v (member j w ms) =
    let rest = set_member k v ms in if text_eq j k then member j v ms else member j w rest

unfoldable pub object_from : Members → List (Json × Json) → Members
unfolding set_member
object_from out [] = out
object_from out ((str k, v) ∷ ps) = object_from (set_member k v out) ps
object_from out ((_, v) ∷ ps) = object_from out ps

unfoldable pub pair_items : List (Json × Json) → Items
pair_items [] = nil
pair_items ((k, v) ∷ ps) =
    cons (obj (member (text "key") k (member (text "value") v end))) (pair_items ps)

-- the end of decodeMap
unfoldable pub render_map : List (Json × Json) → Json
unfolding all_string_keys is_string object_from pair_items
render_map ps = if all_string_keys ps then obj (object_from end ps) else arr (pair_items ps)

abbrev optional_member : Text → Option Json → Members → Members
optional_member k none ms = ms
optional_member k (some v) ms = member k v ms

-- decodeError on an error that is there
unfoldable pub render_error : ScError → Json
render_error e = obj (
    member (text "type") (str e.kind) (
      optional_member (text "code") (elim e.code [ none ↦ none | some c ↦ some (str c) ])
        (optional_member (text "contract_code")
          (elim e.contract_code [ none ↦ none | some c ↦ some (num (pos c)) ]) end)))

-- The texts of the Stellar SDK: an address as a strkey, and the name of an executable's type.
pub record Sdk : Type 0 where
  pub address_text : ScAddress → Result Text Text
  pub executable_name : Executable → Text

-- the executable's hash in decodeContractInstance
unfoldable pub executable_hash : Executable → Option Json
executable_hash (Executable.wasm (some h)) = some (str (hex_encode h))
executable_hash _ = none

unfoldable pub render_instance : Sdk → Executable → Option Json → Json
unfolding executable_hash
render_instance a e storage = obj (
    member (text "executable") (str (a.executable_name e)) (
      optional_member (text "wasm_hash") (executable_hash e)
        (optional_member (text "storage") storage end)))

-- wordsToBigInt on the words of a value
unfoldable pub to_big_int : ScVal → Option ℤ
to_big_int (ScVal.u32 (some n)) = some (pos n)
to_big_int (ScVal.i32 (some z)) = some z
to_big_int (ScVal.u64 (some n)) = some (pos n)
to_big_int (ScVal.i64 (some z)) = some z
to_big_int (ScVal.timepoint (some n)) = some (pos n)
to_big_int (ScVal.duration (some n)) = some (pos n)
to_big_int (ScVal.u128 (some w)) = some (words_to_big_int (w.hi ∷ w.lo ∷ []) false)
to_big_int (ScVal.i128 (some w)) = some (words_to_big_int (to_word w.hi ∷ w.lo ∷ []) true)
to_big_int (ScVal.u256 (some w)) =
    some (words_to_big_int (w.hi_hi ∷ w.hi_lo ∷ w.lo_hi ∷ w.lo_lo ∷ []) false)
to_big_int (ScVal.i256 (some w)) =
    some (words_to_big_int (to_word w.hi_hi ∷ w.hi_lo ∷ w.lo_hi ∷ w.lo_lo ∷ []) true)
to_big_int _ = none

-- Decode. The counter is the index of the next item or entry.
unfoldable mutual
  unfolding render_map render_error render_instance

  pub decode : Sdk → ScVal → Decoded Json
  decode a ScVal.void = ok null
  decode a (ScVal.bool b) = scalar (text "bool") b bool
  decode a (ScVal.u32 n) = scalar (text "u32") n (λ n. num (pos n))
  decode a (ScVal.i32 z) = scalar (text "i32") z num
  decode a (ScVal.u64 n) = scalar (text "u64") n (λ n. str (nat_text n))
  decode a (ScVal.i64 z) = scalar (text "i64") z (λ z. str (int_text z))
  decode a (ScVal.timepoint n) = scalar (text "timepoint") n (λ n. str (nat_text n))
  decode a (ScVal.duration n) = scalar (text "duration") n (λ n. str (nat_text n))
  decode a (ScVal.u128 w) =
      scalar (text "u128") w (λ w. str (int_text (words_to_big_int (w.hi ∷ w.lo ∷ []) false)))
  decode a (ScVal.i128 w) =
      scalar (text "i128") w
        (λ w. str (int_text (words_to_big_int (to_word w.hi ∷ w.lo ∷ []) true)))
  decode a (ScVal.u256 w) =
      scalar (text "u256") w
        (λ w. str (int_text (words_to_big_int (w.hi_hi ∷ w.hi_lo ∷ w.lo_hi ∷ w.lo_lo ∷ []) false)))
  decode a (ScVal.i256 w) = scalar (text "i256") w (λ w.
      str (int_text (words_to_big_int (to_word w.hi_hi ∷ w.hi_lo ∷ w.lo_hi ∷ w.lo_lo ∷ []) true)))
  decode a (ScVal.bytes b) = scalar (text "bytes") b (λ b. str (hex_encode b))
  decode a (ScVal.string s) = scalar (text "string") s str
  decode a (ScVal.symbol s) = scalar (text "symbol") s str
  decode a (ScVal.address none) = err (no_value (text "address"))
  decode a (ScVal.address (some x)) = elim (a.address_text x) [
    | ok s ↦ ok (str s)
    | err e ↦ err (bad_address e)
  ]
  decode a ScVal.no_vec = ok (arr nil)
  decode a (ScVal.vec xs) = decode_items a 0 xs >>= λ items. ok (arr items)
  decode a ScVal.no_map = ok (obj end)
  decode a (ScVal.mapping m) = decode_entries a 0 m >>= λ ps. ok (render_map ps)
  decode a (ScVal.error none) = err (no_value (text "error"))
  decode a (ScVal.error (some e)) = ok (render_error e)
  decode a ScVal.ledger_key_contract_instance = ok (str (text "contract_instance"))
  decode a (ScVal.ledger_key_nonce n) =
      scalar (text "nonce") n (λ n. obj (member (text "nonce") (str (int_text n)) end))
  decode a ScVal.no_instance = err (no_value (text "contract instance"))
  decode a (ScVal.instance_bare e) = ok (render_instance a e none)
  decode a (ScVal.instance_with e m) = within in_storage (decode_entries a 0 m) >>= λ ps.
      ok (render_instance a e (some (render_map ps)))
  decode a (ScVal.unsupported name) = err (unsupported_type name)

  pub decode_items : Sdk → ℕ → ScVec → Decoded Items
  decode_items a i ScVec.nil = ok nil
  decode_items a i (ScVec.cons v vs) =
      within (at_item i) (decode a v) >>= λ x. decode_items a (i + 1) vs >>= λ xs. ok (cons x xs)

  pub decode_entries : Sdk → ℕ → ScMap → Decoded (List (Json × Json))
  decode_entries a i ScMap.end = ok []
  decode_entries a i (ScMap.entry k v m) = within (at_key i) (decode a k) >>= λ x.
      within (at_value i) (decode a v) >>= λ y.
      decode_entries a (i + 1) m >>= λ ps. ok ((x, y) ∷ ps)
