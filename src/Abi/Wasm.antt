-- ===== src/Abi/Wasm.antt =====
-- internal/abi/chain.go: the section of a Wasm module that holds the contract's interface.
-- A position in the module is the list of the bytes from it on, and a slice is the bytes in it.
pub mod Leb
pub mod Sections
pub mod Total
use soroprobe.Prelude.{
  ℕ, zero, suc, ◌+◌, ◌-◌, ◌*◌, ◌/◌, ◌%◌, ◌^◌, Bool, not, ◌&&◌, ◌||◌, List, [], ◌∷◌, if◌then◌else◌,
  ltb, ◌==◌, Text, text, text_eq, Result, ok, err, length, take, drop,
}
use soroprobe.Prelude.Outcome.{◌>>=◌}

pub data WasmError : Type 0 where
  truncated_leb overflowing_leb invalid_module invalid_section_length invalid_section_name :
      WasmError
  no_section : Text → WasmError
  -- the loop over the sections was given too little fuel
  out_of_fuel : WasmError

-- The loop of readULEB, for the rounds that are left. The bits that are set in `value` lie below
-- `shift`, so that `|=` adds.
unfoldable pub uleb_from : ℕ → ℕ → ℕ → List ℕ → Result WasmError (ℕ × List ℕ)
uleb_from zero shift value bytes = err overflowing_leb
uleb_from (suc n) shift value [] = err truncated_leb
uleb_from (suc n) shift value (b ∷ bytes) =
    let v = (value + b % 128 * 2 ^ shift) % 2 ^ 32 in
    let next = uleb_from n (shift + 7) v bytes in
    if shift == 28 && not (b / 16 % 16 == 0)
    then err overflowing_leb
    else if b / 128 % 2 == 0
    then ok (v, bytes)
    else next

-- readULEB
unfoldable pub read_uleb : List ℕ → Result WasmError (ℕ × List ℕ)
read_uleb bytes = uleb_from 5 0 0 bytes

-- a length that is followed by that many bytes: these, and the bytes behind them
unfoldable pub counted :
    WasmError → Result WasmError (ℕ × List ℕ) → Result WasmError (List ℕ × List ℕ)
counted e (err _) = err e
counted e (ok (n, bytes)) = if ltb (length bytes) n then err e else ok (take n bytes, drop n bytes)

-- the body of a custom section, if it has the name
pub data Named : Type 0 where
  found : List ℕ → Named
  other_name : Named
  bad_name : Named

unfoldable pub named_of : Text → Result WasmError (List ℕ × List ℕ) → Named
named_of wanted (err e) = bad_name
named_of wanted (ok (name, body)) = if text_eq name wanted then found body else other_name

unfoldable pub named_section : Text → ℕ → List ℕ → Named
named_section wanted id section =
    if id == 0
    then named_of wanted (counted invalid_section_name (read_uleb section))
    else other_name

-- what the loop does after a section: it returns, or goes on
unfoldable pub after_section : Named → Result WasmError (List ℕ) → Result WasmError (List ℕ)
after_section (found body) next = ok body
after_section bad_name next = err invalid_section_name
after_section other_name next = next

-- the loop of customSection, on fuel
unfoldable pub find_section : ℕ → Text → List ℕ → Result WasmError (List ℕ)
find_section fuel wanted [] = err (no_section wanted)
find_section zero wanted (id ∷ bytes) = err out_of_fuel
find_section (suc fuel) wanted (id ∷ bytes) =
    counted invalid_section_length (read_uleb bytes) >>= λ p.
    after_section (named_section wanted id p.0) (find_section fuel wanted p.1)

abbrev pub magic : List ℕ
magic = 0 ∷ b'a' ∷ b's' ∷ b'm' ∷ []

-- customSection
unfoldable pub custom_section : List ℕ → Text → Result WasmError (List ℕ)
custom_section wasm wanted =
    if ltb (length wasm) 8 || not (text_eq (take 4 wasm) magic)
    then err invalid_module
    else find_section (length wasm) wanted (drop 8 wasm)
