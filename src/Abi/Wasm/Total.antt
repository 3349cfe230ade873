-- ===== src/Abi/Wasm/Total.antt =====
-- The loops over a Wasm module end.
use soroprobe.Prelude.{
  ℕ, zero, suc, ◌+◌, ◌≤◌, ◌≡◌, ◌≢◌, ◌⊎◌, ◌||◌, text_eq, refl, Bool, true, false, not, List, [], ◌∷◌,
  if◌then◌else◌, ltb, Text, Result, ok, err, length, take, drop, Bool-cases, inl, inr, arith,
}
use soroprobe.Abi.Wasm.{
  WasmError, overflowing_leb, invalid_section_length, out_of_fuel, uleb_from, read_uleb, counted,
  Named, found, other_name, bad_name, named_section, after_section, find_section, magic,
  custom_section,
}

-- What was read leaves no more bytes than there were.
abbrev Leaves : ℕ → Result WasmError (ℕ × List ℕ) → Type 0
Leaves n (ok (v, bytes)) = length bytes ≤ n
Leaves n (err e) = Unit

Leaves-mono : (m n : ℕ) (r : Result WasmError (ℕ × List ℕ)) → m ≤ n → Leaves m r → Leaves n r
Leaves-mono m n (ok (v, bytes)) h k = omega arith
Leaves-mono m n (err e) h k = tt

choice-Leaves :
    (a b : Bool) (v m : ℕ) (bytes : List ℕ) (next : Result WasmError (ℕ × List ℕ))
    → length bytes ≤ m
    → Leaves m next
    → Leaves m (if a then err overflowing_leb else if b then ok (v, bytes) else next)
choice-Leaves true b v m bytes next h k = tt
choice-Leaves false true v m bytes next h k = h
choice-Leaves false false v m bytes next h k = k

uleb_from-Leaves : (n sh v : ℕ) (bytes : List ℕ) → Leaves (length bytes) (uleb_from n sh v bytes)
unfolding uleb_from
uleb_from-Leaves zero sh v bytes = tt
uleb_from-Leaves (suc n) sh v [] = tt
uleb_from-Leaves (suc n) sh v (b ∷ bytes) = choice-Leaves _ _ _ _ bytes _ (omega arith) (
    Leaves-mono (length bytes) (suc (length bytes)) _ (omega arith)
      (uleb_from-Leaves n (sh + 7) _ bytes))

length-drop-le : (n : ℕ) (bytes : List ℕ) → length (drop n bytes) ≤ length bytes
length-drop-le zero bytes = omega arith
length-drop-le (suc n) [] = omega arith
length-drop-le (suc n) (b ∷ bytes) = omega (arith, length-drop-le n bytes)

-- A section that is read leaves no more bytes, and else the error is the one for it.
counted_cases :
    (e : WasmError) (n : ℕ) (r : Result WasmError (ℕ × List ℕ))
    → Leaves n r
    → (counted e r ≡ err e)
      ⊎ ((s : List ℕ) × (rest : List ℕ) × (counted e r ≡ ok (s, rest)) × (length rest ≤ n))
unfolding counted
counted_cases e n (err x) h = inl refl
counted_cases e n (ok (k, bytes)) h = elim (Bool-cases (ltb (length bytes) k)) [
  | inl short ↦ rw short (inl refl)
  | inr fits ↦
      rw fits (inr (take k bytes, drop k bytes, refl, omega (arith, length-drop-le k bytes)))
]

abbrev pub failed : WasmError → Result WasmError (List ℕ)
failed e = err e

differs : failed invalid_section_length ≡ failed out_of_fuel → ⊥
differs h = cc

after_section_ends :
    (s : Named) (next : Result WasmError (List ℕ))
    → next ≢ failed out_of_fuel
    → after_section s next ≢ failed out_of_fuel
unfolding after_section
after_section_ends (found body) next h k = cc
after_section_ends bad_name next h k = cc
after_section_ends other_name next h k = h k

find_section_ends :
    (fuel : ℕ) (wanted : Text) (bytes : List ℕ)
    → length bytes ≤ fuel
    → find_section fuel wanted bytes ≢ failed out_of_fuel
unfolding find_section
find_section_ends fuel wanted [] h k = cc
find_section_ends zero wanted (id ∷ bytes) h k = absurd (omega arith)
find_section_ends (suc fuel) wanted (id ∷ bytes) h k =
    elim (counted_cases invalid_section_length (length bytes) (read_uleb bytes)
      (unfold read_uleb in uleb_from-Leaves 5 0 0 bytes)) [
        | inl e ↦ absurd (differs (rw e at k))
        | inr (s, rest, e, shorter) ↦
            after_section_ends (named_section wanted id s) _
              (find_section_ends fuel wanted rest (omega arith)) (rw e at k)
      ]

-- The loop over the sections of a module comes to an end.
pub custom_section_total :
    (wasm : List ℕ) (wanted : Text) → custom_section wasm wanted ≢ failed out_of_fuel
unfolding custom_section
custom_section_total wasm wanted =
    elim (Bool-cases (ltb (length wasm) 8 || not (text_eq (take 4 wasm) magic))) [
      | inl bad ↦ rw bad (λ k. cc)
      | inr good ↦
          rw good (find_section_ends (length wasm) wanted (drop 8 wasm) (length-drop-le 8 wasm))
    ]
