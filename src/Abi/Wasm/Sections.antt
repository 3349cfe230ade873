-- ===== src/Abi/Wasm/Sections.antt =====
-- Finding a section in a module that was written out.
use soroprobe.Prelude.{
  ℕ, zero, suc, ◌^◌, ◌≤◌, ◌<◌, ◌≡◌, ◌≢◌, ◌∙◌, refl, Bool, true, false, List, [], ◌∷◌, ◌++◌,
  if◌then◌else◌, ltb, Text, text_eq, Result, ok, err, length, length-append, take-append,
  drop-append, All, arith,
}
use mathlib.Core.List.{append_assoc}
use soroprobe.Abi.Wasm.{
  WasmError, invalid_section_length, invalid_section_name, no_section, read_uleb, counted, found,
  other_name, named_of, named_section, after_section, find_section, magic, custom_section,
}
use soroprobe.Abi.Wasm.Leb.{leb128, read_uleb-leb128}

-- A section of a module: a custom one with a name, or another one with its number.
pub data Section : Type 0 where
  custom : List ℕ → List ℕ → Section
  numbered : ℕ → List ℕ → Section

-- bytes behind their number
unfoldable pub sized : List ℕ → List ℕ
sized bytes = leb128 (length bytes) ++ bytes

unfoldable pub section_bytes : Section → List ℕ
section_bytes (custom name body) = 0 ∷ sized (sized name ++ body)
section_bytes (numbered id body) = id ∷ sized body

unfoldable pub all_bytes : List Section → List ℕ
all_bytes [] = []
all_bytes (s ∷ ss) = section_bytes s ++ all_bytes ss

-- The sizes fit a uint32, and only a custom section has the number 0.
abbrev pub IsWritable : Section → Type 0
IsWritable (custom name body) = (length name < 2 ^ 32) × (length (sized name ++ body) < 2 ^ 32)
IsWritable (numbered id body) = (id ≢ 0) × (length body < 2 ^ 32)

-- the body of the first custom section with the name
unfoldable pub first_named : Text → List Section → Result WasmError (List ℕ)
first_named wanted [] = err (no_section wanted)
first_named wanted (numbered id body ∷ ss) = first_named wanted ss
first_named wanted (custom name body ∷ ss) =
    let rest = first_named wanted ss in if text_eq name wanted then ok body else rest

abbrev both : List ℕ → List ℕ → Result WasmError (List ℕ × List ℕ)
both s rest = ok (s, rest)

counted-sized :
    (e : WasmError) (s rest : List ℕ)
    → length s < 2 ^ 32
    → counted e (read_uleb (sized s ++ rest)) ≡ both s rest
unfolding counted sized
counted-sized e s rest h =
    let enough : ltb (length (s ++ rest)) (length s) ≡ false =
      ground (arith, length-append {0} s rest) in
    rw
      (
        append_assoc (leb128 (length s)) s rest,
        read_uleb-leb128 (s ++ rest) (length s) h,
        enough,
        take-append s rest,
        drop-append s rest,
      )
      refl

numbered-other :
    (wanted : Text) (id : ℕ) (section : List ℕ)
    → id ≢ 0
    → named_section wanted id section ≡ other_name
unfolding named_section
numbered-other wanted id section h = ground (arith, h)

named-custom :
    (wanted : Text) (name body : List ℕ)
    → length name < 2 ^ 32
    → named_section wanted 0 (sized name ++ body)
      ≡ (if text_eq name wanted then found body else other_name)
unfolding named_section named_of
named-custom wanted name body h = rw (counted-sized invalid_section_name name body h) refl

find_section_step :
    (fuel : ℕ) (wanted : Text) (id : ℕ) (s rest : List ℕ)
    → length s < 2 ^ 32
    → find_section (suc fuel) wanted (id ∷ (sized s ++ rest))
      ≡ after_section (named_section wanted id s) (find_section fuel wanted rest)
unfolding find_section
find_section_step fuel wanted id s rest h = rw (counted-sized invalid_section_length s rest h) refl

after_named :
    (b : Bool) (body : List ℕ) (next : Result WasmError (List ℕ))
    → after_section (if b then found body else other_name) next ≡ (if b then ok body else next)
unfolding after_section
after_named true body next = refl
after_named false body next = refl

-- With fuel for each section, the loop finds what was written.
find_section-all_bytes :
    (fuel : ℕ) (wanted : Text) (ss : List Section)
    → length ss ≤ fuel
    → All IsWritable ss
    → find_section fuel wanted (all_bytes ss) ≡ first_named wanted ss
unfolding all_bytes section_bytes first_named after_section
find_section-all_bytes fuel wanted [] h w = unfold find_section in refl
find_section-all_bytes (suc fuel) wanted (numbered id body ∷ ss) h ((nz, size), w) =
    find_section_step fuel wanted id body (all_bytes ss) size
    ∙ rw (numbered-other wanted id body nz) (find_section-all_bytes fuel wanted ss (omega arith) w)
find_section-all_bytes (suc fuel) wanted (custom name body ∷ ss) h ((name_size, size), w) =
    find_section_step fuel wanted 0 (sized name ++ body) (all_bytes ss) size
    ∙ rw
        (
          named-custom wanted name body name_size,
          find_section-all_bytes fuel wanted ss (omega arith) w,
        )
        (after_named (text_eq name wanted) body _)
find_section-all_bytes zero wanted (s ∷ ss) h w = absurd (omega arith)

sections-le-bytes : (ss : List Section) → length ss ≤ length (all_bytes ss)
unfolding all_bytes section_bytes
sections-le-bytes [] = omega arith
sections-le-bytes (numbered id body ∷ ss) =
    omega (arith, sections-le-bytes ss, length-append {0} (sized body) (all_bytes ss))
sections-le-bytes (custom name body ∷ ss) =
    omega
      (arith, sections-le-bytes ss, length-append {0} (sized (sized name ++ body)) (all_bytes ss))

-- Of a module whose sections are written with their sizes in LEB128, customSection returns the body
-- of the first custom section with the name, and fails if there is none.
pub custom_section-all_bytes :
    (wanted : Text) (v1 v2 v3 v4 : ℕ) (ss : List Section)
    → All IsWritable ss
    → custom_section (magic ++ v1 ∷ v2 ∷ v3 ∷ v4 ∷ all_bytes ss) wanted ≡ first_named wanted ss
unfolding custom_section text_eq
custom_section-all_bytes wanted v1 v2 v3 v4 ss w =
    let bytes = v1 ∷ v2 ∷ v3 ∷ v4 ∷ all_bytes ss in
    let long : ltb (length (magic ++ bytes)) 8 ≡ false = ground arith in
    rw long (
      find_section-all_bytes (length (magic ++ bytes)) wanted ss
        (omega (arith, sections-le-bytes ss)) w)
