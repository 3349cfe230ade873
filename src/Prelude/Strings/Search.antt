-- ===== src/Prelude/Strings/Search.antt =====
-- Go's `strings` functions that the program uses, on the bytes of a string.
use mathlib.Core.List.{reverse}
use Prim.Native.Nat.{ℕ, zero, suc, ◌+◌}
use mathlib.Core.Bool.{Bool, true, false, ◌&&◌, ◌||◌}
use mathlib.Core.Option.{Option, none, some}
use mathlib.Core.List.{[], ◌∷◌}
use soroprobe.Prelude.Tests.{leb, ◌==◌, if◌then◌else◌}
use soroprobe.Prelude.Strings.Bytes.{Text}

-- strings.HasPrefix
unfoldable pub has_prefix : Text → Text → Bool
has_prefix s [] = true
has_prefix [] (p ∷ ps) = false
has_prefix (c ∷ s) (p ∷ ps) = c == p && has_prefix s ps

-- strings.TrimPrefix with a prefix of one byte
unfoldable pub trim_byte : ℕ → Text → Text
trim_byte p [] = []
trim_byte p (c ∷ s) = if c == p then s else c ∷ s

-- strings.Cut at a byte: the text before it, and the text after it if the byte is there
unfoldable pub cut : ℕ → Text → Text × Option Text
cut b [] = ([], none)
cut b (c ∷ s) =
    let (before, after) = cut b s in if c == b then ([], some s) else (c ∷ before, after)

-- strings.ContainsRune, for an ASCII character
unfoldable pub contains_byte : ℕ → Text → Bool
contains_byte b [] = false
contains_byte b (c ∷ s) = c == b || contains_byte b s

-- The bytes of a white space character at the front of a string, 0 if there is none: the ASCII
-- spaces, U+0085, U+00A0, U+1680, U+2000 to U+200A, U+2028, U+2029, U+202F, U+205F and U+3000.
abbrev ascii_space : ℕ → Bool
ascii_space c = leb 9 c && leb c 13 || c == 32

abbrev space_2 : ℕ → ℕ → Bool
space_2 a b = a == 0xc2 && (b == 0x85 || b == 0xa0)

abbrev space_3 : ℕ → ℕ → ℕ → Bool
space_3 a b c =
    a == 0xe1 && b == 0x9a && c == 0x80
    || a == 0xe2 && b == 0x80 && (leb 0x80 c && leb c 0x8a || c == 0xa8 || c == 0xa9 || c == 0xaf)
    || a == 0xe2 && b == 0x81 && c == 0x9f
    || a == 0xe3 && b == 0x80 && c == 0x80

unfoldable pub space_width : Text → ℕ
space_width [] = 0
space_width (a ∷ []) = if ascii_space a then 1 else 0
space_width (a ∷ b ∷ []) = if ascii_space a then 1 else if space_2 a b then 2 else 0
space_width (a ∷ b ∷ c ∷ s) =
    if ascii_space a then 1 else if space_2 a b then 2 else if space_3 a b c then 3 else 0

-- the same at the end of a string that is read backwards
unfoldable pub last_space_width : Text → ℕ
last_space_width [] = 0
last_space_width (a ∷ []) = if ascii_space a then 1 else 0
last_space_width (a ∷ b ∷ []) = if ascii_space a then 1 else if space_2 b a then 2 else 0
last_space_width (a ∷ b ∷ c ∷ s) =
    if ascii_space a then 1 else if space_2 b a then 2 else if space_3 c b a then 3 else 0

-- Drops `skip` bytes and then every character that `width` finds.
unfoldable pub trim_from : (Text → ℕ) → ℕ → Text → Text
trim_from width skip [] = []
trim_from width zero (c ∷ s) = elim (width (c ∷ s)) [ zero ↦ c ∷ s | suc k ↦ trim_from width k s ]
trim_from width (suc k) (c ∷ s) = trim_from width k s

-- strings.TrimSpace
unfoldable pub trim_space : Text → Text
trim_space s = reverse (trim_from last_space_width 0 (reverse (trim_from space_width 0 s)))

-- strings.ToLower. Of the letters outside ASCII only the Kelvin sign and the dotted capital I have
-- an ASCII lower case; the others stay outside ASCII, and are left as they are, since the program
-- compares the result with ASCII names only.
unfoldable pub to_lower : Text → Text
to_lower [] = []
to_lower (a ∷ []) = (if leb b'A' a && leb a b'Z' then a + 32 else a) ∷ []
to_lower (a ∷ b ∷ []) =
    if a == 0xc4 && b == 0xb0
    then b'i' ∷ []
    else (if leb b'A' a && leb a b'Z' then a + 32 else a) ∷ to_lower (b ∷ [])
to_lower (a ∷ b ∷ c ∷ s) =
    let two = b'i' ∷ to_lower (c ∷ s) in
    let three = b'k' ∷ to_lower s in
    let one = (if leb b'A' a && leb a b'Z' then a + 32 else a) ∷ to_lower (b ∷ c ∷ s) in
    if a == 0xc4 && b == 0xb0
    then two
    else if a == 0xe2 && b == 0x84 && c == 0xaa
    then three
    else one
