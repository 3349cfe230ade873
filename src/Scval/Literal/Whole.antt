-- ===== src/Scval/Literal/Whole.antt =====
-- A printed integer is read back by parseInteger.
use soroprobe.Prelude.{
  ℕ, suc, ◌≤◌, ◌≡◌, ◌≢◌, refl, false, none, [], ◌∷◌, ok, Text, is_empty, arith, All,
}
use soroprobe.Prelude.Int.{ℤ, pos, negsuc}
use soroprobe.Prelude.Strings.{cut, contains_byte}
use soroprobe.Prelude.Strings.Digits.{int_text, nat_text}
use soroprobe.Prelude.Strings.Digits.RoundTrip.{
  IsDigit, nat_text-digits, nat_text-cons, set_string-int_text,
}
use soroprobe.Prelude.Strings.Trim.{IsPrinted, trim_space-IsPrinted}
use soroprobe.Scval.Literal.{parse_whole_number, parse_cut, parse_integer}

-- a minus sign or a digit
abbrev IsSigned : ℕ → Type 0
IsSigned c = (45 ≤ c) × (c ≤ 57) × (c ≢ 46)

digits-IsSigned : (s : Text) → All IsDigit s → All IsSigned s
digits-IsSigned [] h = tt
digits-IsSigned (c ∷ s) h = ((omega arith, omega arith, omega arith), digits-IsSigned s h.1)

int_text-IsSigned : (z : ℤ) → All IsSigned (int_text z)
unfolding int_text
int_text-IsSigned (pos n) = digits-IsSigned (nat_text n) (nat_text-digits n)
int_text-IsSigned (negsuc n) = (
  (omega arith, omega arith, omega arith),
  digits-IsSigned (nat_text (suc n)) (nat_text-digits (suc n)),
)

signed-IsPrinted : (s : Text) → All IsSigned s → All IsPrinted s
signed-IsPrinted [] h = tt
signed-IsPrinted (c ∷ s) h = ((omega arith, omega arith), signed-IsPrinted s h.1)

cut-signed : (s : Text) → All IsSigned s → cut b'@' s ≡ (s, none)
unfolding cut
cut-signed [] h = refl
cut-signed (c ∷ s) h = ground (arith, cut-signed s h.1)

no_point : (s : Text) → All IsSigned s → contains_byte b'.' s ≡ false
unfolding contains_byte
no_point [] h = refl
no_point (c ∷ s) h = ground (arith, no_point s h.1)

int_text-not_empty : (z : ℤ) → is_empty (int_text z) ≡ false
unfolding int_text
int_text-not_empty (pos n) = let (d, s, e) = nat_text-cons n in rw e
int_text-not_empty (negsuc n) = refl

-- The decimal text of any integer, negative ones included, parses as that integer.
pub parse_integer-int_text : (z : ℤ) → parse_integer (int_text z) ≡ ok z
unfolding parse_integer parse_cut parse_whole_number
parse_integer-int_text z =
    let signed = int_text-IsSigned z in
    rw (
      trim_space-IsPrinted (int_text z) (signed-IsPrinted (int_text z) signed),
      int_text-not_empty z,
      cut-signed (int_text z) signed,
      no_point (int_text z) signed,
      set_string-int_text z,
    )
