-- ===== src/Prelude/Strings/Digits/RoundTrip.antt =====
-- What is printed in base 10 is parsed back.
use Prim.Native.Nat.{ℕ, zero, suc, ◌+◌, ◌-◌, ◌*◌, ◌/◌, ◌%◌, ◌<◌, ◌≤◌}
use mathlib.Core.Path.{◌≡◌, refl, ◌∙◌, ap}
use mathlib.Core.Logic.{inl, inr}
use mathlib.Core.Bool.{true}
use mathlib.Core.Option.{some}
use mathlib.Core.List.{[], ◌∷◌, ◌++◌}
use native.Mathlib.Omega.{arith}
use soroprobe.Prelude.Tests.{◌==◌, Bool-cases}
use soroprobe.Prelude.Lists.{All}
use soroprobe.Prelude.Int.{ℤ, pos, negsuc}
use soroprobe.Prelude.Strings.Bytes.{Text}
use soroprobe.Prelude.Strings.Digits.{
  all_digits, value_from, digits_from, nat_text, int_text, parse_nat, set_string,
}

abbrev pub IsDigit : ℕ → Type 0
IsDigit c = (b'0' ≤ c) × (c ≤ b'9')

pub all_digits-All : (s : Text) → All IsDigit s → all_digits s ≡ true
unfolding all_digits
all_digits-All [] h = refl
all_digits-All (c ∷ s) h = ground (arith, all_digits-All s h.1)

pub All-all_digits : (s : Text) → all_digits s ≡ true → All IsDigit s
unfolding all_digits
All-all_digits [] h = tt
All-all_digits (c ∷ s) h = ground (arith, All-all_digits s)

pub value_from-append : (v : ℕ) (s t : Text) → value_from v (s ++ t) ≡ value_from (value_from v s) t
unfolding value_from
value_from-append v [] t = refl
value_from-append v (c ∷ s) t = value_from-append (v * 10 + (c - b'0')) s t

value-digits_from :
    (f n : ℕ) (rest : Text) → n < f → value_from 0 (digits_from f n rest) ≡ value_from n rest
unfolding digits_from value_from
value-digits_from zero n rest h = absurd (omega arith)
value-digits_from (suc f) n rest h = elim (Bool-cases (n / 10 == 0)) [
  | inl last ↦ rw last (ap (λ m. value_from m rest) (ground arith))
  | inr more ↦ rw more (
      value-digits_from f (n / 10) ((b'0' + n % 10) ∷ rest) (ground arith)
      ∙ ap (λ m. value_from m rest) (omega arith))
]

digits_from-digits : (f n : ℕ) (rest : Text) → All IsDigit rest → All IsDigit (digits_from f n rest)
unfolding digits_from
digits_from-digits zero n rest h = h
digits_from-digits (suc f) n rest h =
    ground (arith, digits_from-digits f (n / 10) ((b'0' + n % 10) ∷ rest))

digits_from-cons :
    (f n : ℕ) (c : ℕ) (rest : Text) → (d : ℕ) × (s : Text) × (digits_from f n (c ∷ rest) ≡ d ∷ s)
unfolding digits_from
digits_from-cons zero n c rest = (c, rest, refl)
digits_from-cons (suc f) n c rest = elim (Bool-cases (n / 10 == 0)) [
  | inl last ↦ (b'0' + n % 10, c ∷ rest, rw last)
  | inr more ↦ rw more (digits_from-cons f (n / 10) (b'0' + n % 10) (c ∷ rest))
]

pub nat_text-cons : (n : ℕ) → (d : ℕ) × (s : Text) × (nat_text n ≡ d ∷ s)
unfolding nat_text digits_from
nat_text-cons n = elim (Bool-cases (n / 10 == 0)) [
  | inl last ↦ (b'0' + n % 10, [], rw last)
  | inr more ↦ rw more (digits_from-cons n (n / 10) (b'0' + n % 10) [])
]

pub nat_text-digits : (n : ℕ) → All IsDigit (nat_text n)
unfolding nat_text
nat_text-digits n = digits_from-digits (suc n) n [] tt

pub value-nat_text : (n : ℕ) → value_from 0 (nat_text n) ≡ n
unfolding nat_text
value-nat_text n = value-digits_from (suc n) n [] (omega arith) ∙ unfold value_from in refl

pub parse_nat-digits :
    (c : ℕ) (s : Text) → All IsDigit (c ∷ s) → parse_nat (c ∷ s) ≡ some (value_from 0 (c ∷ s))
unfolding parse_nat
parse_nat-digits c s h = rw (all_digits-All (c ∷ s) h)

pub parse_nat-nat_text : (n : ℕ) → parse_nat (nat_text n) ≡ some n
parse_nat-nat_text n =
    let (d, s, e) = nat_text-cons n in
    rw e (parse_nat-digits d s (rw e at (nat_text-digits n)) ∙ ap some (rw e at (value-nat_text n)))

-- The text that prints an integer parses as that integer.
pub set_string-int_text : (z : ℤ) → set_string (int_text z) ≡ some z
unfolding set_string int_text
set_string-int_text (pos n) =
    let (d, s, e) = nat_text-cons n in
    let h : All IsDigit (d ∷ s) = rw e at (nat_text-digits n) in
    let p = parse_nat-nat_text n in rw e (ground (arith, rw e at p))
set_string-int_text (negsuc n) = ground (arith, parse_nat-nat_text (suc n))
