-- ===== src/Abi/Wasm/Leb.antt =====
-- Reading back a number in LEB128.
use soroprobe.Prelude.{
  ℕ, zero, suc, ◌+◌, ◌*◌, ◌/◌, ◌%◌, ◌^◌, ◌<◌, ◌≡◌, ◌≢◌, ◌∙◌, false, not, ◌&&◌, ◌==◌, ==_iff, ap,
  Bool-cases, inl, inr, ltb→lt, refl, List, [], ◌∷◌, ◌++◌, if◌then◌else◌, ltb, Result, ok, arith,
}
use soroprobe.Abi.Wasm.{uleb_from, read_uleb, WasmError}

-- A number in LEB128, of at most one byte more than the fuel.
unfoldable pub leb_from : ℕ → ℕ → List ℕ
leb_from zero n = n ∷ []
leb_from (suc k) n =
    let rest = leb_from k (n / 128) in if ltb n 128 then n ∷ [] else (128 + n % 128) ∷ rest

unfoldable pub leb128 : ℕ → List ℕ
leb128 n = leb_from 4 n

abbrev pub read : ℕ → List ℕ → Result WasmError (ℕ × List ℕ)
read n bytes = ok (n, bytes)

fits_shift : (sh n : ℕ) → (sh ≡ 28 → n < 16) → (sh == 28 && not (n / 16 % 16 == 0)) ≡ false
fits_shift sh n small = elim (Bool-cases (sh == 28)) [
  | inl at ↦
      let fits : n / 16 % 16 ≡ 0 = omega (arith, small ((==_iff sh 28).0 at)) in rw (at, fits) refl
  | inr other ↦ rw other refl
]

module _ (rest : List ℕ) where
  last_byte :
      (k sh v n w : ℕ)
      → n < 128
      → (sh ≡ 28 → n < 16)
      → (v + n * 2 ^ sh) % 2 ^ 32 ≡ w
      → uleb_from (suc k) sh v (n ∷ rest) ≡ read w rest
  unfolding uleb_from
  last_byte k sh v n w h small e =
      let same : n % 128 ≡ n = omega arith in
      let ends : n / 128 % 2 ≡ 0 = omega arith in
      let fits : (sh == 28 && not (n / 16 % 16 == 0)) ≡ false = fits_shift sh n small in
      rw (fits, same, ends, e) refl

  next_byte :
      (k sh v n w : ℕ) (bytes : List ℕ)
      → sh ≢ 28
      → (v + n % 128 * 2 ^ sh) % 2 ^ 32 ≡ w
      → uleb_from (suc k) sh v ((128 + n % 128) ∷ bytes) ≡ uleb_from k (sh + 7) w bytes
  unfolding uleb_from
  next_byte k sh v n w bytes h e =
      let same : (128 + n % 128) % 128 ≡ n % 128 = omega arith in
      let goes_on : (128 + n % 128) / 128 % 2 ≡ 1 = omega arith in
      let fits : (sh == 28) ≡ false = ground arith in rw (fits, same, goes_on, e) refl

  round_4 :
      (v n : ℕ)
      → v < 2 ^ 28
      → n < 2 ^ 4
      → uleb_from 1 28 v (leb_from 0 n ++ rest) ≡ read (v + n * 2 ^ 28) rest
  unfolding leb_from
  round_4 v n h k = last_byte 0 28 v n _ (omega arith) (λ e. k) (omega arith)

  round_3 :
      (v n : ℕ)
      → v < 2 ^ 21
      → n < 2 ^ 11
      → uleb_from 2 21 v (leb_from 1 n ++ rest) ≡ read (v + n * 2 ^ 21) rest
  unfolding leb_from
  round_3 v n h k = elim (Bool-cases (ltb n 128)) [
    | inl one ↦
        let small : n < 128 = ltb→lt n 128 one in
        rw one (last_byte 1 21 v n _ small (λ e. absurd (omega (arith, e))) (omega arith))
    | inr more ↦ rw more (
        next_byte 1 21 v n (v + n % 128 * 2 ^ 21) _ (λ e. omega (arith, e)) (omega arith)
        ∙ round_4 (v + n % 128 * 2 ^ 21) (n / 128) (omega arith) (omega arith)
        ∙ ap (λ (x : ℕ). read x rest) (omega arith))
  ]

  round_2 :
      (v n : ℕ)
      → v < 2 ^ 14
      → n < 2 ^ 18
      → uleb_from 3 14 v (leb_from 2 n ++ rest) ≡ read (v + n * 2 ^ 14) rest
  unfolding leb_from
  round_2 v n h k = elim (Bool-cases (ltb n 128)) [
    | inl one ↦
        let small : n < 128 = ltb→lt n 128 one in
        rw one (last_byte 2 14 v n _ small (λ e. absurd (omega (arith, e))) (omega arith))
    | inr more ↦ rw more (
        next_byte 2 14 v n (v + n % 128 * 2 ^ 14) _ (λ e. omega (arith, e)) (omega arith)
        ∙ round_3 (v + n % 128 * 2 ^ 14) (n / 128) (omega arith) (omega arith)
        ∙ ap (λ (x : ℕ). read x rest) (omega arith))
  ]

  round_1 :
      (v n : ℕ)
      → v < 2 ^ 7
      → n < 2 ^ 25
      → uleb_from 4 7 v (leb_from 3 n ++ rest) ≡ read (v + n * 2 ^ 7) rest
  unfolding leb_from
  round_1 v n h k = elim (Bool-cases (ltb n 128)) [
    | inl one ↦
        let small : n < 128 = ltb→lt n 128 one in
        rw one (last_byte 3 7 v n _ small (λ e. absurd (omega (arith, e))) (omega arith))
    | inr more ↦ rw more (
        next_byte 3 7 v n (v + n % 128 * 2 ^ 7) _ (λ e. omega (arith, e)) (omega arith)
        ∙ round_2 (v + n % 128 * 2 ^ 7) (n / 128) (omega arith) (omega arith)
        ∙ ap (λ (x : ℕ). read x rest) (omega arith))
  ]

  round_0 :
      (v n : ℕ)
      → v < 2 ^ 0
      → n < 2 ^ 32
      → uleb_from 5 0 v (leb_from 4 n ++ rest) ≡ read (v + n * 2 ^ 0) rest
  unfolding leb_from
  round_0 v n h k = elim (Bool-cases (ltb n 128)) [
    | inl one ↦
        let small : n < 128 = ltb→lt n 128 one in
        rw one (last_byte 4 0 v n _ small (λ e. absurd (omega (arith, e))) (omega arith))
    | inr more ↦ rw more (
        next_byte 4 0 v n (v + n % 128 * 2 ^ 0) _ (λ e. omega (arith, e)) (omega arith)
        ∙ round_1 (v + n % 128 * 2 ^ 0) (n / 128) (omega arith) (omega arith)
        ∙ ap (λ (x : ℕ). read x rest) (omega arith))
  ]

  -- What readULEB reads back is the number that was written.
  pub read_uleb-leb128 : (n : ℕ) → n < 2 ^ 32 → read_uleb (leb128 n ++ rest) ≡ read n rest
  unfolding read_uleb leb128
  read_uleb-leb128 n h = round_0 0 n (omega arith) h ∙ ap (λ (x : ℕ). read x rest) (omega arith)
