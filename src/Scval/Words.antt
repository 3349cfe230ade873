-- ===== src/Scval/Words.antt =====
-- internal/scval/encode.go and decode.go: range checks, and wide integers as 64-bit words.
-- A `big.Int` is an integer; a uint64 is a number below 2^64.
pub mod RoundTrip
use soroprobe.Prelude.{
  ℕ, zero, suc, ◌+◌, ◌-◌, ◌*◌, ◌/◌, ◌^◌, Bool, ◌&&◌, ◌||◌, not, List, [], ◌∷◌, ltb, leb, length,
  if◌then◌else◌,
}
use soroprobe.Prelude.Int.{ℤ, pos, negsuc, ltb_ℤ, ◌+ℤ◌, ◌-ℤ◌, neg_ℤ, to_word}

-- The bounds of checkRange.
abbrev pub lower : ℕ → Bool → ℤ
lower bits signed = if signed then neg_ℤ (pos (2 ^ (bits - 1))) else pos 0

abbrev pub upper : ℕ → Bool → ℤ
upper bits signed = pos ((if signed then 2 ^ (bits - 1) else 2 ^ bits) - 1)

-- checkRange returns no error.
unfoldable pub in_range : ℤ → ℕ → Bool → Bool
in_range n bits signed = not (ltb_ℤ n (lower bits signed) || ltb_ℤ (upper bits signed) n)

-- `v.Rsh(v, 64)`, which rounds towards minus infinity
unfoldable pub shift_right_64 : ℤ → ℤ
shift_right_64 (pos n) = pos (n / 2 ^ 64)
shift_right_64 (negsuc n) = negsuc (n / 2 ^ 64)

-- the loop of twosComplementWords, from the last word to the first
unfoldable pub words_from : ℕ → ℤ → List ℕ → List ℕ
unfolding shift_right_64
words_from zero v words = words
words_from (suc i) v words = words_from i (shift_right_64 v) (to_word v ∷ words)

unfoldable pub twos_complement_words : ℤ → ℕ → List ℕ
unfolding words_from
twos_complement_words n count =
    words_from count (if ltb_ℤ n (pos 0) then n +ℤ pos (2 ^ (count * 64)) else n) []

-- the loop of wordsToBigInt: the shifted result has no bit in common with the next word, so `Or`
-- is the sum
unfoldable pub join_words : ℕ → List ℕ → ℕ
join_words result [] = result
join_words result (w ∷ ws) = join_words (result * 2 ^ 64 + w) ws

-- `words[0]&(1<<63) != 0`, with `len(words) > 0`
unfoldable pub top_bit : List ℕ → Bool
top_bit [] = ltb 1 0
top_bit (w ∷ ws) = leb (2 ^ 63) w

unfoldable pub words_to_big_int : List ℕ → Bool → ℤ
unfolding join_words top_bit
words_to_big_int words signed =
    let result = pos (join_words 0 words) in
    if signed && top_bit words then result -ℤ pos (2 ^ (length words * 64)) else result
