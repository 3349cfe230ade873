-- ===== src/Scval/Words/RoundTrip.antt =====
-- An integer in range survives its encoding as words, for the widths that the codec uses.
use soroprobe.Prelude.{◌≡◌, Bool, true, arith}
use soroprobe.Prelude.Int.{ℤ, ◌+ℤ◌, ◌-ℤ◌}
use soroprobe.Scval.Words.{in_range, twos_complement_words, words_to_big_int}

-- For an unsigned or signed integer that is in range of 128 bits, the two words stand for it.
pub words_128 :
    (n : ℤ) (signed : Bool)
    → in_range n 128 signed ≡ true
    → words_to_big_int (twos_complement_words n 2) signed ≡ n
unfolding in_range twos_complement_words words_to_big_int ◌+ℤ◌ ◌-ℤ◌
words_128 n signed h = ground arith

-- For an unsigned or signed integer that is in range of 256 bits, the four words stand for it.
pub words_256 :
    (n : ℤ) (signed : Bool)
    → in_range n 256 signed ≡ true
    → words_to_big_int (twos_complement_words n 4) signed ≡ n
unfolding in_range twos_complement_words words_to_big_int ◌+ℤ◌ ◌-ℤ◌
words_256 n signed h = ground arith
