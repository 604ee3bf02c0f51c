-- ===== src/Words.antt =====
-- Go's uint64 as a natural number below 2 ^ 64, its wrap-around written out.
use grin_with_golang.Prelude.{ℕ, ◌+◌, ◌-◌, ◌%◌, ◌^◌}

abbrev pub word : ℕ
word = 2 ^ 64

abbrev pub add64 : ℕ → ℕ → ℕ
add64 a b = (a + b) % word

-- `-` on ℕ stops at 0, so the modulus is added first
abbrev pub sub64 : ℕ → ℕ → ℕ
sub64 a b = (a + word - b) % word
