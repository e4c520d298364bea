-- ===== src/Base/Words.antt =====
-- `word_t` arithmetic, on 64-bit words.
use Prim.Native.Nat.{ℕ, ◌+◌, ◌-◌, ◌%◌, ◌^◌}

abbrev pub word_mod : ℕ
word_mod = 2 ^ 64

abbrev pub add_word : ℕ → ℕ → ℕ
add_word a b = (a + b) % word_mod

abbrev pub sub_word : ℕ → ℕ → ℕ
sub_word a b = (a + word_mod - b) % word_mod
