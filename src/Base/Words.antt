-- ===== src/Base/Words.antt =====
-- Machine words. size_t arithmetic on 64 bits with the wrap-around written out, and the bytes of a
-- uint32_t in either order.
use Prim.Native.Nat.{ℕ, ◌+◌, ◌-◌, ◌*◌, ◌/◌, ◌^◌, ◌%◌, ◌<◌}
use mathlib.Core.Path.{◌≡◌}
use native.Mathlib.Omega.{arith}

abbrev pub add_size : ℕ → ℕ → ℕ
add_size a b = (a + b) % 2 ^ 64

abbrev pub sub_size : ℕ → ℕ → ℕ
sub_size a b = (a + 2 ^ 64 - b) % 2 ^ 64

-- `htonl` puts the most significant byte first in memory; these are `c[0]` to `c[3]` after it.
abbrev pub byte3 : ℕ → ℕ
byte3 i = i / 2 ^ 24 % 256

abbrev pub byte2 : ℕ → ℕ
byte2 i = i / 2 ^ 16 % 256

abbrev pub byte1 : ℕ → ℕ
byte1 i = i / 2 ^ 8 % 256

abbrev pub byte0 : ℕ → ℕ
byte0 i = i % 256

-- `ntohl` of four bytes in memory, the first one the most significant.
abbrev pub word_of : ℕ → ℕ → ℕ → ℕ → ℕ
word_of a b c d = a * 2 ^ 24 + b * 2 ^ 16 + c * 2 ^ 8 + d

pub word_of-bytes : (i : ℕ) → i < 2 ^ 32 → word_of (byte3 i) (byte2 i) (byte1 i) (byte0 i) ≡ i
word_of-bytes i h = omega arith
