-- ===== src/BasicComms/Int32.antt =====
-- The int32_t overloads of `read` and `write` in basic_comms/src/cpp/ConstCharArrayBuffer.hpp and
-- CharArrayBuffer.hpp. The code casts between int32_t and its bit pattern, in two's complement.
use oef_mt_core.Base.{
  ℕ, suc, ◌-◌, ◌<◌, ◌^◌, ◌≡◌, ap, ◌∙◌, List, ◌∷◌, arith, ltb, if◌then◌else◌, byte0, byte1, byte2,
  byte3,
}
use oef_mt_core.Base.Int.{ℤ, pos, negsuc, ◌≤ℤ◌}
use oef_mt_core.BasicComms.ConstCharArrayBuffer.{CharStream, advance, read_u32}
use oef_mt_core.BasicComms.ConstCharArrayBuffer.Laws.{IsPlaced, rest, read_u32-cons}
use oef_mt_core.BasicComms.CharArrayBuffer.{write_u32}

-- The bit pattern of an int32_t.
abbrev pub of_int32 : ℤ → ℕ
of_int32 (pos n) = n
of_int32 (negsuc n) = 2 ^ 32 - suc n

abbrev pub to_int32 : ℕ → ℤ
to_int32 w = if ltb w (2 ^ 31) then pos w else negsuc (2 ^ 32 - suc w)

abbrev pub read_i32 : CharStream → ℤ × CharStream
read_i32 c = let (w, c') = read_u32 c in (to_int32 w, c')

abbrev pub write_i32 : CharStream → ℤ → CharStream
write_i32 c i = write_u32 c (of_int32 i)

of_int32-lt : (i : ℤ) → negsuc (2 ^ 31 - 1) ≤ℤ i → i ≤ℤ pos (2 ^ 31 - 1) → of_int32 i < 2 ^ 32
of_int32-lt (pos n) low high = omega arith
of_int32-lt (negsuc n) low high = omega arith

to_int32-of_int32 :
    (i : ℤ) → negsuc (2 ^ 31 - 1) ≤ℤ i → i ≤ℤ pos (2 ^ 31 - 1) → to_int32 (of_int32 i) ≡ i
to_int32-of_int32 (pos n) low high = ground arith
to_int32-of_int32 (negsuc n) low high = ground arith

-- Where the four bytes of a signed number stand as `write` puts them, the first the most significant,
-- `read` gives that number back, negative or not, and steps over them.
pub read_i32-cons :
    (c : CharStream) (i : ℤ) (xs : List ℕ)
    → IsPlaced c
    → negsuc (2 ^ 31 - 1) ≤ℤ i
    → i ≤ℤ pos (2 ^ 31 - 1)
    → rest c
      ≡ byte3 (of_int32 i) ∷ byte2 (of_int32 i) ∷ byte1 (of_int32 i) ∷ byte0 (of_int32 i) ∷ xs
    → (read_i32 c ≡ (i, advance c 4)) × (rest (advance c 4) ≡ xs)
read_i32-cons c i xs p low high h =
    let (read, left, _) = read_u32-cons c (of_int32 i) xs p (of_int32-lt i low high) h in
    (
      ap (λ (r : ℕ × CharStream). (to_int32 r.0, r.1)) read
          ∙ ap (λ (j : ℤ). (j, advance c 4)) (to_int32-of_int32 i low high),
      left,
    )
