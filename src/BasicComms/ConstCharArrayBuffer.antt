-- ===== src/BasicComms/ConstCharArrayBuffer.antt =====
-- basic_comms/src/cpp/ConstCharArrayBuffer.hpp: a read position over scattered buffers. A char is
-- its bit pattern, a number below 256; `traits_type::eof()` is `none` where the code returns an
-- int_type, and the pattern 255 where it is cut to a char. `current` and `size` are of type int and
-- stay far below 2 ^ 31.
pub mod Laws
use oef_mt_core.Base.{
  ℕ, zero, suc, ◌+◌, ◌-◌, Bool, true, false, not, ◌&&◌, ◌||◌, List, [], ◌∷◌, Option, none, some,
  ltb, leb, ◌==◌, if◌then◌else◌, word_of, length, replicate,
}
use oef_mt_core.Base.Int.{ℤ, sub_ℕ}
use oef_mt_core.BasicComms.Memory.{Memory, Buffer, total_size, locate}

pub record CharStream : Type 0 where
  pub memory : Memory
  pub buffers : List Buffer
  pub current : ℕ
  pub size : ℕ

-- The constructor.
unfoldable pub open_stream : Memory → List Buffer → CharStream
open_stream m bs = record { memory = m; buffers = bs; current = 0; size = total_size bs }

-- The copy with a size limit.
abbrev pub limited_to : CharStream → ℕ → CharStream
limited_to c sizelimit = record c { size = sizelimit }

abbrev pub eof_char : ℕ
eof_char = 255

char_or_eof : Memory → Option ℕ → ℕ
char_or_eof m none = eof_char
char_or_eof m (some a) = m a

pub get_char_at : CharStream → ℕ → ℕ
get_char_at c pos = if leb c.size pos then eof_char else char_or_eof c.memory (locate c.buffers pos)

-- A `std::streamsize`, signed.
pub remaining_data : CharStream → ℤ
remaining_data c = sub_ℕ c.size c.current

abbrev pub underflow : CharStream → Option ℕ
underflow c = if leb c.size c.current then none else some (get_char_at c c.current)

abbrev pub advance : CharStream → ℕ → CharStream
advance c amount = record c { current = c.current + amount }

pub uflow : CharStream → Option ℕ × CharStream
uflow c = if leb c.size c.current then (none, c) else (some (get_char_at c c.current), advance c 1)

-- The cast of what `uflow` returns to uint8_t, and its `to_char_type`.
abbrev pub to_byte : Option ℕ → ℕ
to_byte none = 255
to_byte (some b) = b

-- Four calls of `uflow`, the order of their bytes kept.
pub next_four : CharStream → (ℕ × ℕ × ℕ × ℕ) × CharStream
next_four c =
    let (a, c1) = uflow c in
    let (b, c2) = uflow c1 in
    let (d, c3) = uflow c2 in
    let (e, c4) = uflow c3 in ((to_byte a, to_byte b, to_byte d, to_byte e), c4)

pub read_u32 : CharStream → ℕ × CharStream
read_u32 c = let (w, c') = next_four c in (word_of w.0 w.1 w.2 w.3, c')

pub read_little_endian : CharStream → ℕ × CharStream
read_little_endian c = let (w, c') = next_four c in (word_of w.3 w.2 w.1 w.0, c')

read_chars : ℕ → CharStream → List ℕ × CharStream
read_chars zero c = ([], c)
read_chars (suc n) c =
    let (b, c') = uflow c in let (bs, c'') = read_chars n c' in (to_byte b ∷ bs, c'')

-- `read(std::string &, length)`: the characters, and one more that is dropped.
pub read_string : CharStream → ℕ → List ℕ × CharStream
read_string c n = let (s, c') = read_chars n c in (s, (uflow c').1)

-- `ch != get_char_at(current-1)` compares an int_type with a signed char.
abbrev differs : Option ℕ → ℕ → Bool
differs none b = false
differs (some ch) b = not (ch == b && ltb b 128)

abbrev pub pbackfail : CharStream → Option ℕ → Option ℕ × CharStream
pbackfail c ch =
    if c.current == 0 || differs ch (get_char_at c (c.current - 1))
    then (none, c)
    else (some (get_char_at c (c.current - 1)), record c { current = c.current - 1 })

-- `while (current < size) r += get_char_at(current++)`, by the number of rounds left.
copy_rounds : ℕ → CharStream → List ℕ × CharStream
copy_rounds zero c = ([], c)
copy_rounds (suc n) c =
    let (r, c') = copy_rounds n (advance c 1) in (get_char_at c c.current ∷ r, c')

pub copy_out : CharStream → List ℕ × CharStream
copy_out c = copy_rounds (c.size - c.current) c
