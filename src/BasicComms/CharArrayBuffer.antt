-- ===== src/BasicComms/CharArrayBuffer.antt =====
-- basic_comms/src/cpp/CharArrayBuffer.hpp: a write position over scattered buffers. The state is the
-- stream of ConstCharArrayBuffer, whose reading methods this class repeats (in Reading below); here
-- are the methods that write. The type int holds every position.
pub mod Laws
pub mod Reading
use oef_mt_core.Base.{
  ℕ, ◌+◌, ◌-◌, Bool, true, false, List, [], ◌∷◌, Option, none, some, leb, if◌then◌else◌, byte0,
  byte1, byte2, byte3,
}
use oef_mt_core.Base.Int.{ℤ, sub_ℕ}
use oef_mt_core.BasicComms.Memory.{Memory, store, locate}
use oef_mt_core.BasicComms.ConstCharArrayBuffer.{CharStream, advance}

put_at : CharStream → Option ℕ → ℕ → Bool × CharStream
put_at c none character = (false, c)
put_at c (some a) character = (true, record c { memory = store c.memory a character })

unfoldable pub put_char_at : CharStream → ℕ → ℕ → Bool × CharStream
unfolding put_at
put_char_at c position character =
    if leb c.size position then (false, c) else put_at c (locate c.buffers position) character

-- A `std::streamsize`, signed.
unfoldable pub remaining_space : CharStream → ℤ
remaining_space c = sub_ℕ c.size c.current

unfoldable pub oflow : CharStream → ℕ → Option ℕ × CharStream
oflow c x =
    if leb c.size c.current then (none, c) else (some x, advance (put_char_at c c.current x).1 1)

abbrev pub sputc : CharStream → ℕ → Option ℕ × CharStream
sputc c x =
    if leb c.size c.current then (none, c) else (some x, advance (put_char_at c c.current x).1 1)

-- It does not step on, and answers 1 whether or not it wrote.
abbrev pub overflow : CharStream → ℕ → ℕ × CharStream
overflow c x = (1, (put_char_at c c.current x).1)

-- Calls of `oflow` whose results are dropped.
unfoldable pub write_bytes : CharStream → List ℕ → CharStream
write_bytes c [] = c
write_bytes c (x ∷ xs) = write_bytes (oflow c x).1 xs

-- `write(const uint32_t &)`
unfoldable pub write_u32 : CharStream → ℕ → CharStream
write_u32 c i = write_bytes c (byte3 i ∷ byte2 i ∷ byte1 i ∷ byte0 i ∷ [])

unfoldable pub write_little_endian : CharStream → ℕ → CharStream
write_little_endian c i = write_bytes c (byte0 i ∷ byte1 i ∷ byte2 i ∷ byte3 i ∷ [])

-- `write(const std::string &)`: the characters, and no terminator.
abbrev pub write_string : CharStream → List ℕ → CharStream
write_string c s = write_bytes c s

-- `xsputn` steps on whether or not the character was put.
unfoldable pub xsputn : CharStream → List ℕ → CharStream
xsputn c [] = c
xsputn c (x ∷ xs) = xsputn (advance (put_char_at c c.current x).1 1) xs
