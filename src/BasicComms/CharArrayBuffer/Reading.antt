-- ===== src/BasicComms/CharArrayBuffer/Reading.antt =====
-- The reading half of basic_comms/src/cpp/CharArrayBuffer.hpp, which has the text of
-- ConstCharArrayBuffer.hpp over mutable buffers.
use oef_mt_core.Base.{ℕ, List, Option}
use oef_mt_core.Base.Int.{ℤ}
use oef_mt_core.BasicComms.ConstCharArrayBuffer.{CharStream}
use oef_mt_core.BasicComms.ConstCharArrayBuffer
use oef_mt_core.BasicComms.Int32

abbrev pub get_char_at : CharStream → ℕ → ℕ
get_char_at = ConstCharArrayBuffer.get_char_at

abbrev pub underflow : CharStream → Option ℕ
underflow = ConstCharArrayBuffer.underflow

abbrev pub uflow : CharStream → Option ℕ × CharStream
uflow = ConstCharArrayBuffer.uflow

abbrev pub read_u32 : CharStream → ℕ × CharStream
read_u32 = ConstCharArrayBuffer.read_u32

abbrev pub read_i32 : CharStream → ℤ × CharStream
read_i32 = Int32.read_i32

abbrev pub read_string : CharStream → ℕ → List ℕ × CharStream
read_string = ConstCharArrayBuffer.read_string

abbrev pub pbackfail : CharStream → Option ℕ → Option ℕ × CharStream
pbackfail = ConstCharArrayBuffer.pbackfail
