-- ===== src/Comms/ProtoMessageReader/Detection.antt =====
-- How a reader that does not know the byte order yet finds it out.
use oef_mt_core.Base.{
  ℕ, ◌≤◌, ◌<◌, ◌^◌, ◌≡◌, ap, sym, ◌∙◌, true, List, [], ◌∷◌, ◌++◌, arith, ltb, if◌then◌else◌, lt→ltb,
  le→ltb_false, length, byte0, byte1, byte2, byte3, word_of,
}
use oef_mt_core.BasicComms.Memory.{Memory, Buffer, contents}
use oef_mt_core.BasicComms.ConstCharArrayBuffer.{CharStream, open_stream, advance}
use oef_mt_core.BasicComms.ConstCharArrayBuffer.Laws.{
  IsPlaced, rest, read_little_endian-cons, read_u32-cons, open_stream-rest, remaining_data-rest,
}
use oef_mt_core.Comms.Endianness.{dunno, little, network, header, little_endian, network_endian}
use oef_mt_core.Comms.ProtoMessageReader.Steps.{rounds-long}
use oef_mt_core.Comms.ProtoMessageReader.{
  Reader, size_of, failed, threw, undetermined_endianness, set_endianness, detect, stop,
  set_detected_endianness, read_header, with_body, rounds, check_for_message,
}

-- A little-endian header below 65535 settles the order, for the reader and for the sender.
detect-little :
    (r : Reader) (c : CharStream) (n : ℕ) (xs : List ℕ)
    → r.attached ≡ true
    → IsPlaced c
    → n < 65535
    → rest c ≡ header little_endian n ++ xs
    → detect r c ≡ size_of n (advance c 4) (set_endianness r little)
unfolding detect set_detected_endianness
detect-little r c n xs on p small h =
    let got = read_little_endian-cons c n xs p (omega arith) h in
    rw (got.0, lt→ltb n 65535 small, on)

-- The bytes of a network-endian header, read in the other order.
abbrev swapped : ℕ → ℕ
swapped n = word_of (byte0 n) (byte1 n) (byte2 n) (byte3 n)

header-swapped : (n : ℕ) → header little_endian (swapped n) ≡ header network_endian n
header-swapped n =
    let e0 : byte0 (swapped n) ≡ byte3 n = omega arith in
    let e1 : byte1 (swapped n) ≡ byte2 n = omega arith in
    let e2 : byte2 (swapped n) ≡ byte1 n = omega arith in
    let e3 : byte3 (swapped n) ≡ byte0 n = omega arith in λ i. e0 i ∷ e1 i ∷ e2 i ∷ e3 i ∷ []

-- A network-endian header of a message that may be sent is too large in the other order, so the
-- next four bytes are taken for a header, whatever they are.
detect-network :
    (r : Reader) (c : CharStream) (n m : ℕ) (xs : List ℕ)
    → IsPlaced c
    → 0 < n
    → n ≤ 10000
    → m < 2 ^ 32
    → rest c ≡ header network_endian n ++ (header network_endian m ++ xs)
    → detect r c ≡ (
        if ltb m 65535
        then size_of m (advance c 8) (set_detected_endianness r network)
        else failed undetermined_endianness r)
unfolding detect
detect-network r c n m xs p some small word h =
    let first =
      read_little_endian-cons c (swapped n) (header network_endian m ++ xs) p (omega arith)
        (h ∙ ap (λ l. l ++ (header network_endian m ++ xs)) (sym (header-swapped n))) in
    let second = read_u32-cons (advance c 4) m xs first.2 word first.1 in
    let eight : advance (advance c 4) 4 ≡ advance c 8 =
      ap (λ (k : ℕ). record c { current = k }) (omega arith) in
    rw (first.0, second.0, le→ltb_false (swapped n) 65535 (omega arith), eight)

-- With a header's worth of data an undecided reader goes by `detect`.
check_for_message-detect :
    (r : Reader) (m : Memory) (data_buffers : List Buffer) (a b d e : ℕ) (xs : List ℕ)
    → r.endianness ≡ dunno
    → contents m data_buffers ≡ a ∷ b ∷ d ∷ e ∷ xs
    → let c = open_stream m data_buffers in
      check_for_message r m data_buffers ≡ with_body (rounds c.size) 0 (detect r c)
unfolding check_for_message read_header
check_for_message-detect r m data_buffers a b d e xs undecided h =
    let c = open_stream m data_buffers in
    let opened = open_stream-rest m data_buffers in
    rounds-long r c 0 (length (rest c)) (remaining_data-rest c opened.1) c.size
      (omega (arith, ap length (opened.0 ∙ h)))
    ∙ ap (λ y. with_body (rounds c.size) 0 (read_header r y c)) undecided

-- Data that begins with a little-endian header below 65535 is read by an undecided reader exactly as
-- by one that, with its sender, had been set to little endian before.
pub check_for_message_little :
    (r : Reader) (m : Memory) (data_buffers : List Buffer) (n : ℕ) (xs : List ℕ)
    → r.endianness ≡ dunno
    → r.attached ≡ true
    → n < 65535
    → contents m data_buffers ≡ header little_endian n ++ xs
    → check_for_message r m data_buffers
      ≡ check_for_message (set_endianness r little) m data_buffers
unfolding check_for_message set_endianness read_header
check_for_message_little r m data_buffers n xs undecided on small h =
    let c = open_stream m data_buffers in
    let opened = open_stream-rest m data_buffers in
    let known = set_endianness r little in
    let got = read_little_endian-cons c n xs opened.1 (omega arith) (opened.0 ∙ h) in
    check_for_message-detect r m data_buffers (byte0 n) (byte1 n) (byte2 n) (byte3 n) xs undecided h
    ∙ ap (with_body (rounds c.size) 0) (detect-little r c n xs on opened.1 small (opened.0 ∙ h))
    ∙ ap (λ y. with_body (rounds c.size) 0 (size_of y.0 y.1 known)) (sym got.0)
    ∙ sym (
        rounds-long known c 0 (length (rest c)) (remaining_data-rest c opened.1) c.size
          (omega (arith, ap length (opened.0 ∙ h))))

word-header :
    (a b d e : ℕ)
    → a < 256
    → b < 256
    → d < 256
    → e < 256
    → header network_endian (word_of a b d e) ≡ a ∷ b ∷ d ∷ e ∷ []
word-header a b d e ha hb hd he =
    let e3 : byte3 (word_of a b d e) ≡ a = omega arith in
    let e2 : byte2 (word_of a b d e) ≡ b = omega arith in
    let e1 : byte1 (word_of a b d e) ≡ d = omega arith in
    let e0 : byte0 (word_of a b d e) ≡ e = omega arith in λ i. e3 i ∷ e2 i ∷ e1 i ∷ e0 i ∷ []

-- An undecided reader that is given the start of a network-endian connection whose first message has
-- 1 to 10000 bytes, with the header and at least four bytes of the body there and the first byte of
-- the body not zero: it throws, hands nothing over and stays undecided.
pub check_for_message_network :
    (r : Reader) (m : Memory) (data_buffers : List Buffer) (n a b d e : ℕ) (xs : List ℕ)
    → r.endianness ≡ dunno
    → n ≤ 10000
    → (0 < n) × (0 < a) × (a < 256) × (b < 256) × (d < 256) × (e < 256)
    → contents m data_buffers ≡ header network_endian n ++ (a ∷ b ∷ d ∷ e ∷ xs)
    → check_for_message r m data_buffers ≡ stop r (threw undetermined_endianness)
unfolding check_for_message with_body
check_for_message_network r m data_buffers n a b d e xs undecided small bytes h =
    let c = open_stream m data_buffers in
    let opened = open_stream-rest m data_buffers in
    let w = word_of a b d e in
    let parts : header network_endian w ≡ a ∷ b ∷ d ∷ e ∷ [] =
      word-header a b d e bytes.2 bytes.3 bytes.4 bytes.5 in
    let seen : detect r c ≡ failed undetermined_endianness r =
      detect-network r c n w xs opened.1 bytes.0 small (omega arith)
        (opened.0 ∙ h ∙ ap (λ l. header network_endian n ++ (l ++ xs)) (sym parts))
      ∙ rw (le→ltb_false w 65535 (omega arith)) in
    check_for_message-detect r m data_buffers (byte3 n) (byte2 n) (byte1 n) (byte0 n)
      (a ∷ b ∷ d ∷ e ∷ xs) undecided h
    ∙ ap (with_body (rounds c.size) 0) seen
