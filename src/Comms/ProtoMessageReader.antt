-- ===== src/Comms/ProtoMessageReader.antt =====
-- mt-core/comms/src/cpp/ProtoMessageReader.cpp, with the endpoint's `setEndianness` of
-- ProtoMessageEndpoint.cpp. Messages handed to `onComplete` are collected in order: each is the
-- stream that the handler is given.
pub mod Steps
pub mod Frames
pub mod Safety
pub mod Detection
use oef_mt_core.Base.{
  ℕ, zero, suc, ◌+◌, ◌-◌, Bool, true, false, List, [], ◌∷◌, ◌++◌, Option, none, some, ltb, leb,
  if◌then◌else◌,
}
use oef_mt_core.Base.Int.{ℤ, pos, ◌-ℤ◌, ltb_ℤ, to_size}
use oef_mt_core.BasicComms.Memory.{Memory, Buffer}
use oef_mt_core.BasicComms.ConstCharArrayBuffer.{
  CharStream, open_stream, limited_to, remaining_data, advance, read_u32, read_little_endian,
}
use oef_mt_core.Comms.Endianness.{Endianness, dunno, little, network, bad}

-- What the throw statements say.
pub data ReadError : Type 0 where
  endianness_bad undetermined_endianness : ReadError
  refuses_incoming : ℕ → ReadError

-- The reader's own state. `attached` tells whether the weak pointer to the endpoint can be locked,
-- and `has_handler` whether `onComplete` is set.
pub record Reader : Type 0 where
  pub endianness : Endianness
  pub attached : Bool
  pub has_handler : Bool
  -- The endianness of the sender at the same endpoint, which detection sets as well
  pub sender_endianness : Endianness

pub data Outcome : Type 0 where
  consumed_needed : ℕ → ℕ → Outcome
  threw : ReadError → Outcome
  -- the model's rounds ran out; it is not a behaviour of the code
  out_of_rounds : Outcome

pub record Check : Type 0 where
  pub reader : Reader
  pub delivered : List CharStream
  pub outcome : Outcome

abbrev pub head_size : ℕ
head_size = 4

-- `ProtoMessageEndpoint::setEndianness`: reader and sender.
pub set_endianness : Reader → Endianness → Reader
set_endianness r e = record r { endianness = e; sender_endianness = e }

-- Detection does nothing once the endpoint is gone.
pub set_detected_endianness : Reader → Endianness → Reader
set_detected_endianness r e = if r.attached then set_endianness r e else r

pub data Header : Type 0 where
  size_of : ℕ → CharStream → Reader → Header
  failed : ReadError → Reader → Header

-- The case DUNNO: as little endian first, then, from the bytes that follow, as big endian.
pub detect : Reader → CharStream → Header
detect r c =
    let (n, c') = read_little_endian c in
    let (m, c'') = read_u32 c' in
    if ltb n 65535
    then size_of n c' (set_detected_endianness r little)
    else if ltb m 65535
    then size_of m c'' (set_detected_endianness r network)
    else failed undetermined_endianness r

-- The switch over the endianness.
pub read_header : Reader → Endianness → CharStream → Header
read_header r bad c = failed endianness_bad r
read_header r dunno c = detect r c
read_header r little c = let (n, c') = read_little_endian c in size_of n c' r
read_header r network c = let (n, c') = read_u32 c in size_of n c' r

abbrev pub deliver : Reader → CharStream → List CharStream
deliver r c = if r.has_handler then c ∷ [] else []

abbrev pub stop : Reader → Outcome → Check
stop r o = record { reader = r; delivered = []; outcome = o }

-- A message that was handed over stays so whatever comes after it.
abbrev pub after_delivery : List CharStream → Check → Check
after_delivery ds k = record k { delivered = ds ++ k.delivered }

-- One pass through the body of the loop, behind the header; `again` is the next pass.
pub with_body : (Reader → CharStream → ℕ → Check) → ℕ → Header → Check
with_body again consumed (failed e r) = stop r (threw e)
with_body again consumed (size_of n c r) =
    let message = limited_to c (c.current + n) in
    let more = again r (advance c n) (consumed + head_size + n) in
    if ltb 10000 n
    then stop r (threw (refuses_incoming n))
    else if ltb (to_size (remaining_data c)) n
    then stop r (consumed_needed consumed (to_size (pos n -ℤ remaining_data c)))
    else after_delivery (deliver r message) more

-- `while(true)`, with the number of rounds that are left.
pub rounds : ℕ → Reader → CharStream → ℕ → Check
rounds zero r c consumed = stop r out_of_rounds
rounds (suc fuel) r c consumed =
    let body = with_body (rounds fuel) consumed (read_header r r.endianness c) in
    if ltb_ℤ (remaining_data c) (pos head_size)
    then stop r (consumed_needed consumed (to_size (pos head_size -ℤ remaining_data c)))
    else body

-- `checkForMessage`. Each pass steps over a header at least, so the size of the data bounds them.
pub check_for_message : Reader → Memory → List Buffer → Check
check_for_message r m data_buffers = let c = open_stream m data_buffers in rounds (suc c.size) r c 0
