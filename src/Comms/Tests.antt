-- ===== src/Comms/Tests.antt =====
-- Concrete runs of the message reader and sender.
use oef_mt_core.Base.{
  ℕ, ◌+◌, ◌^◌, ◌≤◌, ◌<◌, ◌≡◌, refl, ap, sym, inl, Bool, true, false, List, [], ◌∷◌, ◌++◌,
  append-nil, some, arith, length, lt→leb_false,
}
use native.Mathlib.Nat.{mod-eq_of_lt}
use oef_mt_core.BasicComms.Memory.{Memory, Buffer, locate, total_size}
use oef_mt_core.BasicComms.Sample.{byte_at, all_of, contents-byte_at}
use oef_mt_core.BasicComms.Window.{window}
use oef_mt_core.BasicComms.RingBuffer.{RingBuffer}
use oef_mt_core.BasicComms.RingBuffer.Bounds.{IsValid}
use oef_mt_core.BasicComms.RingBuffer.Queue.{held}
use oef_mt_core.BasicComms.ConstCharArrayBuffer.{open_stream}
use oef_mt_core.BasicComms.CharArrayBuffer.Laws.{Covers}
use oef_mt_core.BasicComms.EndpointBase.{Endpoint, create_messages, returned}
use oef_mt_core.Comms.Endianness.{
  Endianness, dunno, little, network, little_endian, network_endian, header, frames,
}
use oef_mt_core.Comms.ProtoMessageReader.{
  Reader, check_for_message, stop, threw, undetermined_endianness,
}
use oef_mt_core.Comms.ProtoMessageReader.Frames.{Reads, check_for_message-frames}
use oef_mt_core.Comms.ProtoMessageReader.Safety.{IsSound, check_for_message-IsSound}
use oef_mt_core.Comms.ProtoMessageReader.Detection.{check_for_message_network}
use oef_mt_core.Comms.ProtoMessageSender.{Sender, check_for_space}
use oef_mt_core.Comms.ProtoMessageSender.Frames.{IsProtobuf, Appends, Sends, check_for_space-Sends}
use oef_mt_core.Comms.RoundTrip.{
  proto_writer, proto_reader, Filled, ReadsBack, AllShort, create_messages-Filled, refill-read,
}

abbrev reader_of : Endianness → Reader
reader_of e = record { endianness = e; attached = true; has_handler = true; sender_endianness = e }

-- Two frames in little-endian order, and the first two bytes of a header.
abbrev bodies : List (List ℕ)
bodies = (8 ∷ 1 ∷ []) ∷ (8 ∷ 2 ∷ 16 ∷ []) ∷ []

abbrev started_header : List ℕ
started_header = 9 ∷ 0 ∷ []

abbrev two_frames : List ℕ
two_frames = frames little_endian bodies ++ started_header

check_for_message-frames_example :
    Reads
      (reader_of little)
      (length (frames little_endian bodies))
      2
      bodies
      (check_for_message (reader_of little) (byte_at two_frames) (all_of two_frames))
check_for_message-frames_example =
    check_for_message-frames little_endian (reader_of little) (byte_at two_frames)
      (all_of two_frames) bodies started_header 2 refl (omega arith, (omega arith, tt))
      (inl (omega arith, refl)) (contents-byte_at two_frames)

check_for_message-IsSound_example :
    IsSound
      (all_of two_frames)
      (check_for_message (reader_of dunno) (byte_at two_frames) (all_of two_frames))
check_for_message-IsSound_example =
    check_for_message-IsSound (reader_of dunno) (byte_at two_frames) (all_of two_frames)

abbrev network_frame : List ℕ
network_frame = header network_endian 4 ++ (8 ∷ 1 ∷ 16 ∷ 2 ∷ [])

check_for_message_network_example :
    check_for_message (reader_of dunno) (byte_at network_frame) (all_of network_frame)
    ≡ stop (reader_of dunno) (threw undetermined_endianness)
check_for_message_network_example =
    check_for_message_network (reader_of dunno) (byte_at network_frame) (all_of network_frame) 4 8 1
      16 2 [] refl (omega arith)
      (omega arith, omega arith, omega arith, omega arith, omega arith, omega arith)
      (contents-byte_at network_frame)

-- A message that is empty, and one of two bytes.
abbrev serialize : Bool → List ℕ
serialize true = 8 ∷ 1 ∷ []
serialize false = []

abbrev byte_size : Bool → ℕ
byte_size true = 2
byte_size false = 0

serialize-sizes : (b : Bool) → length (serialize b) ≡ byte_size b
serialize-sizes true = refl
serialize-sizes false = refl

byte_size-small : (b : Bool) → byte_size b < 2 ^ 31
byte_size-small true = omega arith
byte_size-small false = omega arith

byte_size-fits : (b : Bool) → byte_size b ≤ 10000
byte_size-fits true = omega arith
byte_size-fits false = omega arith

serialize-IsProtobuf : IsProtobuf byte_size serialize
serialize-IsProtobuf = record { sizes = serialize-sizes; small = byte_size-small }

abbrev nobody_waits : List Bool → List Bool
nobody_waits = λ q. q

nobody_waits-Appends : Appends nobody_waits
nobody_waits-Appends q = ([], sym (append-nil q))

abbrev space_memory : Memory
space_memory = λ a. 0

abbrev space : List Buffer
space = record { address = 0; size = 16 } ∷ []

space-Covers : Covers (open_stream space_memory space) 16 0
unfolding open_stream total_size locate
space-Covers k lt =
    rw (lt→leb_false 16 k lt)
      (ap (λ (a : ℕ). some a) (sym (mod-eq_of_lt {n = 0 + k} {m = 16} (omega arith))))

abbrev sender : Sender
sender = record { endianness = network; attached = true }

abbrev queue : List Bool
queue = true ∷ false ∷ true ∷ []

check_for_space-Sends_example :
    Sends byte_size serialize nobody_waits serialize-IsProtobuf nobody_waits-Appends network_endian
      16 0
      (open_stream space_memory space)
      queue
      0
      (check_for_space byte_size serialize nobody_waits sender space_memory space queue)
check_for_space-Sends_example =
    check_for_space-Sends byte_size serialize nobody_waits serialize-IsProtobuf nobody_waits-Appends
      network_endian 16 0 sender space_memory space queue refl refl space-Covers

abbrev idle_ring : RingBuffer
idle_ring = record { size = 16; free_space = 16; readp = 5; writep = 5; store = space_memory }

idle_ring-IsValid : IsValid idle_ring
idle_ring-IsValid = record {
  small = omega arith;
  read_in = omega arith;
  write_in = omega arith;
  free_in = omega arith;
  write_at = refl;
}

abbrev endpoint : Endpoint Bool Reader
endpoint = record {
  send_buffer = idle_ring;
  read_buffer = idle_ring;
  read_needed = 0;
  asio_sending = false;
  asio_reading = false;
  state = record { running = true; closed = false; at_eof = false; errored = false };
  handlers = record { on_error = true; on_eof = true; on_start = true; on_proto_error = true };
  txq = queue;
  waiting = 0;
  codec = reader_of network;
  log = [];
}

create_messages-Filled_example :
    (e' : Endpoint Bool Reader) × (create_messages
        (proto_writer byte_size serialize nobody_waits)
        proto_reader
        endpoint
      ≡ returned e')
    × Filled byte_size serialize nobody_waits serialize-IsProtobuf nobody_waits-Appends
        network_endian endpoint e'
create_messages-Filled_example =
    create_messages-Filled byte_size serialize nobody_waits serialize-IsProtobuf
      nobody_waits-Appends network_endian endpoint idle_ring-IsValid refl refl

abbrev refilled : Endpoint Bool Reader
refilled = create_messages-Filled_example.0

all_messages-AllShort :
    (bs : List Bool)
    → AllShort byte_size serialize nobody_waits serialize-IsProtobuf nobody_waits-Appends
        network_endian bs
unfolding AllShort
all_messages-AllShort [] = tt
all_messages-AllShort (b ∷ bs) = (byte_size-fits b, all_messages-AllShort bs)

refill-read_example :
    ReadsBack byte_size serialize nobody_waits serialize-IsProtobuf nobody_waits-Appends
      network_endian
      (reader_of network)
      (byte_at (held refilled.send_buffer))
      (all_of (held refilled.send_buffer))
      endpoint
      refilled
unfolding held window
refill-read_example =
    refill-read byte_size serialize nobody_waits serialize-IsProtobuf nobody_waits-Appends
      network_endian endpoint refilled (reader_of network) (byte_at (held refilled.send_buffer))
      (all_of (held refilled.send_buffer)) idle_ring-IsValid refl refl refl
      (λ filled. all_messages-AllShort filled.sent) refl create_messages-Filled_example.1
      (contents-byte_at (held refilled.send_buffer))
