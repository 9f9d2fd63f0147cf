-- ===== src/Conversations/Tests.antt =====
-- Concrete runs of the path reader and sender, with a message that is a truth value, an encoding of
-- two bytes for it and one of leaders by id, success and the first characters of the path.
use oef_mt_core.Base.{
  ℕ, ◌+◌, ◌%◌, ◌^◌, ◌<◌, ◌≤◌, zero, suc, take, refl, ap, sym, inl, Bool, true, false, List, [], ◌∷◌,
  ◌++◌, append-nil, Option, none, some, arith, length, lt→leb_false, ◌==◌, if◌then◌else◌,
}
use native.Mathlib.Nat.{mod-eq_of_lt}
use oef_mt_core.Base.Int.{pos}
use oef_mt_core.BasicComms.Memory.{Memory, Buffer, locate, total_size}
use oef_mt_core.BasicComms.Sample.{byte_at, all_of, contents-byte_at}
use oef_mt_core.BasicComms.ConstCharArrayBuffer.{open_stream}
use oef_mt_core.BasicComms.CharArrayBuffer.Laws.{Covers}
use oef_mt_core.BasicComms.CharArrayBuffer.{
  put_char_at, xsputn, remaining_space, oflow, write_bytes, write_u32,
}
use oef_mt_core.BasicComms.Window.{poke}
use oef_mt_core.Comms.ProtoMessageSender.Frames.{IsProtobuf, Appends}
use oef_mt_core.Conversations.Transport.{TransportHeader, path_frames}
use oef_mt_core.Conversations.ProtoPathMessageReader.{Handlers, check_for_message}
use oef_mt_core.Conversations.ProtoPathMessageReader.Frames.{
  Reads, expected, path_check_for_message-frames,
}
use oef_mt_core.Conversations.ProtoPathMessageSender.{
  Uri, leader_of, check_for_space, rounds, queue_of_pass, send_front,
}
use oef_mt_core.Conversations.ProtoPathMessageSender.Frames.{
  wire, Sends, path_check_for_space-Sends,
}

abbrev found : TransportHeader
found = record { uri = []; id = 7; success = true; error_code = pos 0; narrative = [] }

abbrev lost : TransportHeader
lost = record { uri = []; id = 8; success = false; error_code = pos 0; narrative = (110 ∷ []) ∷ [] }

abbrev success_byte : Bool → ℕ
success_byte true = 1
success_byte false = 0

abbrev serialize_leader : TransportHeader → List ℕ
serialize_leader leader = leader.id % 256 ∷ success_byte leader.success ∷ take 9 leader.uri

abbrev parse : List ℕ → Option TransportHeader
parse (a ∷ b ∷ path) =
    if a == 7 then some (record found { uri = path }) else if a == 8 then some lost else none
parse _ = none

abbrev messages : List (TransportHeader × List ℕ)
messages = (found, 8 ∷ 1 ∷ []) ∷ (lost, []) ∷ []

abbrev both_handlers : Handlers
both_handlers = record { on_complete = true; on_error = true }

abbrev started : List ℕ
started = 0 ∷ 0 ∷ 0 ∷ []

abbrev arrived_bytes : List ℕ
arrived_bytes = path_frames serialize_leader messages ++ started

path_check_for_message-frames_example :
    Reads
      (length (path_frames serialize_leader messages))
      5
      (expected both_handlers messages)
      (check_for_message parse both_handlers (byte_at arrived_bytes) (all_of arrived_bytes))
path_check_for_message-frames_example =
    path_check_for_message-frames serialize_leader parse both_handlers (byte_at arrived_bytes)
      (all_of arrived_bytes) messages started 5 (omega arith, (omega arith, tt)) (refl, (refl, tt))
      (inl (omega arith, refl)) (contents-byte_at arrived_bytes)

abbrev leader_bytes : TransportHeader → ℕ
leader_bytes leader = 2 + length (take 9 leader.uri)

take-short : (n : ℕ) (xs : List ℕ) → length (take n xs) ≤ n
take-short zero xs = omega arith
take-short (suc n) [] = omega arith
take-short (suc n) (x ∷ xs) = omega (arith, take-short n xs)

abbrev serialize : Bool → List ℕ
serialize b = 8 ∷ success_byte b ∷ []

abbrev byte_size : Bool → ℕ
byte_size b = 2

leaders : IsProtobuf leader_bytes serialize_leader
leaders = record { sizes = λ l. omega arith; small = λ l. omega (arith, take-short 9 l.uri) }

protobuf : IsProtobuf byte_size serialize
protobuf = record { sizes = λ b. refl; small = λ b. omega arith }

small : (uri : Uri) (msg : Bool) → leader_bytes (leader_of uri) + byte_size msg + 8 < 2 ^ 32
small uri msg = omega (arith, take-short 9 (leader_of uri).uri)

abbrev nobody_waits : List (Uri × Bool) → List (Uri × Bool)
nobody_waits = λ q. q

nobody_waits-Appends : Appends nobody_waits
nobody_waits-Appends q = ([], sym (append-nil q))

abbrev space_memory : Memory
space_memory = λ a. 0

abbrev space : List Buffer
space = record { address = 0; size = 16 } ∷ []

space-Covers : Covers (open_stream space_memory space) 16 0
unfolding open_stream total_size locate
space-Covers k lt =
    rw (lt→leb_false 16 k lt)
      (ap (λ (a : ℕ). some a) (sym (mod-eq_of_lt {n = 0 + k} {m = 16} (omega arith))))

-- The second message does not fit.
abbrev queue : List (Uri × Bool)
queue =
    (record { path = 47 ∷ 97 ∷ []; port = 7 }, true)
    ∷ (record { path = 47 ∷ []; port = 8 }, true)
    ∷ []

path_check_for_space-Sends_example :
    Sends leader_bytes serialize_leader byte_size serialize leaders protobuf small nobody_waits
      nobody_waits-Appends 16 0
      (open_stream space_memory space)
      queue
      0
      (check_for_space leader_bytes serialize_leader byte_size serialize nobody_waits true
        space_memory space queue)
path_check_for_space-Sends_example =
    path_check_for_space-Sends leader_bytes serialize_leader byte_size serialize leaders protobuf
      small nobody_waits nobody_waits-Appends 16 0 space_memory space queue space-Covers

abbrev first : List (Uri × Bool)
first = (record { path = 47 ∷ 97 ∷ []; port = 7 }, true) ∷ []

-- The run sends the first message of the queue.
sent_first :
    Sends leader_bytes serialize_leader byte_size serialize leaders protobuf small nobody_waits
      nobody_waits-Appends 16 0
      (open_stream space_memory space)
      queue
      0
      (check_for_space leader_bytes serialize_leader byte_size serialize nobody_waits true
        space_memory space queue)
unfolding check_for_space rounds queue_of_pass send_front open_stream total_size locate put_char_at
    xsputn remaining_space oflow write_bytes write_u32 poke
sent_first = record {
  sent = first;
  added = [];
  order = refl;
  written = refl;
  fits = omega arith;
  ends = inl (refl, omega arith);
}

abbrev first_bytes : List ℕ
first_bytes = wire leader_bytes serialize_leader byte_size serialize leaders protobuf small first
