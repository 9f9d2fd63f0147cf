-- ===== src/Conversations/ProtoPathMessageSender.antt =====
-- mt-core/conversations/src/cpp/ProtoPathMessageSender.cpp. A message of the queue stands under the Uri
-- that it goes to. `ByteSize` and `SerializeToOstream` of protobuf, of the leader and of messages, are
-- parameters, as is what the callbacks of waiting senders do to the queue when `ep->wake()` notifies
-- them.
pub mod Frames
use oef_mt_core.Base.{
  ℕ, zero, suc, ◌+◌, ◌%◌, ◌^◌, Bool, true, false, not, List, [], ◌∷◌, drop, if◌then◌else◌, is_empty,
}
use oef_mt_core.Base.Int.{pos, ltb_ℤ}
use oef_mt_core.Karma.BucketsOf.{Name}
use oef_mt_core.BasicComms.Memory.{Memory, Buffer}
use oef_mt_core.BasicComms.ConstCharArrayBuffer.{CharStream, open_stream}
use oef_mt_core.BasicComms.CharArrayBuffer.{remaining_space, write_u32, xsputn}
use oef_mt_core.Comms.ProtoMessageSender.{is_txq_full}
use oef_mt_core.Conversations.Transport.{TransportHeader}

-- The fields of a Uri that the sender reads.
pub record Uri : Type 0 where
  pub path : Name
  pub port : ℕ

pub data Outcome : Type 0 where
  consumed_needed : ℕ → ℕ → Outcome
  -- `substr(1)` of an empty path throws.
  out_of_range : Outcome
  -- the model's rounds ran out; it is not a behaviour of the code
  out_of_rounds : Outcome

pub record Space (Message : Type 0) : Type 0 where
  pub stream : CharStream
  pub txq : List (Uri × Message)
  pub outcome : Outcome

abbrev pub stop : {Message : Type 0} → CharStream → List (Uri × Message) → Outcome → Space Message
stop c q o = record { stream = c; txq = q; outcome = o }

-- The leader, whose unset fields have the defaults of proto3.
abbrev pub leader_of : Uri → TransportHeader
leader_of uri = record {
  uri = drop 1 uri.path;
  id = uri.port;
  success = true;
  error_code = pos 0;
  narrative = [];
}

module _ {Message : Type 0} (leader_bytes : TransportHeader → ℕ)
    (serialize_leader : TransportHeader → List ℕ) (byte_size : Message → ℕ)
    (serialize : Message → List ℕ) where
  abbrev pub mesg_size : Uri × Message → ℕ
  mesg_size (uri, msg) = (4 + leader_bytes (leader_of uri) + 4 + byte_size msg) % 2 ^ 32

  abbrev pub write_front : CharStream → Uri × Message → CharStream
  write_front c (uri, msg) =
      let sized = write_u32 (write_u32 c (leader_bytes (leader_of uri))) (byte_size msg) in
      xsputn (xsputn sized (serialize_leader (leader_of uri))) (serialize msg)

  -- The part of the pass behind the look at the queue; `again` is the next pass of the loop.
  unfoldable pub send_front :
      (CharStream → List (Uri × Message) → ℕ → Space Message)
      → CharStream
      → List (Uri × Message)
      → ℕ
      → Space Message
  send_front again c [] consumed = stop c [] (consumed_needed consumed 0)
  send_front again c (front ∷ rest) consumed =
      let sent = again (write_front c front) rest (consumed + mesg_size front) in
      if is_empty front.0.path
      then stop c (front ∷ rest) out_of_range
      else if ltb_ℤ (remaining_space c) (pos (mesg_size front))
      then stop c (front ∷ rest) (consumed_needed consumed 0)
      else sent

  module _ (wake : List (Uri × Message) → List (Uri × Message)) (attached : Bool) where
    -- Below its limit the queue is offered to the waiting senders first; above, it is not empty.
    unfoldable pub queue_of_pass : List (Uri × Message) → List (Uri × Message)
    queue_of_pass txq = if is_txq_full txq then txq else wake txq

    unfoldable pub rounds : ℕ → CharStream → List (Uri × Message) → ℕ → Space Message
    rounds zero c txq consumed = stop c txq out_of_rounds
    rounds (suc fuel) c txq consumed =
        let pass = send_front (rounds fuel) c (queue_of_pass txq) consumed in
        if not attached then stop c txq (consumed_needed consumed 0) else pass

    -- `checkForSpace`. A pass that goes on has written two lengths, so the space bounds the passes.
    unfoldable pub check_for_space : Memory → List Buffer → List (Uri × Message) → Space Message
    check_for_space m space_buffers txq =
        let c = open_stream m space_buffers in rounds (suc c.size) c txq 0
