-- ===== src/Comms/ProtoMessageSender.antt =====
-- mt-core/comms/src/cpp/ProtoMessageSender.cpp. A protobuf message is a parameter, with its
-- `ByteSize` and the bytes that `SerializeToOstream` writes; `wake` is what the callbacks of the
-- waiting senders do to the transmit queue when `ep->wake()` notifies them.
pub mod Frames
use oef_mt_core.Base.{
  ℕ, zero, suc, ◌+◌, ◌%◌, ◌^◌, Bool, true, false, not, List, [], ◌∷◌, ltb, leb, if◌then◌else◌,
  length,
}
use oef_mt_core.Base.Int.{pos, ltb_ℤ}
use oef_mt_core.BasicComms.Memory.{Memory, Buffer}
use oef_mt_core.BasicComms.ConstCharArrayBuffer.{CharStream, open_stream}
use oef_mt_core.BasicComms.CharArrayBuffer.{remaining_space, write_u32, write_little_endian, xsputn}
use oef_mt_core.Comms.Endianness.{Endianness, dunno, little, network, bad}

pub data SendError : Type 0 where
  endianness_dunno endianness_bad : SendError

pub record Sender : Type 0 where
  pub endianness : Endianness
  -- Whether the weak pointer to the endpoint can be locked.
  pub attached : Bool

pub data Outcome : Type 0 where
  consumed_needed : ℕ → ℕ → Outcome
  threw : SendError → Outcome
  -- The model's rounds ran out; it is not a behaviour of the code.
  out_of_rounds : Outcome

pub record Space (Message : Type 0) : Type 0 where
  pub stream : CharStream
  pub txq : List Message
  pub outcome : Outcome

abbrev pub head_size : ℕ
head_size = 4

-- `BUFFER_SIZE_LIMIT` of basic_comms/src/cpp/EndpointBase.hpp.
abbrev pub buffer_size_limit : ℕ
buffer_size_limit = 50

-- `EndpointBase::IsTXQFull`, of the queue that the endpoint passes in.
abbrev pub is_txq_full : {Message : Type 0} → List Message → Bool
is_txq_full txq = leb buffer_size_limit (length txq)

abbrev pub stop : {Message : Type 0} → CharStream → List Message → Outcome → Space Message
stop c q o = record { stream = c; txq = q; outcome = o }

-- The switch that writes the header.
pub data Written : Type 0 where
  wrote : CharStream → Written
  refused : SendError → Written

pub write_header : Endianness → CharStream → ℕ → Written
write_header dunno c n = refused endianness_dunno
write_header little c n = wrote (write_little_endian c n)
write_header network c n = wrote (write_u32 c n)
write_header bad c n = refused endianness_bad

module _ {Message : Type 0} (byte_size : Message → ℕ) (serialize : Message → List ℕ) where
  abbrev pub mesg_size : Message → ℕ
  mesg_size msg = (byte_size msg + head_size) % 2 ^ 32

  -- What follows the header; `again` is the next pass of the loop.
  with_header :
      (CharStream → List Message → ℕ → Space Message)
      → ℕ
      → Message
      → List Message
      → CharStream
      → Written
      → Space Message
  with_header again consumed msg rest c (refused e) = stop c (msg ∷ rest) (threw e)
  with_header again consumed msg rest c (wrote c') =
      again (xsputn c' (serialize msg)) rest (consumed + mesg_size msg)

  -- The part of the pass behind the look at the queue.
  pub send_front :
      (CharStream → List Message → ℕ → Space Message)
      → Sender
      → CharStream
      → List Message
      → ℕ
      → Space Message
  send_front again s c [] consumed = stop c [] (consumed_needed consumed 0)
  send_front again s c (msg ∷ rest) consumed =
      let sent =
        with_header again consumed msg rest c (write_header s.endianness c (byte_size msg)) in
      if ltb_ℤ (remaining_space c) (pos (mesg_size msg))
      then stop c (msg ∷ rest) (consumed_needed consumed 0)
      else sent

  module _ (wake : List Message → List Message) where
    -- The queue that the pass works on: below its limit the waiting senders are woken first. The
    -- front of an empty queue is read only if it is full, which an empty queue is not.
    pub queue_of_pass : List Message → List Message
    queue_of_pass txq = if is_txq_full txq then txq else wake txq

    pub rounds : ℕ → Sender → CharStream → List Message → ℕ → Space Message
    rounds zero s c txq consumed = stop c txq out_of_rounds
    rounds (suc fuel) s c txq consumed =
        let pass = send_front (rounds fuel s) s c (queue_of_pass txq) consumed in
        if not s.attached then stop c txq (consumed_needed consumed 0) else pass

    -- `checkForSpace`. A pass that goes on has written a header, so the space bounds the passes.
    pub check_for_space : Sender → Memory → List Buffer → List Message → Space Message
    check_for_space s m space_buffers txq =
        let c = open_stream m space_buffers in rounds (suc c.size) s c txq 0
