-- ===== src/Comms/RoundTrip.antt =====
-- Sender, ring and reader together: the endpoint's `create_messages` over ProtoMessageSender, and
-- ProtoMessageReader at the other end of the connection.
use oef_mt_core.Base.{
  ℕ, ◌+◌, ◌≤◌, ◌≡◌, refl, ap, sym, subst, ◌∙◌, inl, true, List, [], ◌∷◌, ◌++◌, map, append-nil,
  Option, none, some, arith, length,
}
use oef_mt_core.BasicComms.Memory.{Memory, Buffer, contents}
use oef_mt_core.BasicComms.RingBuffer.{RingBuffer, get_space_buffers, mark_space_used}
use oef_mt_core.BasicComms.RingBuffer.Bounds.{IsValid, mark_space_used-IsValid}
use oef_mt_core.BasicComms.RingBuffer.Queue.{held, get_space_buffers-layout, mark_space_used-held}
use oef_mt_core.BasicComms.Window.{poke}
use oef_mt_core.BasicComms.ConstCharArrayBuffer.{open_stream}
use oef_mt_core.BasicComms.CharArrayBuffer.Laws.{Covers}
use oef_mt_core.BasicComms.EndpointBase.{Endpoint, returned, create_messages, space_written}
use oef_mt_core.Comms.Endianness.{ByteOrder, settled}
use oef_mt_core.Comms.ProtoMessageReader.{Reader, Check, check_for_message}
use oef_mt_core.Comms.ProtoMessageReader
use oef_mt_core.Comms.ProtoMessageReader.Frames.{AllFit, Reads, check_for_message-frames}
use oef_mt_core.Comms.ProtoMessageSender.{Sender, Space, check_for_space}
use oef_mt_core.Comms.ProtoMessageSender
use oef_mt_core.Comms.ProtoMessageSender.Frames.{
  IsProtobuf, Appends, on_wire, Sends, check_for_space-Sends,
}

-- `setup` of ProtoMessageEndpoint.cpp gives reader and sender the same endpoint, and
-- `setEndianness` keeps them together: the state of the reader tells that of the sender.
pub sender_of : Reader → Sender
sender_of r = record { endianness = r.sender_endianness; attached = r.attached }

-- The answer of the sender, in the form of the endpoint's interface.
abbrev sent_size : ProtoMessageSender.Outcome → Option ℕ
sent_size (ProtoMessageSender.Outcome.consumed_needed k n) = some k
sent_size _ = none

abbrev read_answer : ProtoMessageReader.Outcome → Option (ℕ × ℕ)
read_answer (ProtoMessageReader.Outcome.consumed_needed k n) = some (k, n)
read_answer _ = none

pub proto_reader : Reader → Memory → List Buffer → Reader × Option (ℕ × ℕ)
proto_reader r m bs = let k = check_for_message r m bs in (k.reader, read_answer k.outcome)

module _ {Message : Type 0} (byte_size : Message → ℕ) (serialize : Message → List ℕ)
    (wake : List Message → List Message) where
  pub proto_writer : Reader → Memory → List Buffer → List Message → Memory × List Message × Option ℕ
  proto_writer c m bs txq =
      let k = check_for_space byte_size serialize wake (sender_of c) m bs txq in
      (k.stream.memory, k.txq, sent_size k.outcome)

  module _ (protobuf : IsProtobuf byte_size serialize) (appends : Appends wake)
      (o : ByteOrder) where
    -- What a refill of the send buffer did.
    pub record Filled (e e' : Endpoint Message Reader) : Type 0 where
      pub sent : List Message
      pub added : List Message
      pub order : sent ++ e'.txq ≡ e.txq ++ added
      pub bytes : held e'.send_buffer ≡ held e.send_buffer ++ on_wire serialize o sent
      pub valid : IsValid e'.send_buffer

    ring-Covers :
        (r : RingBuffer)
        → IsValid r
        → Covers (open_stream r.store (get_space_buffers r)) r.size r.writep
    unfolding open_stream
    ring-Covers r v k lt =
        (get_space_buffers-layout r v).1 k (omega (arith, (get_space_buffers-layout r v).0))

    same_store : (b : RingBuffer) (m : Memory) → IsValid b → IsValid (record b { store = m })
    same_store b m v = record {
      small = v.small;
      read_in = v.read_in;
      write_in = v.write_in;
      free_in = v.free_in;
      write_at = v.write_at;
    }

    abbrev filled_with :
        Endpoint Message Reader → Memory → List Message → ℕ → Endpoint Message Reader
    filled_with e m q n = record e {
      send_buffer = (mark_space_used (record (e.send_buffer) { store = m }) n).0;
      txq = q;
    }

    fill :
        (e : Endpoint Message Reader)
        → IsValid e.send_buffer
        → Sends byte_size serialize wake protobuf appends o e.send_buffer.size e.send_buffer.writep
            (open_stream e.send_buffer.store (get_space_buffers e.send_buffer))
            e.txq
            0
            (check_for_space byte_size serialize wake
              (sender_of e.codec)
              e.send_buffer.store
              (get_space_buffers e.send_buffer)
              e.txq)
        → (e' : Endpoint Message Reader) × (create_messages proto_writer proto_reader e
            ≡ returned e')
          × Filled e e'
    unfolding create_messages space_written proto_writer open_stream
    fill e v s =
        let b = e.send_buffer in
        let k =
          check_for_space byte_size serialize wake (sender_of e.codec) b.store (get_space_buffers b)
            e.txq in
        let wire = on_wire serialize o s.sent in
        let room : length wire ≤ b.free_space =
          omega (arith, s.fits, (get_space_buffers-layout b v).0) in
        let put : k.stream.memory ≡ poke b.store b.size b.writep wire =
          ap (λ c. c.memory) s.written ∙ ap (λ (a : ℕ). poke b.store b.size a wire) (omega arith) in
        (
          filled_with e k.stream.memory k.txq (0 + length wire),
          ap
              (λ out.
                space_written proto_writer proto_reader e k.stream.memory k.txq (sent_size out))
              s.answer,
          record {
            sent = s.sent;
            added = s.added;
            order = s.order;
            bytes =
                ap (λ m. held (mark_space_used (record b { store = m }) (0 + length wire)).0) put
                ∙ ap
                    (λ (n : ℕ).
                      held
                        (mark_space_used (record b { store = poke b.store b.size b.writep wire })
                          n).0)
                    (omega arith)
                ∙ mark_space_used-held b wire v room;
            valid =
                (mark_space_used-IsValid (record b { store = k.stream.memory }) (0 + length wire)
                  (same_store b k.stream.memory v) (omega (arith, room))).0;
          },
        )

    -- With a valid send buffer, a settled byte order and an endpoint that is there, refilling the send
    -- buffer does not throw. It moves a prefix of the queue, in order, behind the bytes that the
    -- buffer held, as frames and nothing else, and leaves the buffer valid.
    pub create_messages-Filled :
        (e : Endpoint Message Reader)
        → IsValid e.send_buffer
        → e.codec.sender_endianness ≡ settled o
        → e.codec.attached ≡ true
        → (e' : Endpoint Message Reader) × (create_messages proto_writer proto_reader e
            ≡ returned e')
          × Filled e e'
    unfolding sender_of
    create_messages-Filled e v settles on = fill e v (
        check_for_space-Sends byte_size serialize wake protobuf appends o e.send_buffer.size
          e.send_buffer.writep (sender_of e.codec) e.send_buffer.store
          (get_space_buffers e.send_buffer) e.txq settles on (ring-Covers e.send_buffer v))

    -- What a reader at the other end makes of the bytes of a refill.
    abbrev pub ReadsBack : Reader → Memory → List Buffer → (e e' : Endpoint Message Reader) → Type 0
    ReadsBack peer m data_buffers e e' =
        (filled : Filled e e') × Reads peer (length (on_wire serialize o filled.sent)) 4
          (map serialize filled.sent) (check_for_message peer m data_buffers)

    -- The reader refuses a message of more than 10000 bytes; the sender has no such limit.
    unfoldable pub AllShort : List Message → Type 0
    AllShort [] = Unit
    AllShort (msg ∷ more) = (byte_size msg ≤ 10000) × AllShort more

    all_fit : (sent : List Message) → AllShort sent → AllFit (map serialize sent)
    unfolding AllShort
    all_fit [] short = tt
    all_fit (msg ∷ more) (first, later) =
        (omega (arith, protobuf.sizes msg, first), all_fit more later)

    -- A whole trip: what a refill puts into an empty send buffer, if none of the messages that it puts
    -- there has more than 10000 bytes, is read back once it has arrived in any buffers at a reader of
    -- the same byte order, as exactly the messages that were sent, in order (handed over if the reader
    -- has a handler); all of it is consumed and the reader asks for the next header. The send buffer
    -- is valid, the byte order settled and the endpoint there.
    pub refill-read :
        (e e' : Endpoint Message Reader) (peer : Reader) (m : Memory) (data_buffers : List Buffer)
        → IsValid e.send_buffer
        → e.codec.sender_endianness ≡ settled o
        → e.codec.attached ≡ true
        → held e.send_buffer ≡ []
        → ((filled : Filled e e') → AllShort filled.sent)
        → peer.endianness ≡ settled o
        → create_messages proto_writer proto_reader e ≡ returned e'
        → contents m data_buffers ≡ held e'.send_buffer
        → ReadsBack peer m data_buffers e e'
    refill-read e e' peer m data_buffers v settles on was_empty short agree done arrived =
        subst
          (λ x.
            ((filled : Filled e x) → AllShort filled.sent)
            → contents m data_buffers ≡ held x.send_buffer
            → ReadsBack peer m data_buffers e x)
          same back short arrived
      where
        refill :
            (x : Endpoint Message Reader) × (create_messages proto_writer proto_reader e
              ≡ returned x)
            × Filled e x
        refill = create_messages-Filled e v settles on

        same : refill.0 ≡ e'
        same = cc (refill.1)

        sent : List Message
        sent = refill.2.sent

        back :
            ((filled : Filled e refill.0) → AllShort filled.sent)
            → contents m data_buffers ≡ held (refill.0).send_buffer
            → ReadsBack peer m data_buffers e refill.0
        back few there = (
          refill.2,
          check_for_message-frames o peer m data_buffers (map serialize sent) [] 4 agree
              (all_fit sent (few refill.2)) (inl (omega arith, refl))
              (there
                ∙ refill.2.bytes
                ∙ ap (λ l. l ++ on_wire serialize o sent) was_empty
                ∙ sym (append-nil (on_wire serialize o sent))),
        )
