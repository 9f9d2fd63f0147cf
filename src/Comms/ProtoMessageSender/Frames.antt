-- ===== src/Comms/ProtoMessageSender/Frames.antt =====
-- What the sender writes, for messages of which `ByteSize` tells the truth and waiting senders that
-- only push to the back of the queue.
use oef_mt_core.Base.{
  ℕ, zero, suc, ◌+◌, ◌-◌, ◌≤◌, ◌<◌, ◌^◌, ◌≡◌, refl, ap, sym, ◌∙◌, inl, inr, true, List, [], ◌∷◌,
  ◌++◌, map, append_assoc, append-nil, arith, length, length-append, Bool-cases, lt_or_le, lt→ltb,
  le→ltb_false,
}
use oef_mt_core.BasicComms.Memory.{Memory, Buffer, total_size}
use oef_mt_core.BasicComms.Window.{poke}
use oef_mt_core.BasicComms.ConstCharArrayBuffer.{CharStream, open_stream}
use oef_mt_core.BasicComms.CharArrayBuffer.{xsputn, write_u32, write_little_endian}
use oef_mt_core.BasicComms.CharArrayBuffer.Laws.{
  Covers, after, after-append, write_bytes-Covers, xsputn-Covers, remaining_space_lem,
}
use oef_mt_core.Comms.Endianness.{
  ByteOrder, little_endian, network_endian, settled, header, frame, frames,
}
use oef_mt_core.Comms.ProtoMessageSender.{
  Sender, Space, consumed_needed, stop, wrote, write_header, mesg_size, with_header, send_front,
  is_txq_full, queue_of_pass, rounds, check_for_space,
}

-- What the code relies on in the protobuf library.
pub record IsProtobuf {Message : Type 0} (byte_size : Message → ℕ) (serialize : Message → List ℕ)
    : Type 0 where
  pub sizes : (msg : Message) → length (serialize msg) ≡ byte_size msg
  pub small : (msg : Message) → byte_size msg < 2 ^ 31

abbrev pub Appends : {Message : Type 0} → (List Message → List Message) → Type 0
Appends {Message} wake = (q : List Message) → (added : List Message) × (wake q ≡ q ++ added)

-- The queue is empty, or its first message does not fit into what is left of the space.
abbrev pub NoRoom : {Message : Type 0} → (Message → ℕ) → CharStream → List Message → Type 0
NoRoom byte_size c [] = Unit
NoRoom byte_size c (msg ∷ rest) = c.size - c.current < byte_size msg + 4

-- Messages as they go over the connection.
abbrev pub on_wire : {Message : Type 0} → (Message → List ℕ) → ByteOrder → List Message → List ℕ
on_wire serialize o sent = frames o (map serialize sent)

-- The header of a message that fits, in the order of the connection.
write_header-Covers :
    (o : ByteOrder) (s h : ℕ) (c : CharStream) (n : ℕ)
    → Covers c s h
    → c.current + 4 ≤ c.size
    → write_header (settled o) c n ≡ wrote (after c s h (header o n))
unfolding write_header write_u32 write_little_endian
write_header-Covers little_endian s h c n cover fits =
    ap wrote (write_bytes-Covers s h c (header little_endian n) cover fits)
write_header-Covers network_endian s h c n cover fits =
    ap wrote (write_bytes-Covers s h c (header network_endian n) cover fits)

length-header : (o : ByteOrder) (n : ℕ) → length (header o n) ≡ 4
length-header little_endian n = refl
length-header network_endian n = refl

length-frame : (o : ByteOrder) (payload : List ℕ) → length (frame o payload) ≡ 4 + length payload
length-frame o payload =
    omega
      (arith, length-append (header o (length payload)) payload, length-header o (length payload))

module _ {Message : Type 0} (byte_size : Message → ℕ) (serialize : Message → List ℕ)
    (wake : List Message → List Message) (protobuf : IsProtobuf byte_size serialize)
    (appends : Appends wake) (o : ByteOrder) (s h : ℕ) where
  pub record Sends (c : CharStream) (txq : List Message) (consumed : ℕ) (k : Space Message)
      : Type 0 where
    pub sent : List Message
    pub added : List Message
    pub order : sent ++ k.txq ≡ txq ++ added
    pub written : k.stream ≡ after c s h (on_wire serialize o sent)
    pub fits : c.current + length (on_wire serialize o sent) ≤ c.size
    pub answer : k.outcome ≡ consumed_needed (consumed + length (on_wire serialize o sent)) 0
    pub no_room : NoRoom byte_size k.stream k.txq

  queue_of_pass-appends :
      (txq : List Message)
      → (added : List Message) × (queue_of_pass byte_size serialize wake txq ≡ txq ++ added)
  unfolding queue_of_pass
  queue_of_pass-appends txq = elim (Bool-cases (is_txq_full txq)) [
    | inl full ↦ ([], rw full (sym (append-nil txq)))
    | inr below ↦ ((appends txq).0, rw below (appends txq).1)
  ]

  mesg_size_lem : (msg : Message) → mesg_size byte_size serialize msg ≡ byte_size msg + 4
  mesg_size_lem msg = omega (arith, protobuf.small msg)

  frame-Covers :
      (sender : Sender) (c : CharStream) (msg : Message)
      → sender.endianness ≡ settled o
      → Covers c s h
      → c.current + (byte_size msg + 4) ≤ c.size
      → (c' : CharStream) × (write_header sender.endianness c (byte_size msg) ≡ wrote c')
        × (xsputn c' (serialize msg) ≡ after c s h (frame o (serialize msg)))
  frame-Covers sender c msg settles cover room =
      let n = byte_size msg in
      let same : length (serialize msg) ≡ n = protobuf.sizes msg in
      let four : length (header o n) ≡ 4 = length-header o n in
      let behind = after c s h (header o n) in
      (
        behind,
        ap (λ e. write_header e c n) settles ∙ write_header-Covers o s h c n cover (omega arith),
        xsputn-Covers s h behind (serialize msg) cover (omega arith)
            ∙ after-append c s h (header o n) (serialize msg)
            ∙ ap (λ (k : ℕ). after c s h (header o k ++ serialize msg)) (sym same),
      )

  Sends-nothing :
      (c : CharStream) (txq q added : List Message) (consumed : ℕ)
      → q ≡ txq ++ added
      → c.current ≤ c.size
      → NoRoom byte_size c q
      → Sends c txq consumed (stop c q (consumed_needed consumed 0))
  unfolding poke
  Sends-nothing c txq q added consumed e within full = record {
    sent = [];
    added = added;
    order = e;
    written = ap (λ (k : ℕ). record c { current = k }) (omega arith);
    fits = omega arith;
    answer = ap (λ (k : ℕ). consumed_needed k 0) (omega arith);
    no_room = full;
  }

  -- One message put in front of what the later passes send.
  Sends-cons :
      (c : CharStream) (msg : Message) (txq rest added : List Message) (consumed : ℕ)
      (k : Space Message)
      → msg ∷ rest ≡ txq ++ added
      → Sends
          (after c s h (frame o (serialize msg)))
          rest
          (consumed + mesg_size byte_size serialize msg)
          k
      → Sends c txq consumed k
  Sends-cons c msg txq rest added consumed k e later = record {
    sent = msg ∷ later.sent;
    added = added ++ later.added;
    order =
        ap (◌∷◌ msg) later.order
        ∙ ap (λ l. l ++ later.added) e
        ∙ append_assoc txq added later.added;
    written =
        later.written
        ∙ after-append c s h (frame o (serialize msg)) (on_wire serialize o later.sent);
    fits = omega (arith, sum, later.fits);
    answer =
        later.answer
        ∙ ap (λ (j : ℕ). consumed_needed j 0)
            (omega
              (arith, sum, length-frame o (serialize msg), protobuf.sizes msg, mesg_size_lem msg));
    no_room = later.no_room;
  }
    where
      sum :
          length (frame o (serialize msg) ++ on_wire serialize o later.sent)
          ≡ length (frame o (serialize msg)) + length (on_wire serialize o later.sent)
      sum = length-append (frame o (serialize msg)) (on_wire serialize o later.sent)

  -- A pass sends the front of the queue and goes on, or ends the loop.
  send_front-Sends :
      (again : CharStream → List Message → ℕ → Space Message) (sender : Sender) (c : CharStream)
      (txq q added : List Message) (consumed : ℕ)
      → sender.endianness ≡ settled o
      → Covers c s h
      → c.current ≤ c.size
      → q ≡ txq ++ added
      → ((c' : CharStream) (rest : List Message) (j : ℕ)
          → Covers c' s h
          → (c'.size ≡ c.size) × (c'.current ≤ c'.size) × (c.current < c'.current)
          → Sends c' rest j (again c' rest j))
      → Sends c txq consumed (send_front byte_size serialize again sender c q consumed)
  unfolding send_front with_header
  send_front-Sends again sender c txq [] added consumed settles cover within e next =
      Sends-nothing c txq [] added consumed e within tt
  send_front-Sends again sender c txq (msg ∷ rest) added consumed settles cover within e next =
      elim (lt_or_le (c.size - c.current) (byte_size msg + 4)) [
        | inl full ↦
            rw
              (
                remaining_space_lem c within,
                mesg_size_lem msg,
                lt→ltb (c.size - c.current + 0) (byte_size msg + 4 + 0) (omega arith),
              )
              (Sends-nothing c txq (msg ∷ rest) added consumed e within full)
        | inr room ↦
            let (c', header_put, body_put) =
              frame-Covers sender c msg settles cover (omega arith) in
            let behind = after c s h (frame o (serialize msg)) in
            rw
              (
                remaining_space_lem c within,
                mesg_size_lem msg,
                le→ltb_false (c.size - c.current + 0) (byte_size msg + 4 + 0) (omega arith),
                header_put,
                body_put,
              )
              (Sends-cons c msg txq rest added consumed
                (again behind rest (consumed + mesg_size byte_size serialize msg)) e
                (next behind rest (consumed + mesg_size byte_size serialize msg) cover
                  (omega (arith, length-frame o (serialize msg), protobuf.sizes msg))))
      ]

  rounds-Sends :
      (fuel : ℕ) (sender : Sender) (c : CharStream) (txq : List Message) (consumed : ℕ)
      → sender.endianness ≡ settled o
      → sender.attached ≡ true
      → Covers c s h
      → c.current ≤ c.size
      → c.size - c.current < fuel
      → Sends c txq consumed (rounds byte_size serialize wake fuel sender c txq consumed)
  unfolding rounds
  rounds-Sends zero sender c txq consumed settles on cover within enough = absurd (omega arith)
  rounds-Sends (suc fuel) sender c txq consumed settles on cover within enough =
      let next = queue_of_pass-appends txq in
      simp on (
        send_front-Sends (rounds byte_size serialize wake fuel sender) sender c txq _ next.0
          consumed settles cover within next.1
          (λ c' rest j cover' far.
            rounds-Sends fuel sender c' rest j settles on cover' (omega arith) (omega arith)))

  -- On buffers that cover the block from position `h` on, for a settled byte order and an endpoint
  -- that is there: the messages sent are a prefix, in order, of the queue and what the waiting
  -- senders appended, and the rest is left; the frames of exactly these messages stand in the space,
  -- one after the other from its start, within it, and nothing else was written; their total length
  -- is reported as consumed; and the loop stopped only since the queue ran empty or its first message
  -- did not fit any more.
  pub check_for_space-Sends :
      (sender : Sender) (m : Memory) (space_buffers : List Buffer) (txq : List Message)
      → sender.endianness ≡ settled o
      → sender.attached ≡ true
      → Covers (open_stream m space_buffers) s h
      → Sends
          (open_stream m space_buffers)
          txq
          0
          (check_for_space byte_size serialize wake sender m space_buffers txq)
  unfolding check_for_space open_stream
  check_for_space-Sends sender m space_buffers txq settles on cover =
      rounds-Sends (suc (total_size space_buffers)) sender (open_stream m space_buffers) txq 0
        settles on cover (omega arith) (omega arith)
