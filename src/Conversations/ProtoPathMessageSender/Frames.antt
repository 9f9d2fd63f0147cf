-- ===== src/Conversations/ProtoPathMessageSender/Frames.antt =====
-- What the sender of mt-core/conversations/src/cpp/ProtoPathMessageSender.cpp writes, and what the
-- reader at the other end makes of it.
use oef_mt_core.Base.{
  ℕ, zero, suc, ◌+◌, ◌-◌, ◌≤◌, ◌<◌, ◌^◌, ◌≡◌, refl, ap, sym, subst, ◌∙◌, ◌⊎◌, inl, inr, true, false,
  List, [], ◌∷◌, ◌++◌, append_assoc, append-nil, arith, length, length-append, Bool-cases, is_empty,
  lt_or_le, lt→ltb, le→ltb_false,
}
use oef_mt_core.Karma.BucketsOf.{Name}
use oef_mt_core.BasicComms.Memory.{Memory, Buffer, total_size}
use oef_mt_core.BasicComms.Window.{poke}
use oef_mt_core.BasicComms.ConstCharArrayBuffer.{CharStream, open_stream}
use oef_mt_core.BasicComms.CharArrayBuffer.{xsputn, write_u32}
use oef_mt_core.BasicComms.CharArrayBuffer.Laws.{
  Covers, after, after-append, write_bytes-Covers, xsputn-Covers, remaining_space_lem,
}
use oef_mt_core.Comms.Endianness.{network_endian, header}
use oef_mt_core.Comms.ProtoMessageSender.{is_txq_full}
use oef_mt_core.Comms.ProtoMessageSender.Frames.{IsProtobuf, Appends}
use oef_mt_core.Conversations.Transport.{TransportHeader, path_frame}
use oef_mt_core.Conversations.ProtoPathMessageSender.{
  Uri, Space, consumed_needed, out_of_range, leader_of, mesg_size, write_front, send_front,
  queue_of_pass, rounds, check_for_space,
}

path_cases : (path : Name) → (path ≡ []) ⊎ (is_empty path ≡ false)
path_cases [] = inl refl
path_cases (x ∷ xs) = inr refl

write_u32-Covers :
    (s h : ℕ) (c : CharStream) (n : ℕ)
    → Covers c s h
    → c.current + 4 ≤ c.size
    → write_u32 c n ≡ after c s h (header network_endian n)
unfolding write_u32
write_u32-Covers s h c n cover fits = write_bytes-Covers s h c (header network_endian n) cover fits

module _ {Message : Type 0} (leader_bytes : TransportHeader → ℕ)
    (serialize_leader : TransportHeader → List ℕ) (byte_size : Message → ℕ)
    (serialize : Message → List ℕ) (leaders : IsProtobuf leader_bytes serialize_leader)
    (protobuf : IsProtobuf byte_size serialize)
    (small : (uri : Uri) (msg : Message)
      → leader_bytes (leader_of uri) + byte_size msg + 8 < 2 ^ 32) where
  -- A message as it goes over the connection, and its length.
  abbrev pub wire_of : Uri × Message → List ℕ
  wire_of (uri, msg) = path_frame (serialize_leader (leader_of uri)) (serialize msg)

  abbrev pub wire : List (Uri × Message) → List ℕ
  wire [] = []
  wire (front ∷ rest) = wire_of front ++ wire rest

  abbrev pub size_of : Uri × Message → ℕ
  size_of (uri, msg) = leader_bytes (leader_of uri) + byte_size msg + 8

  length-wire_of : (front : Uri × Message) → length (wire_of front) ≡ size_of front
  length-wire_of (uri, msg) = omega (
    arith,
    length-append (serialize_leader (leader_of uri)) (serialize msg),
    leaders.sizes (leader_of uri),
    protobuf.sizes msg,
  )

  mesg_size_lem :
      (front : Uri × Message)
      → mesg_size leader_bytes serialize_leader byte_size serialize front ≡ size_of front
  mesg_size_lem (uri, msg) = omega (arith, small uri msg)

  -- Four writes, one after the other, write the frame.
  write_front-Covers :
      (s h : ℕ) (c : CharStream) (front : Uri × Message)
      → Covers c s h
      → c.current + size_of front ≤ c.size
      → write_front leader_bytes serialize_leader byte_size serialize c front
        ≡ after c s h (wire_of front)
  write_front-Covers s h c (uri, msg) cover fits =
      let l = serialize_leader (leader_of uri) in
      let p = serialize msg in
      let n = leader_bytes (leader_of uri) in
      let k = byte_size msg in
      let first = after c s h (header network_endian n) in
      let second = after first s h (header network_endian k) in
      let third = after second s h l in
      let same_l : length l ≡ n = leaders.sizes (leader_of uri) in
      let same_p : length p ≡ k = protobuf.sizes msg in
      ap (λ x. xsputn (xsputn (write_u32 x k) l) p) (write_u32-Covers s h c n cover (omega arith))
      ∙ ap (λ x. xsputn (xsputn x l) p) (write_u32-Covers s h first k cover (omega arith))
      ∙ ap (λ x. xsputn x p) (xsputn-Covers s h second l cover (omega arith))
      ∙ xsputn-Covers s h third p cover (omega arith)
      ∙ after-append second s h l p
      ∙ after-append first s h (header network_endian k) (l ++ p)
      ∙ after-append c s h (header network_endian n) (header network_endian k ++ (l ++ p))
      ∙ ap
          (λ (i : ℕ).
            after c s h (header network_endian i ++ (header network_endian k ++ (l ++ p))))
          (sym same_l)
      ∙ ap
          (λ (i : ℕ).
            after c s h (header network_endian (length l) ++ (header network_endian i ++ (l ++ p))))
          (sym same_p)

  -- The queue is empty, or its first message does not fit into what is left of the space.
  abbrev pub NoRoom : CharStream → List (Uri × Message) → Type 0
  NoRoom c [] = Unit
  NoRoom c (front ∷ rest) = c.size - c.current < size_of front

  abbrev pub HasEmptyPath : List (Uri × Message) → Type 0
  HasEmptyPath [] = ⊥
  HasEmptyPath (front ∷ rest) = front.0.path ≡ []

  -- How the loop ends, `total` bytes having been written.
  abbrev pub Ends : ℕ → Space Message → Type 0
  Ends total k =
      ((k.outcome ≡ consumed_needed total 0) × NoRoom k.stream k.txq)
      ⊎ ((k.outcome ≡ out_of_range) × HasEmptyPath k.txq)

  module _ (wake : List (Uri × Message) → List (Uri × Message)) (appends : Appends wake)
      (s h : ℕ) where
    pub record Sends (c : CharStream) (txq : List (Uri × Message)) (consumed : ℕ)
        (k : Space Message) : Type 0 where
      pub sent : List (Uri × Message)
      pub added : List (Uri × Message)
      pub order : sent ++ k.txq ≡ txq ++ added
      pub written : k.stream ≡ after c s h (wire sent)
      pub fits : c.current + length (wire sent) ≤ c.size
      pub ends : Ends (consumed + length (wire sent)) k

    queue_of_pass-appends :
        (txq : List (Uri × Message))
        → (added : List (Uri × Message)) × (queue_of_pass leader_bytes serialize_leader byte_size
              serialize wake true txq
            ≡ txq ++ added)
    unfolding queue_of_pass
    queue_of_pass-appends txq = elim (Bool-cases (is_txq_full txq)) [
      | inl full ↦ ([], rw full (sym (append-nil txq)))
      | inr below ↦ ((appends txq).0, rw below (appends txq).1)
    ]

    Sends-nothing :
        (c : CharStream) (txq q added : List (Uri × Message)) (consumed : ℕ) (k : Space Message)
        → q ≡ txq ++ added
        → c.current ≤ c.size
        → k.stream ≡ c
        → k.txq ≡ q
        → Ends consumed k
        → Sends c txq consumed k
    unfolding poke
    Sends-nothing c txq q added consumed k e within same_stream same_queue ends = record {
      sent = [];
      added = added;
      order = same_queue ∙ e;
      written = same_stream ∙ ap (λ (i : ℕ). record c { current = i }) (omega arith);
      fits = omega arith;
      ends = subst (λ i. Ends i k) (omega arith) ends;
    }

    -- One message put in front of what the later passes send.
    Sends-cons :
        (c : CharStream) (front : Uri × Message) (txq rest added : List (Uri × Message))
        (consumed : ℕ) (k : Space Message)
        → front ∷ rest ≡ txq ++ added
        → Sends
            (after c s h (wire_of front))
            rest
            (consumed + mesg_size leader_bytes serialize_leader byte_size serialize front)
            k
        → Sends c txq consumed k
    Sends-cons c front txq rest added consumed k e later =
        let sum = length-append (wire_of front) (wire later.sent) in
        record {
          sent = front ∷ later.sent;
          added = added ++ later.added;
          order =
              ap (◌∷◌ front) later.order
              ∙ ap (λ l. l ++ later.added) e
              ∙ append_assoc txq added later.added;
          written = later.written ∙ after-append c s h (wire_of front) (wire later.sent);
          fits = omega (arith, sum, later.fits);
          ends =
              subst (λ i. Ends i k) (omega (arith, sum, length-wire_of front, mesg_size_lem front))
                later.ends;
        }

    -- A pass sends the front of the queue and goes on, or ends the loop.
    send_front-Sends :
        (again : CharStream → List (Uri × Message) → ℕ → Space Message) (c : CharStream)
        (txq q added : List (Uri × Message)) (consumed : ℕ)
        → Covers c s h
        → c.current ≤ c.size
        → q ≡ txq ++ added
        → ((c' : CharStream) (rest : List (Uri × Message)) (j : ℕ)
            → Covers c' s h
            → (c'.size ≡ c.size) × (c'.current ≤ c'.size) × (c.current < c'.current)
            → Sends c' rest j (again c' rest j))
        → Sends c txq consumed
            (send_front leader_bytes serialize_leader byte_size serialize again c q consumed)
    unfolding send_front
    send_front-Sends again c txq [] added consumed cover within e next =
        Sends-nothing c txq [] added consumed _ e within refl refl (inl (refl, tt))
    send_front-Sends again c txq (front ∷ rest) added consumed cover within e next =
        let n = mesg_size leader_bytes serialize_leader byte_size serialize front in
        elim (path_cases front.0.path) [
          | inl bare ↦ rw (ap is_empty bare) (
              Sends-nothing c txq (front ∷ rest) added consumed _ e within refl refl
                (inr (refl, bare)))
          | inr named ↦ elim (lt_or_le (c.size - c.current) (size_of front)) [
            | inl full ↦
                rw
                  (
                    named,
                    remaining_space_lem c within,
                    lt→ltb (c.size - c.current + 0) (n + 0) (omega (arith, mesg_size_lem front)),
                  )
                  (Sends-nothing c txq (front ∷ rest) added consumed _ e within refl refl
                    (inl (refl, full)))
            | inr room ↦
                let behind = after c s h (wire_of front) in
                rw
                  (
                    named,
                    remaining_space_lem c within,
                    le→ltb_false (c.size - c.current + 0) (n + 0)
                        (omega (arith, mesg_size_lem front)),
                    write_front-Covers s h c front cover (omega arith),
                  )
                  (Sends-cons c front txq rest added consumed (again behind rest (consumed + n)) e
                    (next behind rest (consumed + n) cover (omega (arith, length-wire_of front))))
          ]
        ]

    rounds-Sends :
        (fuel : ℕ) (c : CharStream) (txq : List (Uri × Message)) (consumed : ℕ)
        → Covers c s h
        → c.current ≤ c.size
        → c.size - c.current < fuel
        → Sends c txq consumed
            (rounds leader_bytes serialize_leader byte_size serialize wake true fuel c txq consumed)
    unfolding rounds
    rounds-Sends zero c txq consumed cover within enough = absurd (omega arith)
    rounds-Sends (suc fuel) c txq consumed cover within enough =
        let next = queue_of_pass-appends txq in
        send_front-Sends (rounds leader_bytes serialize_leader byte_size serialize wake true fuel) c
          txq _ next.0 consumed cover within next.1
          (λ c' rest j cover' far. rounds-Sends fuel c' rest j cover' (omega arith) (omega arith))

    -- On buffers that cover the block from position `h` on, for an endpoint that is there: the messages
    -- sent are a prefix, in order, of the queue and what the waiting senders appended, and the rest is
    -- left; their frames, each with the leader made of its Uri, stand in the space one after the other
    -- from its start, within it, and nothing else was written. Either the total length of the frames is
    -- reported as consumed and the queue ran empty or its first message did not fit any more, or
    -- `checkForSpace` throws at a first message whose path is empty. Leader, payload and the two lengths
    -- of a message together fit 32 bits.
    pub path_check_for_space-Sends :
        (m : Memory) (space_buffers : List Buffer) (txq : List (Uri × Message))
        → Covers (open_stream m space_buffers) s h
        → Sends (open_stream m space_buffers) txq 0 (
            check_for_space leader_bytes serialize_leader byte_size serialize wake true m
              space_buffers txq)
    unfolding check_for_space open_stream
    path_check_for_space-Sends m space_buffers txq cover =
        rounds-Sends (suc (total_size space_buffers)) (open_stream m space_buffers) txq 0 cover
          (omega arith) (omega arith)
