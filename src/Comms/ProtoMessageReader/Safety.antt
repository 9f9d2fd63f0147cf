-- ===== src/Comms/ProtoMessageReader/Safety.antt =====
-- What holds of the reader on any data, in any state.
use oef_mt_core.Base.{
  ℕ, zero, suc, ◌+◌, ◌-◌, ◌≤◌, ◌<◌, ◌≡◌, refl, ap, ◌∙◌, inl, inr, List, [], ◌∷◌, ◌++◌, arith,
  Bool-cases, lt_or_le,
}
use oef_mt_core.Base.Int.{pos}
use oef_mt_core.BasicComms.Memory.{Memory, Buffer, total_size}
use oef_mt_core.BasicComms.ConstCharArrayBuffer.{
  CharStream, open_stream, limited_to, remaining_data, advance, read_little_endian,
}
use oef_mt_core.BasicComms.ConstCharArrayBuffer.Laws.{
  IsPlaced, open_stream-rest, read_u32-Moves, read_little_endian-Moves, remaining_data-sub,
}
use oef_mt_core.Comms.Endianness.{Endianness, dunno, little, network, bad}
use oef_mt_core.Comms.ProtoMessageReader.Steps.{
  rounds-short, rounds-long, with_body-short, with_body-whole, with_body-refused,
}
use oef_mt_core.Comms.ProtoMessageReader.{
  Reader, Check, Outcome, Header, size_of, failed, consumed_needed, threw, refuses_incoming,
  out_of_rounds, head_size, deliver, stop, read_header, detect, with_body, rounds,
  check_for_message,
}

-- Every stream handed over lies inside the data.
abbrev pub AllPlaced : List Buffer → List CharStream → Type 0
AllPlaced bs [] = Unit
AllPlaced bs (c ∷ cs) = (c.buffers ≡ bs) × IsPlaced c × AllPlaced bs cs

-- The loop ends; what it consumes is there, and it asks for at least one byte more.
abbrev pub Sound : ℕ → Outcome → Type 0
Sound total (consumed_needed k n) = (k ≤ total) × (0 < n)
Sound total (threw e) = Unit
Sound total out_of_rounds = ⊥

pub record IsSound (bs : List Buffer) (k : Check) : Type 0 where
  pub ends : Sound (total_size bs) k.outcome
  pub inside : AllPlaced bs k.delivered

-- What a header that was read says of the stream behind it.
abbrev Behind : CharStream → Header → Type 0
Behind c (failed e r) = Unit
Behind c (size_of n c' r) =
    (c'.buffers ≡ c.buffers)
    × (c'.size ≡ c.size)
    × (c.current + 4 ≤ c'.current)
    × (c'.current ≤ c.size)

detect-Behind : (r : Reader) (c : CharStream) → c.current + 4 ≤ c.size → Behind c (detect r c)
unfolding detect
detect-Behind r c h =
    let c' = (read_little_endian c).1 in
    ground (arith, read_little_endian-Moves c, read_u32-Moves c')

read_header-Behind :
    (r : Reader) (e : Endianness) (c : CharStream)
    → c.current + 4 ≤ c.size
    → Behind c (read_header r e c)
unfolding read_header
read_header-Behind r bad c h = tt
read_header-Behind r dunno c h = detect-Behind r c h
read_header-Behind r little c h = ground (arith, read_little_endian-Moves c)
read_header-Behind r network c h = ground (arith, read_u32-Moves c)

deliver-AllPlaced :
    (bs : List Buffer) (r : Reader) (c : CharStream) (cs : List CharStream)
    → c.buffers ≡ bs
    → IsPlaced c
    → AllPlaced bs cs
    → AllPlaced bs (deliver r c ++ cs)
deliver-AllPlaced bs r c cs e p h = elim (Bool-cases r.has_handler) [
  | inl on ↦ rw on (e, p, h)
  | inr off ↦ rw off h
]

stop-IsSound :
    (bs : List Buffer) (r : Reader) (o : Outcome) → Sound (total_size bs) o → IsSound bs (stop r o)
stop-IsSound bs r o h = record { ends = h; inside = tt }

-- What the loop may start a pass with.
record IsAt (bs : List Buffer) (c : CharStream) (consumed : ℕ) : Type 0 where
  shared : c.buffers ≡ bs
  placed : IsPlaced c
  counted : consumed ≤ c.current

with_body-IsSound :
    (bs : List Buffer) (again : Reader → CharStream → ℕ → Check) (c : CharStream) (consumed : ℕ)
    (h : Header)
    → IsAt bs c consumed
    → Behind c h
    → ((r : Reader) (c' : CharStream) (k : ℕ)
        → IsAt bs c' k
        → (c.current + 4 ≤ c'.current) × (c'.size ≡ c.size)
        → IsSound bs (again r c' k))
    → IsSound bs (with_body again consumed h)
with_body-IsSound bs again c consumed (failed e r) at b next =
    unfold with_body in stop-IsSound bs r (threw e) tt
with_body-IsSound bs again c consumed (size_of n c' r) at b next = elim (lt_or_le 10000 n) [
  | inl big ↦
      rw (with_body-refused again r c' consumed n big)
        (stop-IsSound bs r (threw (refuses_incoming n)) tt)
  | inr small ↦ elim (lt_or_le k n) [
    | inl few ↦
        rw (with_body-short r c' consumed k left again n small few)
          (stop-IsSound bs r (consumed_needed consumed (n - k)) (omega (arith, same_total)))
    | inr whole ↦ rw (with_body-whole r c' consumed k left again n small whole) (record {
      ends = (later whole).ends;
      inside =
          deliver-AllPlaced bs r (limited_to c' (c'.current + n))
            (again r (advance c' n) (consumed + head_size + n)).delivered (b.0 ∙ at.shared)
            (placed_to whole) (later whole).inside;
    })
  ]
]
  where
    k : ℕ
    k = c'.size - c'.current

    left : remaining_data c' ≡ pos k
    left = remaining_data-sub c' (omega arith)

    same_total : total_size c.buffers ≡ total_size bs
    same_total = ap total_size at.shared

    backed : c'.size ≤ total_size c'.buffers
    backed = omega (arith, ap total_size b.0)

    placed_to : n ≤ k → IsPlaced (limited_to c' (c'.current + n))
    placed_to whole = omega (arith, backed)

    later : n ≤ k → IsSound bs (again r (advance c' n) (consumed + head_size + n))
    later whole =
        next r (advance c' n) (consumed + head_size + n)
          (record {
            shared = b.0 ∙ at.shared;
            placed = omega (arith, backed);
            counted = omega arith;
          })
          (omega arith)

rounds-IsSound :
    (bs : List Buffer) (fuel : ℕ) (r : Reader) (c : CharStream) (consumed : ℕ)
    → IsAt bs c consumed
    → c.size - c.current < fuel
    → IsSound bs (rounds fuel r c consumed)
rounds-IsSound bs zero r c consumed at enough = absurd (omega arith)
rounds-IsSound bs (suc fuel) r c consumed at enough = elim (lt_or_le k 4) [
  | inl few ↦ rw (rounds-short r c consumed k left fuel few) (
      stop-IsSound bs r (consumed_needed consumed (4 - k)) (omega (arith, ap total_size at.shared)))
  | inr room ↦ rw (rounds-long r c consumed k left fuel room) (
      with_body-IsSound bs (rounds fuel) c consumed (read_header r r.endianness c) at
        (read_header-Behind r r.endianness c (omega arith))
        (λ r' c' j at' far. rounds-IsSound bs fuel r' c' j at' (omega arith)))
]
  where
    k : ℕ
    k = c.size - c.current

    left : remaining_data c ≡ pos k
    left = remaining_data-sub c at.placed.within

-- On any data and in any state of the reader `checkForMessage` ends by itself. If it returns, it has
-- consumed no more bytes than the buffers hold and asks for at least one byte more; and whether it
-- returns or throws, each message that it handed over lies wholly inside the buffers.
pub check_for_message-IsSound :
    (r : Reader) (m : Memory) (data_buffers : List Buffer)
    → IsSound data_buffers (check_for_message r m data_buffers)
unfolding check_for_message open_stream
check_for_message-IsSound r m data_buffers =
    rounds-IsSound data_buffers (suc (total_size data_buffers)) r (open_stream m data_buffers) 0
      (record {
        shared = refl;
        placed = (open_stream-rest m data_buffers).1;
        counted = omega arith;
      })
      (omega arith)
