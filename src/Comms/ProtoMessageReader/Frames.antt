-- ===== src/Comms/ProtoMessageReader/Frames.antt =====
-- What the reader does with a sequence of whole frames and the start of one more.
use oef_mt_core.Base.{
  ℕ, zero, suc, ◌+◌, ◌-◌, ◌≤◌, ◌<◌, ◌^◌, ◌≡◌, refl, ap, subst, ◌∙◌, ◌⊎◌, inl, inr, List, [], ◌∷◌,
  ◌++◌, map, append_assoc, arith, if◌then◌else◌, length, take, drop, length-append, drop-append,
  take-append,
}
use native.Mathlib.Nat.{zero-add}
use oef_mt_core.Base.Int.{pos}
use oef_mt_core.BasicComms.Memory.{Memory, Buffer, contents}
use oef_mt_core.BasicComms.ConstCharArrayBuffer.{
  CharStream, open_stream, limited_to, advance, copy_out,
}
use oef_mt_core.BasicComms.ConstCharArrayBuffer.Laws.{
  IsPlaced, rest, length-rest, rest-advance, advance-IsPlaced, read_u32-cons,
  read_little_endian-cons, copy_out-rest, open_stream-rest, rest-limited_to, remaining_data-rest,
}
use oef_mt_core.Comms.Endianness.{
  ByteOrder, little_endian, network_endian, settled, header, frame, frames,
}
use oef_mt_core.Comms.ProtoMessageReader.Steps.{
  rounds-short, rounds-long, with_body-short, with_body-whole,
}
use oef_mt_core.Comms.ProtoMessageReader.{
  stop, after_delivery, Reader, Check, size_of, consumed_needed, head_size, deliver, read_header,
  with_body, rounds, check_for_message,
}

-- What a handler can copy out of a message.
abbrev pub payload : CharStream → List ℕ
payload c = (copy_out c).0

-- No message of the code is longer.
abbrev pub AllFit : List (List ℕ) → Type 0
AllFit [] = Unit
AllFit (p ∷ ps) = (length p ≤ 10000) × AllFit ps

-- The start of a frame, and how many bytes more the reader asks for: those of the header, or those
-- of the body.
abbrev pub IsPartial : ByteOrder → List ℕ → ℕ → Type 0
IsPartial o tail need =
    ((length tail < 4) × (need ≡ 4 - length tail))
    ⊎ ((n : ℕ) × (body : List ℕ) × (n ≤ 10000)
        × (length body < n)
        × (tail ≡ header o n ++ body)
        × (need ≡ n - length body))

length-header : (o : ByteOrder) (n : ℕ) → length (header o n) ≡ 4
length-header little_endian n = refl
length-header network_endian n = refl

pub record Reads (r : Reader) (total need : ℕ) (ps : List (List ℕ)) (k : Check) : Type 0 where
  pub same_reader : k.reader ≡ r
  pub answer : k.outcome ≡ consumed_needed total need
  pub messages : map payload k.delivered ≡ (if r.has_handler then ps else [])

-- A header in the order that the reader has settled on gives the length that was written.
read_header-header :
    (o : ByteOrder) (r : Reader) (c : CharStream) (n : ℕ) (xs : List ℕ)
    → IsPlaced c
    → n < 2 ^ 32
    → rest c ≡ header o n ++ xs
    → (read_header r (settled o) c ≡ size_of n (advance c 4) r)
      × (rest (advance c 4) ≡ xs)
      × IsPlaced (advance c 4)
unfolding read_header
read_header-header little_endian r c n xs p lt h =
    let got = read_little_endian-cons c n xs p lt h in (rw (got.0), got.1, got.2)
read_header-header network_endian r c n xs p lt h =
    let got = read_u32-cons c n xs p lt h in (rw (got.0), got.1, got.2)

-- The message handed over is the body of the frame.
pub payload-limited_to :
    (c : CharStream) (body more : List ℕ)
    → IsPlaced c
    → rest c ≡ body ++ more
    → payload (limited_to c (c.current + length body)) ≡ body
payload-limited_to c body more p h =
    let fits : length body ≤ length (rest c) =
      omega (arith, ap length h, length-append body more) in
    let limited = rest-limited_to c (length body) p fits in
    ap (λ out. out.0) (copy_out-rest _ limited.0)
    ∙ limited.1
    ∙ ap (take (length body)) h
    ∙ take-append body more

-- Each frame has its header at least.
length-frames : (o : ByteOrder) (ps : List (List ℕ)) → length ps ≤ length (frames o ps)
length-frames o [] = omega arith
length-frames o (p ∷ ps) = omega (
  arith,
  length-frames o ps,
  length-append (frame o p) (frames o ps),
  length-append (header o (length p)) p,
  length-header o (length p),
)

messages-after :
    (r : Reader) (message : CharStream) {body : List ℕ} (ps : List (List ℕ)) (k : Check)
    → payload message ≡ body
    → map payload k.delivered ≡ (if r.has_handler then ps else [])
    → map payload (deliver r message ++ k.delivered) ≡ (if r.has_handler then body ∷ ps else [])
messages-after r message ps k same h = ground arith

module _ (o : ByteOrder) (r : Reader) (settles : r.endianness ≡ settled o) where
  -- A header that is there is read, whatever follows it.
  rounds-header :
      (fuel : ℕ) (c : CharStream) (consumed n : ℕ) (xs : List ℕ)
      → IsPlaced c
      → n < 2 ^ 32
      → rest c ≡ header o n ++ xs
      → rounds (suc fuel) r c consumed
        ≡ with_body (rounds fuel) consumed (size_of n (advance c 4) r)
  rounds-header fuel c consumed n xs p lt h =
      rounds-long r c consumed (length (rest c)) (remaining_data-rest c p) fuel
        (omega (arith, ap length h, length-header o n, length-append (header o n) xs))
      ∙ ap (λ e. with_body (rounds fuel) consumed (read_header r e c)) settles
      ∙ ap (with_body (rounds fuel) consumed) (read_header-header o r c n xs p lt h).0

  -- Too little for a header, or for the body that it announces: the loop ends.
  rounds-partial :
      (fuel : ℕ) (c : CharStream) (consumed need : ℕ) (tail : List ℕ)
      → IsPlaced c
      → IsPartial o tail need
      → rest c ≡ tail
      → rounds (suc fuel) r c consumed ≡ stop r (consumed_needed consumed need)
  rounds-partial fuel c consumed need tail p (inl (few, e)) h =
      rounds-short r c consumed (length tail) (rw (← h) (remaining_data-rest c p)) fuel few ∙ rw e
  rounds-partial fuel c consumed need tail p (inr (n, body, ok, more, t, e)) h =
      let lt : n < 2 ^ 32 = omega arith in
      let got = read_header-header o r c n body p lt (h ∙ t) in
      rounds-header fuel c consumed n body p lt (h ∙ t)
      ∙ with_body-short r (advance c 4) consumed (length body)
          (remaining_data-rest (advance c 4) got.2 ∙ ap (λ l. pos (length l)) got.1) (rounds fuel) n
          ok more
      ∙ rw e

  -- A whole frame is handed over, and the loop goes on behind it.
  rounds-frame :
      (fuel : ℕ) (c : CharStream) (consumed : ℕ) (body more : List ℕ)
      → IsPlaced c
      → length body ≤ 10000
      → rest c ≡ header o (length body) ++ (body ++ more)
      → (message c' : CharStream) × (payload message ≡ body)
        × IsPlaced c'
        × (rest c' ≡ more)
        × (rounds (suc fuel) r c consumed
            ≡ after_delivery
                (deliver r message)
                (rounds fuel r c' (consumed + head_size + length body)))
  rounds-frame fuel c consumed body more p small h =
      let n = length body in
      let lt : n < 2 ^ 32 = omega arith in
      let got = read_header-header o r c n (body ++ more) p lt h in
      let behind = advance c 4 in
      let fits : n ≤ length (rest behind) =
        omega (arith, ap length got.1, length-append body more) in
      (
        limited_to behind (behind.current + n),
        advance behind n,
        payload-limited_to behind body more got.2 got.1,
        advance-IsPlaced behind n got.2 fits,
        rest-advance behind n ∙ ap (drop n) got.1 ∙ drop-append body more,
        rounds-header fuel c consumed n (body ++ more) p lt h
            ∙ with_body-whole r behind consumed (length (rest behind))
                (remaining_data-rest behind got.2) (rounds fuel) n small fits,
      )

  rounds-frames :
      (ps : List (List ℕ)) (fuel : ℕ) (c : CharStream) (consumed need : ℕ) (tail : List ℕ)
      → IsPlaced c
      → AllFit ps
      → IsPartial o tail need
      → rest c ≡ frames o ps ++ tail
      → length ps < fuel
      → Reads r (consumed + length (frames o ps)) need ps (rounds fuel r c consumed)
  rounds-frames ps zero c consumed need tail p fit part h enough = absurd (omega arith)
  rounds-frames [] (suc fuel) c consumed need tail p fit part h enough =
      rw (rounds-partial fuel c consumed need tail p part h) (record {
        same_reader = refl;
        answer = ap (λ (k : ℕ). consumed_needed k need) (omega arith);
        messages = ground arith;
      })
  rounds-frames (body ∷ ps) (suc fuel) c consumed need tail p fit part h enough =
      let regrouped : rest c ≡ header o (length body) ++ (body ++ (frames o ps ++ tail)) =
        h ∙ simp append_assoc in
      let (message, c', same, p', left, e) =
        rounds-frame fuel c consumed body (frames o ps ++ tail) p fit.0 regrouped in
      let behind = consumed + head_size + length body in
      let later = rounds-frames ps fuel c' behind need tail p' fit.1 part left (omega arith) in
      rw e (record {
        same_reader = later.same_reader;
        answer =
            later.answer
            ∙ ap (λ (k : ℕ). consumed_needed k need)
                (omega (
                  arith,
                  length-append (frame o body) (frames o ps),
                  length-append (header o (length body)) body,
                  length-header o (length body),
                ));
        messages = messages-after r message ps (rounds fuel r c' behind) same later.messages;
      })

-- In either settled order, from data that starts with whole frames of at most 10000 bytes each and
-- goes on with the start of one more, `checkForMessage` hands over every message once and in order
-- (none if no handler is set), reports exactly the bytes of the whole frames as consumed, asks for
-- exactly the bytes that the started header or body lacks, and leaves the reader as it was.
pub check_for_message-frames :
    (o : ByteOrder) (r : Reader) (m : Memory) (data_buffers : List Buffer) (ps : List (List ℕ))
    (tail : List ℕ) (need : ℕ)
    → r.endianness ≡ settled o
    → AllFit ps
    → IsPartial o tail need
    → contents m data_buffers ≡ frames o ps ++ tail
    → Reads r (length (frames o ps)) need ps (check_for_message r m data_buffers)
unfolding check_for_message
check_for_message-frames o r m data_buffers ps tail need settles fit part h =
    let c = open_stream m data_buffers in
    let opened = open_stream-rest m data_buffers in
    let all : rest c ≡ frames o ps ++ tail = opened.0 ∙ h in
    let enough : length ps < suc c.size = omega (
      arith,
      ap length all,
      length-rest c opened.1,
      length-append (frames o ps) tail,
      length-frames o ps,
    ) in
    subst (λ k. Reads r k need ps (rounds (suc c.size) r c 0)) (zero-add (length (frames o ps)))
      (rounds-frames o r settles ps (suc c.size) c 0 need tail opened.1 fit part all enough)
