-- ===== src/Conversations/ProtoPathMessageReader/Frames.antt =====
-- What the reader of mt-core/conversations/src/cpp/ProtoPathMessageReader.cpp does with a sequence of
-- whole frames and the start of one more.
use oef_mt_core.Base.{
  ℕ, zero, suc, ◌+◌, ◌-◌, ◌≤◌, ◌<◌, ◌^◌, ◌≡◌, refl, ap, subst, ◌∙◌, ◌⊎◌, inl, inr, List, [], ◌∷◌,
  ◌++◌, map, append_assoc, arith, if◌then◌else◌, length, drop, length-append, drop-append, Option,
  some, lt→ltb, le→ltb_false,
}
use native.Mathlib.Nat.{zero-add}
use oef_mt_core.Base.Int.{ℤ, pos}
use oef_mt_core.Karma.BucketsOf.{Name}
use oef_mt_core.BasicComms.Memory.{Memory, Buffer, contents}
use oef_mt_core.BasicComms.ConstCharArrayBuffer.{
  CharStream, open_stream, limited_to, advance, remaining_data,
}
use oef_mt_core.BasicComms.ConstCharArrayBuffer.Laws.{
  IsPlaced, rest, length-rest, rest-advance, advance-IsPlaced, read_u32-cons, open_stream-rest,
  remaining_data-rest,
}
use oef_mt_core.Comms.Endianness.{network_endian, header}
use oef_mt_core.Comms.ProtoMessageReader.Steps.{missing_size}
use oef_mt_core.Comms.ProtoMessageReader.Frames.{payload, payload-limited_to}
use oef_mt_core.Conversations.Transport.{TransportHeader, path_frame, path_frames, AllFit, AllParse}
use oef_mt_core.Conversations.ProtoPathMessageReader.{
  Handlers, Call, complete, error, Check, consumed_needed, head_size, concatenated, code_of,
  deliver, stop, after_calls, with_leader, with_body, rounds, check_for_message,
}

-- What the handlers learn, a message as the bytes that can be copied out of it.
pub data Notice : Type 0 where
  completed : ℕ → List ℕ → Notice
  failed : ℕ → ℤ → Name → Notice

abbrev pub notice : Call → Notice
notice (complete id message) = completed id (payload message)
notice (error id code narrative) = failed id code narrative

-- What a message should tell them.
abbrev pub expected_of : Handlers → TransportHeader → List ℕ → List Notice
expected_of h leader body =
    if leader.success
    then if h.on_complete then completed leader.id body ∷ [] else []
    else if h.on_error
    then failed leader.id (code_of leader.error_code) (concatenated leader.narrative) ∷ []
    else []

abbrev pub expected : Handlers → List (TransportHeader × List ℕ) → List Notice
expected h [] = []
expected h ((leader, body) ∷ ps) = expected_of h leader body ++ expected h ps

-- The start of a frame, and how many bytes more the reader asks for: those of the two lengths, or
-- those of leader and payload.
abbrev pub IsPartial : List ℕ → ℕ → Type 0
IsPartial tail need =
    ((length tail < 8) × (need ≡ 8 - length tail))
    ⊎ ((n k : ℕ) × (body : List ℕ) × (n + k ≤ 10000)
        × (length body < n + k)
        × (tail ≡ header network_endian n ++ (header network_endian k ++ body))
        × (need ≡ n + k - length body))

pub record Reads (total need : ℕ) (notices : List Notice) (k : Check) : Type 0 where
  pub answer : k.outcome ≡ consumed_needed total need
  pub told : map notice k.calls ≡ notices

length-two :
    (n k : ℕ) (xs : List ℕ)
    → length (header network_endian n ++ (header network_endian k ++ xs)) ≡ length xs + 8
length-two n k xs = omega arith

notices-append : (xs ys : List Call) → map notice (xs ++ ys) ≡ map notice xs ++ map notice ys
notices-append [] ys = refl
notices-append (x ∷ xs) ys = ap (◌∷◌ (notice x)) (notices-append xs ys)

notices-deliver :
    (h : Handlers) (leader : TransportHeader) (message : CharStream) (body : List ℕ)
    → payload message ≡ body
    → map notice (deliver h leader message) ≡ expected_of h leader body
notices-deliver h leader message body same = ground arith

module _ (serialize : TransportHeader → List ℕ) (parse : List ℕ → Option TransportHeader)
    (h : Handlers) where
  -- The two lengths are read.
  rounds-sizes :
      (fuel : ℕ) (c : CharStream) (consumed n k : ℕ) (xs : List ℕ)
      → IsPlaced c
      → n + k < 2 ^ 32
      → rest c ≡ header network_endian n ++ (header network_endian k ++ xs)
      → (rounds parse h (suc fuel) c consumed
          ≡ with_body parse h (rounds parse h fuel) consumed n k (advance (advance c 4) 4))
        × (rest (advance (advance c 4) 4) ≡ xs)
        × IsPlaced (advance (advance c 4) 4)
  unfolding rounds
  rounds-sizes fuel c consumed n k xs p lt e =
      let first = read_u32-cons c n (header network_endian k ++ xs) p (omega arith) e in
      let second = read_u32-cons (advance c 4) k xs first.2 (omega arith) first.1 in
      (
        rw (
          remaining_data-rest c p,
          le→ltb_false (length (rest c) + 0) 8 (omega (arith, ap length e)),
          first.0,
          second.0,
        ),
        second.1,
        second.2,
      )

  -- Too little for the lengths, or for what they announce: the loop ends.
  rounds-partial :
      (fuel : ℕ) (c : CharStream) (consumed need : ℕ) (tail : List ℕ)
      → IsPlaced c
      → IsPartial tail need
      → rest c ≡ tail
      → rounds parse h (suc fuel) c consumed ≡ stop (consumed_needed consumed need)
  unfolding rounds with_body
  rounds-partial fuel c consumed need tail p (inl (few, e)) same =
      let left : remaining_data c ≡ pos (length tail) =
        remaining_data-rest c p ∙ ap (λ l. pos (length l)) same in
      rw (
        left,
        lt→ltb (length tail + 0) 8 (omega arith),
        missing_size 8 (length tail) (omega arith),
        e,
      )
  rounds-partial fuel c consumed need tail p (inr (n, k, body, small, more, t, e)) same =
      let (sized, after, p') = rounds-sizes fuel c consumed n k body p (omega arith) (same ∙ t) in
      let behind = advance (advance c 4) 4 in
      let left : remaining_data behind ≡ pos (length body) =
        remaining_data-rest behind p' ∙ ap (λ l. pos (length l)) after in
      sized
      ∙ rw (
        left,
        le→ltb_false 10000 (n + k) small,
        lt→ltb (length body) (n + k) more,
        missing_size (n + k) (length body) (omega arith),
        e,
      )

  -- A whole frame is handed over, and the loop goes on behind it.
  rounds-frame :
      (fuel : ℕ) (c : CharStream) (consumed : ℕ) (leader : TransportHeader) (body more : List ℕ)
      → IsPlaced c
      → length (serialize leader) + length body ≤ 10000
      → parse (serialize leader) ≡ some leader
      → rest c ≡ path_frame (serialize leader) body ++ more
      → (message c' : CharStream) × (payload message ≡ body)
        × IsPlaced c'
        × (rest c' ≡ more)
        × (rounds parse h (suc fuel) c consumed
            ≡ after_calls (deliver h leader message) (
                rounds parse h fuel c'
                  (consumed + head_size + (length (serialize leader) + length body))))
  unfolding with_body with_leader
  rounds-frame fuel c consumed leader body more p small parses same =
      let l = serialize leader in
      let n = length l in
      let k = length body in
      let (sized, after, p') =
        rounds-sizes fuel c consumed n k (l ++ (body ++ more)) p (omega arith)
          (same ∙ simp append_assoc) in
      let start = advance (advance c 4) 4 in
      let fits : n + k ≤ length (rest start) =
        omega (arith, ap length after, length-append l (body ++ more), length-append body more) in
      let behind = advance start n in
      let left : rest behind ≡ body ++ more =
        rest-advance start n ∙ ap (drop n) after ∙ drop-append l (body ++ more) in
      let p'' = advance-IsPlaced start n p' (omega arith) in
      let parsed : parse (payload (limited_to start (start.current + n))) ≡ some leader =
        ap parse (payload-limited_to start l (body ++ more) p' after) ∙ parses in
      (
        limited_to behind (behind.current + k),
        advance behind k,
        payload-limited_to behind body more p'' left,
        advance-IsPlaced behind k p'' (omega (arith, ap length left, length-append body more)),
        rest-advance behind k ∙ ap (drop k) left ∙ drop-append body more,
        sized
            ∙ rw (
              remaining_data-rest start p',
              le→ltb_false 10000 (n + k) small,
              le→ltb_false (length (rest start)) (n + k) fits,
              parsed,
            ),
      )

  length-path_frames-le :
      (ps : List (TransportHeader × List ℕ)) → length ps ≤ length (path_frames serialize ps)
  length-path_frames-le [] = omega arith
  length-path_frames-le ((leader, body) ∷ ps) = omega (
    arith,
    length-path_frames-le ps,
    length-append (path_frame (serialize leader) body) (path_frames serialize ps),
  )

  rounds-frames :
      (ps : List (TransportHeader × List ℕ)) (fuel : ℕ) (c : CharStream) (consumed need : ℕ)
      (tail : List ℕ)
      → IsPlaced c
      → AllFit serialize ps
      → AllParse serialize parse ps
      → IsPartial tail need
      → rest c ≡ path_frames serialize ps ++ tail
      → length ps < fuel
      → Reads
          (consumed + length (path_frames serialize ps))
          need
          (expected h ps)
          (rounds parse h fuel c consumed)
  rounds-frames ps zero c consumed need tail p fit parses part same enough = absurd (omega arith)
  rounds-frames [] (suc fuel) c consumed need tail p fit parses part same enough =
      rw (rounds-partial fuel c consumed need tail p part same)
        (record { answer = ap (λ (k : ℕ). consumed_needed k need) (omega arith); told = refl })
  rounds-frames ((leader, body) ∷ ps) (suc fuel) c consumed need tail p fit parses part same
        enough =
      let one = path_frame (serialize leader) body in
      let (message, c', got, p', left, e) =
        rounds-frame fuel c consumed leader body (path_frames serialize ps ++ tail) p fit.0 parses.0
          (same ∙ append_assoc one (path_frames serialize ps) tail) in
      let behind = consumed + head_size + (length (serialize leader) + length body) in
      let later =
        rounds-frames ps fuel c' behind need tail p' fit.1 parses.1 part left (omega arith) in
      rw e (record {
        answer =
            later.answer
            ∙ ap (λ (k : ℕ). consumed_needed k need)
                (omega (
                  arith,
                  length-append one (path_frames serialize ps),
                  length-append (serialize leader) body,
                ));
        told =
            notices-append (deliver h leader message) (rounds parse h fuel c' behind).calls
            ∙ ap (λ l. l ++ map notice (rounds parse h fuel c' behind).calls)
                (notices-deliver h leader message body got)
            ∙ ap (◌++◌ (expected_of h leader body)) later.told;
      })

  -- From data that starts with whole frames, of at most 10000 bytes of leader and payload each, and goes
  -- on with the start of one more, `checkForMessage` tells the handlers of every message once and in
  -- order: a leader with success gives `onComplete` its id and payload, one without gives `onError` its
  -- id, its code, 132 in place of 0, and its narrative, each if that handler is set. It reports exactly
  -- the bytes of the whole frames as consumed and asks for exactly the bytes that the started lengths, or
  -- what they announce, lack. Protobuf
  -- parses each leader from the bytes that it wrote.
  pub path_check_for_message-frames :
      (m : Memory) (data_buffers : List Buffer) (ps : List (TransportHeader × List ℕ))
      (tail : List ℕ) (need : ℕ)
      → AllFit serialize ps
      → AllParse serialize parse ps
      → IsPartial tail need
      → contents m data_buffers ≡ path_frames serialize ps ++ tail
      → Reads
          (length (path_frames serialize ps))
          need
          (expected h ps)
          (check_for_message parse h m data_buffers)
  unfolding check_for_message
  path_check_for_message-frames m data_buffers ps tail need fit parses part same =
      let c = open_stream m data_buffers in
      let opened = open_stream-rest m data_buffers in
      let all : rest c ≡ path_frames serialize ps ++ tail = opened.0 ∙ same in
      let enough : length ps < suc c.size = omega (
        arith,
        ap length all,
        length-rest c opened.1,
        length-append (path_frames serialize ps) tail,
        length-path_frames-le ps,
      ) in
      subst (λ k. Reads k need (expected h ps) (rounds parse h (suc c.size) c 0))
        (zero-add (length (path_frames serialize ps)))
        (rounds-frames ps (suc c.size) c 0 need tail opened.1 fit parses part all enough)
