-- ===== src/Conversations/ProtoPathMessageReader.antt =====
-- mt-core/conversations/src/cpp/ProtoPathMessageReader.cpp. The calls of `onComplete` and `onError` are
-- collected in order. `ParseFromIstream` of the leader, which reads its stream to the end, is a
-- parameter: a function of the bytes.
pub mod Frames
use oef_mt_core.Base.{
  ℕ, zero, suc, ◌+◌, Bool, true, false, List, [], ◌∷◌, ◌++◌, Option, none, some, ltb, if◌then◌else◌,
}
use oef_mt_core.Base.Int.{ℤ, pos, negsuc, ◌-ℤ◌, ltb_ℤ, to_size}
use oef_mt_core.Karma.BucketsOf.{Name}
use oef_mt_core.BasicComms.Memory.{Memory, Buffer}
use oef_mt_core.BasicComms.ConstCharArrayBuffer.{
  CharStream, open_stream, limited_to, remaining_data, advance, read_u32, copy_out,
}
use oef_mt_core.Conversations.Transport.{TransportHeader}

-- Whether each handler is set.
pub record Handlers : Type 0 where
  pub on_complete : Bool
  pub on_error : Bool

pub data Call : Type 0 where
  complete : ℕ → CharStream → Call
  error : ℕ → ℤ → Name → Call

pub data ReadError : Type 0 where
  refuses_incoming : ℕ → ReadError
  invalid_leader : ReadError

pub data Outcome : Type 0 where
  consumed_needed : ℕ → ℕ → Outcome
  threw : ReadError → Outcome
  -- the model's rounds ran out; it is not a behaviour of the code
  out_of_rounds : Outcome

pub record Check : Type 0 where
  pub calls : List Call
  pub outcome : Outcome

abbrev pub head_size : ℕ
head_size = 8

abbrev pub concatenated : List Name → Name
concatenated [] = []
concatenated (n ∷ ns) = n ++ concatenated ns

-- A failure without a code has the code 132.
abbrev pub code_of : ℤ → ℤ
code_of (pos zero) = pos 132
code_of code = code

abbrev pub deliver : Handlers → TransportHeader → CharStream → List Call
deliver h leader message =
    if leader.success
    then if h.on_complete then complete leader.id message ∷ [] else []
    else if h.on_error
    then error leader.id (code_of leader.error_code) (concatenated leader.narrative) ∷ []
    else []

abbrev pub stop : Outcome → Check
stop o = record { calls = []; outcome = o }

-- A call that was made stays so whatever comes after it.
abbrev pub after_calls : List Call → Check → Check
after_calls ds k = record k { calls = ds ++ k.calls }

module _ (parse : List ℕ → Option TransportHeader) (h : Handlers) where
  -- The body of the loop behind the parsing of the leader.
  unfoldable pub with_leader :
      (CharStream → ℕ → Check) → ℕ → ℕ → ℕ → CharStream → Option TransportHeader → Check
  with_leader again consumed leader_size payload_size c none = stop (threw invalid_leader)
  with_leader again consumed leader_size payload_size c (some leader) =
      let behind = advance c leader_size in
      after_calls (deliver h leader (limited_to behind (behind.current + payload_size)))
        (again (advance behind payload_size) (consumed + head_size + (leader_size + payload_size)))

  -- The body of the loop behind the two sizes.
  unfoldable pub with_body : (CharStream → ℕ → Check) → ℕ → ℕ → ℕ → CharStream → Check
  with_body again consumed leader_size payload_size c =
      let body_size = leader_size + payload_size in
      let header_chars = limited_to c (c.current + leader_size) in
      let parsed =
        with_leader again consumed leader_size payload_size c (parse (copy_out header_chars).0) in
      if ltb 10000 body_size
      then stop (threw (refuses_incoming body_size))
      else if ltb (to_size (remaining_data c)) body_size
      then stop (consumed_needed consumed (to_size (pos body_size -ℤ remaining_data c)))
      else parsed

  -- `while(true)`, with the number of rounds that are left.
  unfoldable pub rounds : ℕ → CharStream → ℕ → Check
  rounds zero c consumed = stop out_of_rounds
  rounds (suc fuel) c consumed =
      let (leader_size, c') = read_u32 c in
      let (payload_size, c'') = read_u32 c' in
      let body = with_body (rounds fuel) consumed leader_size payload_size c'' in
      if ltb_ℤ (remaining_data c) (pos head_size)
      then stop (consumed_needed consumed (to_size (pos head_size -ℤ remaining_data c)))
      else body

  -- `checkForMessage`. Each pass steps over two sizes at least, so the size of the data bounds them.
  unfoldable pub check_for_message : Memory → List Buffer → Check
  check_for_message m data_buffers = let c = open_stream m data_buffers in rounds (suc c.size) c 0
