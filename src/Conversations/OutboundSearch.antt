-- ===== src/Conversations/OutboundSearch.antt =====
-- mt-core/conversations/src/cpp/OutboundSearchConversationCreator.cpp. Conversations are reached
-- through `ident2conversation`, so the map holds them; a conversation counts the calls of its `wake`.
-- `ParseFromIstream` of a response, the connecting and the endpoint's `run_sending` are parameters; a
-- response is its class and the message that was parsed.
pub mod Routing
mod Tests
use oef_mt_core.Base.{
  ℕ, suc, ◌+◌, ◌%◌, ◌^◌, Bool, true, false, ◌&&◌, ◌||◌, not, List, [], ◌∷◌, ◌++◌, Option, none,
  some, length, get_elem?, ltb, ◌==◌, if◌then◌else◌,
}
use oef_mt_core.Base.Int.{ℤ, pos}
use oef_mt_core.Karma.BucketsOf.{Name, same}
use oef_mt_core.Comms.ProtoMessageSender.{is_txq_full}
use oef_mt_core.Conversations.ProtoPathMessageSender.{Uri}

pub data SearchConversationType : Type 0 where
  search_narrow search_wide update remove : SearchConversationType

-- The class of the responses that a conversation parses.
pub data ResponseClass : Type 0 where
  update_response remove_response search_response : ResponseClass

pub record Conversation (Message Response : Type 0) : Type 0 where
  pub type : SearchConversationType
  pub response_class : ResponseClass
  pub ident : ℕ
  pub uri : Uri
  pub initiator : Message
  pub responses : List Response
  -- `none` until it is set.
  pub status_code : Option ℤ
  pub error_message : Name
  pub wakes : ℕ

-- "/update", "/remove" and "/search".
abbrev pub update_path : Name
update_path = 47 ∷ 117 ∷ 112 ∷ 100 ∷ 97 ∷ 116 ∷ 101 ∷ []

abbrev pub remove_path : Name
remove_path = 47 ∷ 114 ∷ 101 ∷ 109 ∷ 111 ∷ 118 ∷ 101 ∷ []

abbrev pub search_path : Name
search_path = 47 ∷ 115 ∷ 101 ∷ 97 ∷ 114 ∷ 99 ∷ 104 ∷ []

-- The chain of tests in `start`.
unfoldable pub kind_of : Name → Option (SearchConversationType × ResponseClass)
kind_of path =
    if same path update_path
    then some (update, update_response)
    else if same path remove_path
    then some (remove, remove_response)
    else if same path search_path
    then some (update, search_response)
    else none

module _ {Message Response : Type 0} where
  abbrev pub new_conversation :
      SearchConversationType × ResponseClass → ℕ → Uri → Message → Conversation Message Response
  new_conversation (type, response_class) ident uri initiator = record {
    type = type;
    response_class = response_class;
    ident = ident;
    uri = uri;
    initiator = initiator;
    responses = [];
    status_code = none;
    error_message = [];
    wakes = 0;
  }

  abbrev pub with_response :
      Conversation Message Response → Option Response → Conversation Message Response
  with_response c none = record c {
    status_code = some (pos 91);
    error_message = [];
    wakes = suc c.wakes;
  }
  with_response c (some r) = record c {
    status_code = some (pos 0);
    responses = c.responses ++ (r ∷ []);
    wakes = suc c.wakes;
  }

  abbrev pub handle_message :
      (ResponseClass → List ℕ → Option Response)
      → List ℕ
      → Conversation Message Response
      → Conversation Message Response
  handle_message parse buffer c = with_response c (parse c.response_class buffer)

  -- It does not wake.
  abbrev pub handle_error : ℤ → Name → Conversation Message Response → Conversation Message Response
  handle_error code message c = record c { status_code = some code; error_message = message }

  abbrev pub get_available_reply_count : Conversation Message Response → ℕ
  get_available_reply_count c = length c.responses

  -- `none` where the source answers with a null pointer or reads past the end.
  abbrev pub get_reply : Conversation Message Response → ℕ → Option Response
  get_reply c replynumber = get_elem? c.responses replynumber

  -- `std::map::find` of ident2conversation, and a call through the pointer that it finds.
  unfoldable pub find_ident :
      ℕ → List (ℕ × Conversation Message Response) → Option (Conversation Message Response)
  find_ident id [] = none
  find_ident id ((k, c) ∷ rest) =
      let later = find_ident id rest in if id == k then some c else later

  unfoldable pub call_at :
      ℕ
      → (Conversation Message Response → Conversation Message Response)
      → List (ℕ × Conversation Message Response)
      → List (ℕ × Conversation Message Response)
  call_at id f [] = []
  call_at id f ((k, c) ∷ rest) =
      let later = call_at id f rest in if id == k then (k, f c) ∷ rest else (k, c) ∷ later

  abbrev pub on_complete :
      (ResponseClass → List ℕ → Option Response)
      → ℕ
      → List ℕ
      → List (ℕ × Conversation Message Response)
      → List (ℕ × Conversation Message Response)
  on_complete parse id buffer conversations = call_at id (handle_message parse buffer) conversations

  abbrev pub on_error :
      ℕ
      → ℤ
      → Name
      → List (ℕ × Conversation Message Response)
      → List (ℕ × Conversation Message Response)
  on_error id code message conversations = call_at id (handle_error code message) conversations

  -- `ident2conversation[this_id] = conv`
  unfoldable pub assign_ident :
      ℕ
      → Conversation Message Response
      → List (ℕ × Conversation Message Response)
      → List (ℕ × Conversation Message Response)
  assign_ident id conv [] = (id, conv) ∷ []
  assign_ident id conv ((k, c) ∷ rest) =
      let later = assign_ident id conv rest in if id == k then (k, conv) ∷ rest else (k, c) ∷ later

-- The identifiers and the worker's queue of a creator; `conversations` is ident2conversation, one map
-- for all creators, which other creators may change between the calls of this one.
pub record Creator (Message Response : Type 0) : Type 0 where
  pub ident : ℕ
  pub conversations : List (ℕ × Conversation Message Response)
  -- the queue of the worker
  pub posted : List (Conversation Message Response)

module _ {Message Response : Type 0} where
  -- A path that is no target throws, after the identifier was used up.
  unfoldable pub started :
      Uri
      → Message
      → Creator Message Response
      → Option (SearchConversationType × ResponseClass)
      → Creator Message Response × Option (Conversation Message Response)
  started target initiator s none = (record s { ident = (s.ident + 1) % 2 ^ 64 }, none)
  started target initiator s (some kind) =
      let conv = new_conversation kind s.ident target initiator in
      (
        record {
          ident = (s.ident + 1) % 2 ^ 64;
          conversations = assign_ident s.ident conv s.conversations;
          posted = s.posted ++ (conv ∷ []);
        },
        some conv,
      )

  unfoldable pub start :
      Uri
      → Message
      → Creator Message Response
      → Creator Message Response × Option (Conversation Message Response)
  start target initiator s = started target initiator s (kind_of target.path)

-- The endpoint of the worker: whether it is there and connected, and its transmit queue.
pub record Link (Message : Type 0) : Type 0 where
  pub connected : Bool
  pub txq : List (Uri × Message)

pub data WorkloadProcessed : Type 0 where
  complete not_complete not_started : WorkloadProcessed

-- `EndpointBase::send`, whose answer is dropped: a full queue does not take the message.
abbrev pub send : {Message : Type 0} → Uri × Message → Link Message → Link Message
send item link =
    if is_txq_full link.txq then link else record link { txq = link.txq ++ (item ∷ []) }

module _ {Message Response : Type 0} where
  -- The Uri that the message goes to: its port is 16 bits wide.
  abbrev pub sent_uri : Conversation Message Response → Uri
  sent_uri workload = record (workload.uri) { port = workload.ident % 2 ^ 16 }

  module _ (run_sending : Link Message → Link Message) where
    -- `connect` replaces the endpoint by a fresh one, whatever comes of it: `answer` is what it answers
    -- when it is called, and `alive` whether the fresh endpoint is connected then.
    unfoldable pub process :
        (answer alive : Bool)
        → Link Message
        → Conversation Message Response
        → Link Message × WorkloadProcessed
    process answer alive link workload =
        let item : Uri × Message = (sent_uri workload, workload.initiator) in
        let fresh : Link Message = record { connected = alive; txq = [] } in
        if link.connected
        then (run_sending (send item link), complete)
        else if answer
        then (run_sending (send item fresh), complete)
        else (fresh, not_started)
