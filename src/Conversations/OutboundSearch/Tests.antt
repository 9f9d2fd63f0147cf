-- ===== src/Conversations/OutboundSearch/Tests.antt =====
-- Concrete conversations with the search core: a message and a response are numbers.
use oef_mt_core.Base.{
  ℕ, ◌^◌, ◌%◌, ◌==◌, if◌then◌else◌, ◌≡◌, refl, true, false, List, [], ◌∷◌, Option, none, some,
  arith, replicate,
}
use mathlib.Core.Option
use oef_mt_core.Karma.BucketsOf.{same}
use oef_mt_core.Conversations.ProtoPathMessageSender.{Uri}
use oef_mt_core.Conversations.OutboundSearch.{
  update, search_response, update_response, ResponseClass, Conversation, Creator, Link, complete,
  kind_of, new_conversation, search_path, update_path, start, process, on_complete, find_ident,
  call_at, not_started, handle_message,
}
use oef_mt_core.Conversations.OutboundSearch.Routing.{
  sent_id, Answers, start-Answers, on_complete-misrouted,
}

abbrev parse_first : ResponseClass → List ℕ → Option ℕ
parse_first response_class [] = none
parse_first response_class (x ∷ xs) = some x

abbrev to_search : Uri
to_search = record { path = search_path; port = 0 }

abbrev to_update : Uri
to_update = record { path = update_path; port = 0 }

abbrev fresh_creator : Creator ℕ ℕ
fresh_creator = record { ident = 1; conversations = []; posted = [] }

search_kind : kind_of search_path ≡ some (update, search_response)
unfolding kind_of same
search_kind = refl

start-Answers_example :
    Answers parse_first 1
      (9 ∷ [])
      fresh_creator
      (start to_search 5 fresh_creator)
      (new_conversation (update, search_response) 1 to_search 5)
start-Answers_example =
    start-Answers parse_first to_search 5 fresh_creator (update, search_response) 1 (9 ∷ [])
      search_kind (omega arith)

-- The conversations of identifiers 1 and 65537.
abbrev early : Conversation ℕ ℕ
early = new_conversation (update, search_response) 1 to_search 5

abbrev late : Conversation ℕ ℕ
late = new_conversation (update, update_response) 65537 to_update 6

abbrev both : List (ℕ × Conversation ℕ ℕ)
both = (1, early) ∷ (65537, late) ∷ []

late_found : find_ident late.ident both ≡ some late
unfolding find_ident
late_found = refl

on_complete-misrouted_example :
    let replied = on_complete parse_first (sent_id late) (9 ∷ []) both in
    (find_ident late.ident replied ≡ some late)
    × (find_ident 1 replied ≡ (
        if 1 == late.ident % 2 ^ 16
        then Option.map (handle_message parse_first (9 ∷ [])) (find_ident 1 both)
        else find_ident 1 both))
on_complete-misrouted_example =
    on_complete-misrouted parse_first (9 ∷ []) late both 1 late_found (omega arith)

-- Without a conversation under the low bits, as for the first identifier that is too large, the reply
-- is lost.
abbrev first_late : Conversation ℕ ℕ
first_late = new_conversation (update, update_response) 65536 to_update 6

reply_lost :
    on_complete parse_first (sent_id first_late) (9 ∷ []) ((65536, first_late) ∷ [])
    ≡ (65536, first_late) ∷ []
unfolding sent_id call_at
reply_lost = refl

-- A message for a full queue is dropped, and `process` answers that it is complete.
abbrev full_link : Link ℕ
full_link = record { connected = true; txq = replicate 50 (to_search, 5) }

full_process : process (λ l. l) true true full_link early ≡ (full_link, complete)
unfolding process
full_process = refl

-- When connecting fails the old endpoint is gone, with what was in its queue.
abbrev broken_link : Link ℕ
broken_link = record { connected = false; txq = (to_search, 5) ∷ [] }

failed_process :
    process (λ l. l) false false broken_link early
    ≡ (record { connected = false; txq = [] }, not_started)
unfolding process
failed_process = refl
