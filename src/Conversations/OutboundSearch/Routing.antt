-- ===== src/Conversations/OutboundSearch/Routing.antt =====
-- How the replies of the search core find their conversations, for
-- mt-core/conversations/src/cpp/OutboundSearchConversationCreator.cpp over ProtoPathMessageSender.cpp.
use oef_mt_core.Base.{
  ℕ, ◌%◌, ◌^◌, ◌≤◌, ◌<◌, ◌≡◌, refl, ap, sym, subst, ◌∙◌, inl, inr, List, [], ◌∷◌, ◌++◌, some, arith,
  ◌==◌, if◌then◌else◌, Bool-cases,
}
use mathlib.Core.Option.{Option}
use mathlib.Core.Option
use oef_mt_core.Conversations.ProtoPathMessageSender.{Uri, leader_of}
use oef_mt_core.Conversations.OutboundSearch.{
  SearchConversationType, ResponseClass, Conversation, kind_of, new_conversation, handle_message,
  find_ident, call_at, on_complete, assign_ident, Creator, started, start, sent_uri,
}

-- The id in the leader of the message that `process` sends, with which the search core replies.
unfoldable pub sent_id : {Message Response : Type 0} → Conversation Message Response → ℕ
sent_id c = (leader_of (sent_uri c)).id

module _ {Message Response : Type 0} where
  find_ident-call_at :
      (n id : ℕ) (f : Conversation Message Response → Conversation Message Response)
      (cs : List (ℕ × Conversation Message Response))
      → find_ident n (call_at id f cs)
        ≡ (if n == id then Option.map f (find_ident n cs) else find_ident n cs)
  unfolding find_ident call_at
  find_ident-call_at n id f [] = ground arith
  find_ident-call_at n id f ((k, d) ∷ rest) = elim (Bool-cases (id == k)) [
    | inl t ↦ ground (arith, t)
    | inr t ↦ ground (arith, t, find_ident-call_at n id f rest)
  ]

  find_ident-assign_ident :
      (n id : ℕ) (c : Conversation Message Response) (cs : List (ℕ × Conversation Message Response))
      → find_ident n (assign_ident id c cs) ≡ (if n == id then some c else find_ident n cs)
  unfolding find_ident assign_ident
  find_ident-assign_ident n id c [] = refl
  find_ident-assign_ident n id c ((k, d) ∷ rest) = elim (Bool-cases (id == k)) [
    | inl t ↦ ground (arith, t)
    | inr t ↦ ground (arith, t, find_ident-assign_ident n id c rest)
  ]

  -- A conversation in which a reply can get to its creator.
  unfoldable pub Answers :
      (ResponseClass → List ℕ → Option Response)
      → ℕ
      → List ℕ
      → Creator Message Response
      → Creator Message Response × Option (Conversation Message Response)
      → Conversation Message Response
      → Type 0
  Answers parse n bytes s (s', made) c =
      (made ≡ some c)
      × (s'.posted ≡ s.posted ++ (c ∷ []))
      × (find_ident n (on_complete parse (sent_id c) bytes s'.conversations) ≡ (
          if n == s.ident
          then some (handle_message parse bytes c)
          else find_ident n s.conversations))

  -- While identifiers fit 16 bits, starting a conversation on a valid path posts it to the worker, and a
  -- reply under the id that the message of this conversation is sent with is handled by this
  -- conversation and by no other.
  pub start-Answers :
      (parse : ResponseClass → List ℕ → Option Response) (target : Uri) (initiator : Message)
      (s : Creator Message Response) (kind : SearchConversationType × ResponseClass) (n : ℕ)
      (bytes : List ℕ)
      → kind_of target.path ≡ some kind
      → s.ident < 2 ^ 16
      → Answers parse n bytes s
          (start target initiator s)
          (new_conversation kind s.ident target initiator)
  unfolding Answers start started sent_id
  start-Answers parse target initiator s kind n bytes e small =
      let c : Conversation Message Response = new_conversation kind s.ident target initiator in
      let id : s.ident % 2 ^ 16 ≡ s.ident = omega arith in
      let handle = handle_message parse bytes in
      let cs = assign_ident s.ident c s.conversations in
      subst (λ o. Answers parse n bytes s (started target initiator s o) c) (sym e)
        (
          refl,
          refl,
          ap (λ (i : ℕ). find_ident n (call_at i handle cs)) id
              ∙ find_ident-call_at n s.ident handle cs
              ∙ ground (arith, find_ident-assign_ident n s.ident c s.conversations),
        )

  -- From the 65536th identifier on the message is sent with another id than the conversation is kept
  -- under: a reply to it does not get to the conversation, which stays as it was. It is handled by the
  -- conversation that is kept under the low 16 bits of the identifier, if there is one, and else by
  -- none; no other conversation changes.
  pub on_complete-misrouted :
      (parse : ResponseClass → List ℕ → Option Response) (bytes : List ℕ)
      (c : Conversation Message Response) (cs : List (ℕ × Conversation Message Response)) (n : ℕ)
      → find_ident c.ident cs ≡ some c
      → 2 ^ 16 ≤ c.ident
      → let replied = on_complete parse (sent_id c) bytes cs in
        (find_ident c.ident replied ≡ some c)
        × (find_ident n replied ≡ (
            if n == c.ident % 2 ^ 16
            then Option.map (handle_message parse bytes) (find_ident n cs)
            else find_ident n cs))
  unfolding sent_id
  on_complete-misrouted parse bytes c cs n here large =
      let moved =
        λ (k : ℕ). find_ident-call_at k (c.ident % 2 ^ 16) (handle_message parse bytes) cs in
      (moved c.ident ∙ ground (arith, here), moved n)
