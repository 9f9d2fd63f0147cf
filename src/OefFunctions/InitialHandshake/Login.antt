-- ===== src/OefFunctions/InitialHandshake/Login.antt =====
-- What the messages of the handshake and the end of a connection do to the directory of agents.
use oef_mt_core.Base.{
  ℕ, ◌≡◌, refl, ap, ◌∙◌, ◌⊎◌, inl, inr, Bool, true, false, List, [], Option, none, some, arith,
  if◌then◌else◌,
}
use oef_mt_core.Base.Int.{ℤ}
use oef_mt_core.Karma.BucketsOf.{Name, find}
use oef_mt_core.Karma.BucketsOf.Laws.{same_refl}
use oef_mt_core.Karma.KarmaPolicyBasic.{Thrown, Result, ok, throws, undefined}
use oef_mt_core.Karma.KarmaAccount.{upgrade, perform}
use oef_mt_core.Agents.{Agent, add, remove}
use oef_mt_core.Agents.Laws.{find-add}
use oef_mt_core.OefFunctions.InitialHandshake.{
  HandshakeState, waiting_for_agent_server_id, waiting_for_agent_server_answer, Factory,
  initial_handshake, oef_functions, Call, send_connected, oef_heartbeat, Endpoint, World, Outcome,
  returns, invalid_argument, unspecified, refused, login, call, endpoint_closed, after_login,
  closed_by, lost, got_id, admitted, got_answer, process_message,
}

-- The message left the directory alone and the endpoint in a handshake, or the agent is in the
-- directory and the endpoint handles its calls.
unfoldable pub Handled : Name → Endpoint → World → Endpoint × World × Outcome → Type 0
Handled key e w (e', w', o) =
    (e'.ident ≡ e.ident)
    × (((w'.agents ≡ w.agents)
          × ((s : HandshakeState) × (k : Name) × (e'.factory ≡ some (initial_handshake s k))))
        ⊎ ((w'.agents ≡ add key e.ident w.agents) × (e'.factory ≡ some (oef_functions key))))

-- What the end of a connection did: nothing, the end of a handshake, or the removal of an agent.
unfoldable pub Lost : Endpoint → World → Endpoint × World × Outcome → Type 0
Lost e w (e', w', o) =
    (e'.ident ≡ e.ident)
    × (((w'.agents ≡ w.agents) × (e'.factory ≡ e.factory))
        ⊎ (((w'.agents ≡ w.agents)
              × ((s : HandshakeState) × (k : Name) × (e.factory ≡ some (initial_handshake s k))))
            ⊎ ((k : Name) × (e.factory ≡ some (oef_functions k))
                × (w'.agents ≡ remove k w.agents)
                × (e'.factory ≡ none))))

-- Whether a call came to its end or refused the message, rather than the login.
unfoldable pub IsHandled : Outcome → Type 0
IsHandled returns = Unit
IsHandled invalid_argument = Unit
IsHandled unspecified = ⊥
IsHandled (refused x) = ⊥

same_agents : (c : Bool) (x : Call) (w : World) → (if c then call x w else w).agents ≡ w.agents
same_agents true x w = refl
same_agents false x w = refl

module _ (stoi : List ℕ → Option ℤ) where
  closed_by-Lost :
      (f : Option Factory) (e : Endpoint) (w : World) (r : Result Bool)
      → e.factory ≡ f
      → Lost e w (closed_by stoi f e w r)
  unfolding Lost endpoint_closed
  closed_by-Lost none e w (ok b) h = (refl, inl (refl, refl))
  closed_by-Lost none e w (throws x) h = (refl, inl (refl, refl))
  closed_by-Lost none e w undefined h = (refl, inl (refl, refl))
  closed_by-Lost (some (initial_handshake s k)) e w (ok b) h = (refl, inr (inl (refl, (s, k, h))))
  closed_by-Lost (some (initial_handshake s k)) e w (throws x) h = (refl, inl (refl, refl))
  closed_by-Lost (some (initial_handshake s k)) e w undefined h = (refl, inl (refl, refl))
  closed_by-Lost (some (oef_functions k)) e w (ok b) h = (refl, inr (inr (k, h, refl, refl)))
  closed_by-Lost (some (oef_functions k)) e w (throws x) h = (refl, inl (refl, refl))
  closed_by-Lost (some (oef_functions k)) e w undefined h = (refl, inl (refl, refl))

  pub lost-Lost : (action : Name) (e : Endpoint) (w : World) → Lost e w (lost stoi action e w)
  unfolding lost Lost
  lost-Lost action e w =
      let (p, r) = perform stoi w.policy e.karma action false in
      closed_by-Lost e.factory e (record w { policy = p }) r refl

  module _ (read_id : List ℕ → Option Name) (read_answer : List ℕ → Option Bool)
      (anonymous : Name) where
    after_login-Handled :
        (key : Name) (e : Endpoint) (w : World) (r : Result Bool) (agents : List (Name × Agent))
        → w.agents ≡ add key e.ident agents
        → IsHandled (after_login stoi key e w r).2
        → ((after_login stoi key e w r).0.ident ≡ e.ident)
          × ((after_login stoi key e w r).1.agents ≡ add key e.ident agents)
          × ((after_login stoi key e w r).0.factory ≡ some (oef_functions key))
    unfolding IsHandled
    after_login-Handled key e w (ok b) agents h i =
        (refl, same_agents e.will_heartbeat (oef_heartbeat e.ident) w ∙ h, refl)
    after_login-Handled key e w (throws x) agents h i = absurd i
    after_login-Handled key e w undefined agents h i = absurd i

    admitted-Handled :
        (key : Name) (e : Endpoint) (w : World) (o : Option ℕ) (agents : List (Name × Agent))
        → w.agents ≡ add key e.ident agents
        → IsHandled (admitted stoi read_id read_answer anonymous key e w o).2
        → ((admitted stoi read_id read_answer anonymous key e w o).0.ident ≡ e.ident)
          × ((admitted stoi read_id read_answer anonymous key e w o).1.agents
              ≡ add key e.ident agents)
          × ((admitted stoi read_id read_answer anonymous key e w o).0.factory
              ≡ some (oef_functions key))
    unfolding IsHandled
    admitted-Handled key e w none agents h i = absurd i
    admitted-Handled key e w (some self) agents h i =
        let (p, karma) = upgrade anonymous self [] key e.karma w.policy in
        let (p', r) = perform stoi p karma login false in
        after_login-Handled key (record e { karma = karma }) (record w { policy = p' }) r agents h i

    got_answer-Handled :
        (s : HandshakeState) (key : Name) (e : Endpoint) (w : World) (o : Option Bool)
        → e.factory ≡ some (initial_handshake s key)
        → IsHandled (got_answer stoi read_id read_answer anonymous key e w o).2
        → Handled key e w (got_answer stoi read_id read_answer anonymous key e w o)
    unfolding Handled
    got_answer-Handled s key e w none h i = (refl, inl (refl, (s, key, h)))
    got_answer-Handled s key e w (some b) h i =
        let (same_ident, entered, on) =
          admitted-Handled key (record e { will_heartbeat = b })
            (record (call (send_connected e.ident true) w) { agents = add key e.ident w.agents })
            e.karma.policy w.agents refl i in
        (same_ident, inr (entered, on))

    got_id-Handled :
        (s : HandshakeState) (key : Name) (e : Endpoint) (w : World) (o : Option Name)
        → e.factory ≡ some (initial_handshake s key)
        → Handled key e w (got_id stoi read_id read_answer anonymous e w o)
    unfolding Handled
    got_id-Handled s key e w none h = (refl, inl (refl, (s, key, h)))
    got_id-Handled s key e w (some k) h =
        (refl, inl (refl, (waiting_for_agent_server_answer, k, refl)))

    pub process_message-Handled :
        (s : HandshakeState) (key : Name) (data_ : List ℕ) (e : Endpoint) (w : World)
        → e.factory ≡ some (initial_handshake s key)
        → IsHandled (process_message stoi read_id read_answer anonymous s key data_ e w).2
        → Handled key e w (process_message stoi read_id read_answer anonymous s key data_ e w)
    unfolding process_message
    process_message-Handled waiting_for_agent_server_id key data_ e w h i =
        got_id-Handled waiting_for_agent_server_id key e w (read_id data_) h
    process_message-Handled waiting_for_agent_server_answer key data_ e w h i =
        got_answer-Handled waiting_for_agent_server_answer key e w (read_answer data_) h i

    after_login-refused :
        (key : Name) (e : Endpoint) (w : World) (r : Result Bool) {x : Thrown}
        → (after_login stoi key e w r).2 ≡ refused x
        → after_login stoi key e w r ≡ (e, w, refused x)
    after_login-refused key e w (ok b) h = absurd (grind arith)
    after_login-refused key e w (throws y) h = ap (λ o. (e, w, o)) h
    after_login-refused key e w undefined h = absurd (grind arith)

    admitted-refused :
        (key : Name) (e : Endpoint) (w : World) (o : Option ℕ) {x : Thrown}
        → (admitted stoi read_id read_answer anonymous key e w o).2 ≡ refused x
        → ((admitted stoi read_id read_answer anonymous key e w o).1.agents ≡ w.agents)
          × ((admitted stoi read_id read_answer anonymous key e w o).0.factory ≡ e.factory)
    admitted-refused key e w none h = absurd (grind arith)
    admitted-refused key e w (some self) h =
        let (p, karma) = upgrade anonymous self [] key e.karma w.policy in
        let (p', r) = perform stoi p karma login false in
        let whole =
          after_login-refused key (record e { karma = karma }) (record w { policy = p' }) r h in
        (ap (λ t. t.1.agents) whole, ap (λ t. t.0.factory) whole)

    got_answer-refused :
        (key : Name) (e : Endpoint) (w : World) (o : Option Bool) {x : Thrown}
        → (got_answer stoi read_id read_answer anonymous key e w o).2 ≡ refused x
        → ((got_answer stoi read_id read_answer anonymous key e w o).1.agents
            ≡ add key e.ident w.agents)
          × ((got_answer stoi read_id read_answer anonymous key e w o).0.factory ≡ e.factory)
    got_answer-refused key e w none h = absurd (grind arith)
    got_answer-refused key e w (some b) h =
        admitted-refused key (record e { will_heartbeat = b })
          (record (call (send_connected e.ident true) w) { agents = add key e.ident w.agents })
          e.karma.policy h

    -- The agent of a login that was refused is in the directory all the same, and the end of the
    -- connection takes nothing out of it, whatever happened in between and however it ends.
    pub refused-stays :
        (key n : Name) (data_ : List ℕ) (e : Endpoint) (w later : World) (action : Name)
        {x : Thrown}
        → e.factory ≡ some (initial_handshake waiting_for_agent_server_answer key)
        → (process_message stoi read_id read_answer anonymous waiting_for_agent_server_answer key
            data_ e w).2
          ≡ refused x
        → let (e', w', o) =
            process_message stoi read_id read_answer anonymous waiting_for_agent_server_answer key
              data_ e w in
          (find key w'.agents ≡ some (record { key = key; endpoint = e.ident }))
          × (find n (lost stoi action e' later).1.agents ≡ find n later.agents)
    unfolding process_message Lost
    refused-stays key n data_ e w later action h r =
        let (entered, same_factory) = got_answer-refused key e w (read_answer data_) r in
        let e' = (got_answer stoi read_id read_answer anonymous key e w (read_answer data_)).0 in
        (
          ap (find key) entered
              ∙ find-add key key e.ident w.agents
              ∙ ap
                  (λ c.
                    if c
                    then some (record { key = key; endpoint = e.ident })
                    else find key w.agents)
                  (same_refl key),
          elim (lost-Lost action e' later).1 [
            | inl (stays, f) ↦ ap (find n) stays
            | inr (inl (stays, rest)) ↦ ap (find n) stays
            | inr (inr (k, f, gone, reset)) ↦ absurd (grind arith)
          ],
        )
