-- ===== src/OefFunctions/InitialHandshake.antt =====
-- mt-core/oef-functions/src/cpp/InitialHandshakeTaskFactory.cpp, endpointClosed of
-- OefFunctionsTaskFactory.cpp, and setState, setFactory and the handlers for the end of a connection
-- of mt-core/comms/src/cpp/OefAgentEndpoint.cpp. `IOefAgentTaskFactory::read` of the two messages and
-- std::stoi are parameters, `none` where they throw. The tasks that are submitted and the groups
-- that are cancelled are kept in order.
pub mod Live
pub mod Login
use oef_mt_core.Base.{ℕ, Bool, true, false, List, [], ◌∷◌, ◌++◌, Option, none, some, if◌then◌else◌}
use oef_mt_core.Base.Int.{ℤ}
use oef_mt_core.Karma.BucketsOf.{Name, same}
use oef_mt_core.Karma.KarmaPolicyBasic.{Policy, Thrown, Result, ok, throws, undefined}
use oef_mt_core.Karma.KarmaAccount.{KarmaAccount, upgrade, perform}
use oef_mt_core.Agents.{Agent, add, remove}

pub data HandshakeState : Type 0 where
  waiting_for_agent_server_id waiting_for_agent_server_answer : HandshakeState

-- The factory that handles the messages of an endpoint, with its public key.
pub data Factory : Type 0 where
  initial_handshake : HandshakeState → Name → Factory
  oef_functions : Name → Factory

pub data Call : Type 0 where
  send_phrase : ℕ → Call
  send_connected : ℕ → Bool → Call
  oef_heartbeat : ℕ → Call
  search_remove : ℕ → Name → Call
  cancel_task_group : ℕ → Call

-- OefAgentEndpoint; a factory that was reset is `none`.
pub record Endpoint : Type 0 where
  pub ident : ℕ
  pub factory : Option Factory
  pub karma : KarmaAccount
  pub will_heartbeat : Bool
  pub states : List (Name × Bool)

-- What the endpoints share.
pub record World : Type 0 where
  pub agents : List (Name × Agent)
  pub policy : Policy
  pub calls : List Call

-- `unspecified` is a call through a null pointer, or one that the policy leaves undefined.
pub data Outcome : Type 0 where
  returns invalid_argument unspecified : Outcome
  refused : Thrown → Outcome

-- "login" and "loggedin".
abbrev pub login : Name
login = 108 ∷ 111 ∷ 103 ∷ 105 ∷ 110 ∷ []

abbrev pub loggedin : Name
loggedin = 108 ∷ 111 ∷ 103 ∷ 103 ∷ 101 ∷ 100 ∷ 105 ∷ 110 ∷ []

unfoldable pub set_state : Name → Bool → List (Name × Bool) → List (Name × Bool)
set_state name value [] = (name, value) ∷ []
set_state name value ((k, old) ∷ rest) =
    let later = set_state name value rest in
    if same name k then (k, value) ∷ rest else (k, old) ∷ later

abbrev pub call : Call → World → World
call c w = record w { calls = w.calls ++ (c ∷ []) }

-- `endpointClosed` of the two factories.
unfoldable pub endpoint_closed : Factory → ℕ → World → World
endpoint_closed (initial_handshake state key) ident w = w
endpoint_closed (oef_functions key) ident w =
    call (search_remove ident key) (record w { agents = remove key w.agents })

module _ (stoi : List ℕ → Option ℤ) where
  abbrev pub after_login : Name → Endpoint → World → Result Bool → Endpoint × World × Outcome
  after_login key e w (ok _) = (
    record e { states = set_state loggedin true e.states; factory = some (oef_functions key) },
    if e.will_heartbeat then call (oef_heartbeat e.ident) w else w,
    returns,
  )
  after_login key e w (throws x) = (e, w, refused x)
  after_login key e w undefined = (e, w, unspecified)

  abbrev pub cleared : Factory → Endpoint → World → Result Bool → Endpoint × World × Outcome
  cleared factory e w (ok _) = (
    record e { factory = none },
    call (cancel_task_group e.ident) (endpoint_closed factory e.ident w),
    returns,
  )
  cleared factory e w (throws x) = (e, w, refused x)
  cleared factory e w undefined = (e, w, unspecified)

  abbrev pub closed_by :
      Option Factory → Endpoint → World → Result Bool → Endpoint × World × Outcome
  closed_by (some factory) e w r = cleared factory e w r
  closed_by none e w (throws x) = (e, w, refused x)
  closed_by none e w _ = (e, w, unspecified)

  -- The handlers for an error, the end of the stream and an error in the protocol, with the action
  -- that each performs: "error.comms", "eof" and "error.proto".
  unfoldable pub lost : Name → Endpoint → World → Endpoint × World × Outcome
  lost action e w =
      let (p, r) = perform stoi w.policy e.karma action false in
      closed_by e.factory e (record w { policy = p }) r

  module _ (read_id : List ℕ → Option Name) (read_answer : List ℕ → Option Bool)
      (anonymous : Name) where
    abbrev pub got_id : Endpoint → World → Option Name → Endpoint × World × Outcome
    got_id e w none = (e, w, invalid_argument)
    got_id e w (some key) = (
      record e { factory = some (initial_handshake waiting_for_agent_server_answer key) },
      call (send_phrase e.ident) w,
      returns,
    )

    -- `karma.upgrade("", public_key_)` and `karma.perform("login")`.
    abbrev pub admitted : Name → Endpoint → World → Option ℕ → Endpoint × World × Outcome
    admitted key e w none = (e, w, unspecified)
    admitted key e w (some self) =
        let (p, karma) = upgrade anonymous self [] key e.karma w.policy in
        let (p', r) = perform stoi p karma login false in
        after_login key (record e { karma = karma }) (record w { policy = p' }) r

    abbrev pub got_answer : Name → Endpoint → World → Option Bool → Endpoint × World × Outcome
    got_answer key e w none = (e, w, invalid_argument)
    got_answer key e w (some will_heartbeat) =
        admitted key (record e { will_heartbeat = will_heartbeat })
          (record (call (send_connected e.ident true) w) { agents = add key e.ident w.agents })
          e.karma.policy

    -- `InitialHandshakeTaskFactory::processMessage`
    unfoldable pub process_message :
        HandshakeState → Name → List ℕ → Endpoint → World → Endpoint × World × Outcome
    process_message waiting_for_agent_server_id key data_ e w = got_id e w (read_id data_)
    process_message waiting_for_agent_server_answer key data_ e w =
        got_answer key e w (read_answer data_)
