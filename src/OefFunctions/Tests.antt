-- ===== src/OefFunctions/Tests.antt =====
-- Concrete logins. The first byte of a message is the name of the agent, and an answer is a
-- heartbeat or none.
use oef_mt_core.Base.{
  ℕ, ◌≡◌, refl, sym, subst, Bool, false, List, [], ◌∷◌, Option, none, some, arith, ◌==◌,
}
use oef_mt_core.Base.Int.{ℤ, pos, negsuc}
use oef_mt_core.Karma.BucketsOf.{
  Name, BucketsOf, same, find, get_elem?_of, numbered, get, access, put_in, put,
}
use oef_mt_core.Karma.KarmaPolicyBasic.{
  Account, Policy, x_karma, tokenise_rounds, tokens_at, find_first_not_of, find_char, first_from,
  substr, policy_or_default, is_signed_digit, plus, int32, worst_of, worse, bring_up_to_date,
  afterwards, get_policies, charge, tokenise, get_policy, parse_effect, settle, is_allowed,
}
use oef_mt_core.Base.Int.{◌+ℤ◌}
use oef_mt_core.OefFunctions.InitialHandshake.{
  waiting_for_agent_server_answer, initial_handshake, oef_functions, Endpoint, World, returns,
  refused, login, process_message, lost,
}
use oef_mt_core.OefFunctions.InitialHandshake.Login.{IsHandled, refused-stays}
use oef_mt_core.OefFunctions.InitialHandshake.Live.{
  System, IsLive, after, Step, Run, Run-IsLive, superseded_gone,
}

abbrev anna : Name
anna = 97 ∷ []

abbrev read_id : List ℕ → Option Name
read_id [] = none
read_id (c ∷ cs) = some (c ∷ [])

abbrev read_answer : List ℕ → Option Bool
read_answer [] = none
read_answer (c ∷ cs) = some (c == 1)

-- The price of a login, which is the only text that is read.
abbrev cheap : List ℕ → Option ℤ
cheap cs = some (negsuc 4)

abbrev dear : List ℕ → Option ℤ
dear cs = some (negsuc 20000)

abbrev accounts : BucketsOf Account
accounts = record {
  buckets = (record { karma = pos 100; when = 0 } ∷ []) ∷ [];
  names = (anna, 0) ∷ [];
  size = 1;
}

abbrev policy : Policy
policy = record {
  tick_amounts = 1;
  tick_counter = 0;
  accounts = accounts;
  config = (login, (45 ∷ 53 ∷ [])) ∷ [];
}

abbrev world : World
world = record { agents = []; policy = policy; calls = [] }

abbrev shaking : ℕ → Endpoint
shaking i = record {
  ident = i;
  factory = some (initial_handshake waiting_for_agent_server_answer anna);
  karma = record { id = 0; policy = some 1; name = anna };
  will_heartbeat = false;
  states = [];
}

refused_login :
    (process_message dear read_id read_answer [] waiting_for_agent_server_answer anna
      (1 ∷ [])
      (shaking 3)
      world).2
    ≡ refused x_karma
unfolding process_message same find get_elem?_of numbered get access put_in put tokenise_rounds
    tokens_at find_first_not_of find_char first_from substr policy_or_default is_signed_digit plus
    int32 worst_of worse bring_up_to_date afterwards get_policies charge tokenise get_policy
    parse_effect settle is_allowed ◌+ℤ◌
refused_login = refl

granted_login :
    (process_message cheap read_id read_answer [] waiting_for_agent_server_answer anna
      (1 ∷ [])
      (shaking 3)
      world).2
    ≡ returns
unfolding process_message same find get_elem?_of numbered get access put_in put tokenise_rounds
    tokens_at find_first_not_of find_char first_from substr policy_or_default is_signed_digit plus
    int32 worst_of worse bring_up_to_date afterwards get_policies charge tokenise get_policy
    parse_effect settle is_allowed ◌+ℤ◌
granted_login = refl

refused-stays_example :
    let (e', w', o) =
      process_message dear read_id read_answer [] waiting_for_agent_server_answer anna
        (1 ∷ [])
        (shaking 3)
        world in
    (find anna w'.agents ≡ some (record { key = anna; endpoint = 3 }))
    × (find anna (lost dear login e' w').1.agents ≡ find anna w'.agents)
refused-stays_example =
    refused-stays dear read_id read_answer [] anna anna (1 ∷ []) (shaking 3) world
      (process_message dear read_id read_answer [] waiting_for_agent_server_answer anna (1 ∷ [])
        (shaking 3) world).1
      login refl refused_login

abbrev at_start : System
at_start = record { endpoints = shaking; world = world }

at_start-IsLive : IsLive at_start
unfolding IsLive find
at_start-IsLive = ((λ i. refl), λ n a found. absurd (grind arith))

abbrev with_anna : System
with_anna = after 3 at_start (
    process_message cheap read_id read_answer [] waiting_for_agent_server_answer anna (1 ∷ [])
      (shaking 3) world)

granted_login-IsHandled :
    IsHandled
      (process_message cheap read_id read_answer [] waiting_for_agent_server_answer anna
        (1 ∷ [])
        (shaking 3)
        world).2
unfolding IsHandled
granted_login-IsHandled = subst IsHandled (sym granted_login) tt

-- Endpoint 3 logs in, then endpoint 4 fails.
abbrev run :
    Run cheap read_id read_answer [] at_start
      (after 4 with_anna (lost cheap login (with_anna.endpoints 4) with_anna.world))
run =
    Run.next
      (Step.message 3 waiting_for_agent_server_answer anna (1 ∷ []) refl granted_login-IsHandled)
      (Run.next (Step.end 4 login) Run.done)

Run-IsLive_example :
    IsLive (after 4 with_anna (lost cheap login (with_anna.endpoints 4) with_anna.world))
Run-IsLive_example = Run-IsLive cheap read_id read_answer [] run at_start-IsLive

-- Endpoints 3 and 5 and all others are logged in as one agent.
abbrev twice : System
twice = record {
  endpoints = λ i. record (shaking i) { factory = some (oef_functions anna) };
  world = record world { agents = (anna, record { key = anna; endpoint = 5 }) ∷ [] };
}

granted_end : (lost cheap login (twice.endpoints 3) twice.world).2 ≡ returns
unfolding lost same find get_elem?_of numbered get access put_in put tokenise_rounds tokens_at
    find_first_not_of find_char first_from substr policy_or_default is_signed_digit plus int32
    worst_of worse bring_up_to_date afterwards get_policies charge tokenise get_policy parse_effect
    settle is_allowed ◌+ℤ◌
granted_end = refl

superseded_gone_example :
    let t = after 3 twice (lost cheap login (twice.endpoints 3) twice.world) in
    (find anna t.world.agents ≡ none) × ((t.endpoints 5).factory ≡ some (oef_functions anna))
superseded_gone_example =
    superseded_gone cheap login anna twice 3 5 (λ h. absurd (omega (arith, h))) refl refl
      granted_end
