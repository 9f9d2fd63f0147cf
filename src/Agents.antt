-- ===== src/Agents.antt =====
-- mt-core/agents/src/cpp/Agents.cpp and Agent.hpp: the agents that are logged in, under their public
-- keys. An endpoint is its number. The mutex serialises the calls, and `std::map::find` is that of
-- the stores of accounts.
pub mod Laws
use oef_mt_core.Base.{ℕ, List, [], ◌∷◌, if◌then◌else◌}
use oef_mt_core.Karma.BucketsOf.{Name, same}

pub record Agent : Type 0 where
  pub key : Name
  pub endpoint : ℕ

-- `agents[key] = ...`, in place or as a new entry.
unfoldable pub add : Name → ℕ → List (Name × Agent) → List (Name × Agent)
add key endpoint [] = (key, record { key = key; endpoint = endpoint }) ∷ []
add key endpoint ((k, agent) ∷ rest) =
    let later = add key endpoint rest in
    if same key k then (k, record { key = key; endpoint = endpoint }) ∷ rest else (k, agent) ∷ later

-- `agents.erase(key)`
unfoldable pub remove : Name → List (Name × Agent) → List (Name × Agent)
remove key [] = []
remove key ((k, agent) ∷ rest) =
    let later = remove key rest in if same key k then later else (k, agent) ∷ later
