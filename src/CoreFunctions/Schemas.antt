-- ===== src/CoreFunctions/Schemas.antt =====
-- oef-core-functions/src/cpp/lib/schema.hpp, the classes SchemaRef, Schema, Schemas and
-- SchemaDirectory: the versions of a data model under a name. The mutex serialises the calls.
pub mod Versions
use oef_mt_core.Base.{
  ℕ, ◌+◌, ◌-◌, ◌%◌, ◌^◌, Bool, true, false, List, [], ◌∷◌, ◌++◌, Option, none, some, length,
  if◌then◌else◌, ◌==◌, leb, is_empty,
}
use oef_mt_core.Karma.BucketsOf.{Name, same, find}
use oef_mt_core.CoreFunctions.Attributes.{DataModel}

pub record Schema : Type 0 where
  pub version : ℕ
  pub schema : DataModel

-- `std::numeric_limits<uint32_t>::max()`
abbrev pub newest : ℕ
newest = 2 ^ 32 - 1

abbrev pub version_for : ℕ → List Schema → ℕ
version_for version schemas = if version == newest then (length schemas + 1) % 2 ^ 32 else version

unfoldable pub add : ℕ → DataModel → List Schema → ℕ × List Schema
add version schema schemas =
    let v = version_for version schemas in
    (v, schemas ++ (record { version = v; schema = schema } ∷ []))

abbrev pub back : List Schema → Option Schema
back [] = none
back (s ∷ []) = some s
back (s ∷ rest) = back rest

-- The loop of `get`.
abbrev pub at_least : ℕ → List Schema → Option Schema
at_least version [] = none
at_least version (s ∷ rest) =
    let later = at_least version rest in if leb version s.version then some s else later

abbrev pub or_else : Option Schema → Option Schema → Option Schema
or_else none s = s
or_else (some s) _ = some s

unfoldable pub get : ℕ → List Schema → Option Schema
get version schemas =
    if is_empty schemas
    then none
    else if version == newest
    then back schemas
    else or_else (at_least version schemas) (back schemas)

abbrev pub get_in : ℕ → Option (List Schema) → Option Schema
get_in version none = none
get_in version (some schemas) = get version schemas

unfoldable pub directory_get : Name → ℕ → List (Name × List Schema) → Option Schema
directory_get key version directory = get_in version (find key directory)

-- `schemas_[key].add(version, schema)`
unfoldable pub directory_add :
    Name → ℕ → DataModel → List (Name × List Schema) → ℕ × List (Name × List Schema)
directory_add key version schema [] =
    let (v, schemas) = add version schema [] in (v, (key, schemas) ∷ [])
directory_add key version schema ((k, old) ∷ rest) =
    let later = directory_add key version schema rest in
    let changed = add version schema old in
    if same key k then (changed.0, (k, changed.1) ∷ rest) else (later.0, (k, old) ∷ later.1)
