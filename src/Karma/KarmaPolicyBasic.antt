-- ===== src/Karma/KarmaPolicyBasic.antt =====
-- mt-core/karma/src/cpp/KarmaPolicyBasic.cpp. Threads do not meet here: one call runs after the other,
-- so the compare-and-exchange of bringUpToDate succeeds at once. `std::stoi` is a parameter, `none`
-- where it throws.
pub mod Laws
use oef_mt_core.Base.{
  ℕ, zero, suc, ◌+◌, ◌-◌, ◌*◌, ◌^◌, ◌%◌, Bool, true, false, not, ◌&&◌, ◌||◌, List, [], ◌∷◌, ◌++◌,
  Option, none, some, map, min, length, take, drop, if◌then◌else◌, ◌==◌, leb, is_empty,
}
use oef_mt_core.Base.Int.{ℤ, pos, negsuc, ◌+ℤ◌, ltb_ℤ, to_size}
use oef_mt_core.Karma.BucketsOf.{Name, BucketsOf, find, access, put, empty}
use oef_mt_core.Karma.BucketsOf

abbrev pub max_karma : ℕ
max_karma = 10000

pub data Thrown : Type 0 where
  x_karma x_disconnect stoi_error : Thrown

-- `undefined` is a signed overflow, or an account number without an account.
pub data Result (A : Type 0) : Type 0 where
  ok : A → Result A
  throws : Thrown → Result A
  undefined : Result A

pub record Account : Type 0 where
  pub karma : ℤ
  pub when : ℕ

abbrev pub new_account : Account
new_account = record { karma = pos max_karma; when = 0 }

-- The two counters of the file, and the policy's own fields.
pub record Policy : Type 0 where
  pub tick_amounts : ℕ
  pub tick_counter : ℕ
  pub accounts : BucketsOf Account
  pub config : List (Name × Name)

-- `Account::bringUpToDate`: the sum is one of size_t.
unfoldable pub bring_up_to_date : ℕ → ℕ → Account → Account
bring_up_to_date amounts tc a =
    let diff = (tc + 2 ^ 64 - a.when) % 2 ^ 64 in
    let new_karma = min ((to_size a.karma + diff * amounts) % 2 ^ 64) max_karma in
    record { karma = pos new_karma; when = tc }

abbrev pub bucket_size : ℕ
bucket_size = 1024

-- `find_first_not_of` and `find` from a position, `none` for npos.
unfoldable pub first_from : (ℕ → Bool) → ℕ → List ℕ → Option ℕ
first_from p i [] = none
first_from p i (c ∷ cs) = let later = first_from p (suc i) cs in if p c then some i else later

unfoldable pub find_first_not_of : ℕ → List ℕ → Option ℕ → Option ℕ
find_first_not_of delim input none = none
find_first_not_of delim input (some i) = first_from (λ c. not (c == delim)) i (drop i input)

unfoldable pub find_char : ℕ → List ℕ → ℕ → Option ℕ
find_char delim input i = first_from (λ c. c == delim) i (drop i input)

-- `input.substr(start, end - start)`
unfoldable pub substr : List ℕ → ℕ → Option ℕ → List ℕ
substr input start none = drop start input
substr input start (some end) = take (end - start) (drop start input)

unfoldable pub tokens_at : (Option ℕ → List (List ℕ)) → List ℕ → ℕ → Option ℕ → List (List ℕ)
tokens_at again input delim none = []
tokens_at again input delim (some start) =
    let end = find_char delim input start in substr input start end ∷ again end

-- The loop of `tokenise`, with the number of rounds that are left.
unfoldable pub tokenise_rounds : ℕ → List ℕ → ℕ → Option ℕ → List (List ℕ)
tokenise_rounds zero input delim end = []
tokenise_rounds (suc fuel) input delim end =
    tokens_at (tokenise_rounds fuel input delim) input delim (find_first_not_of delim input end)

-- Each round but the last reads one character at least.
unfoldable pub tokenise : List ℕ → ℕ → List (List ℕ)
tokenise input delim = tokenise_rounds (suc (length input)) input delim (some 0)

-- The characters that the file tests.
abbrev pub comma : ℕ
comma = 44

abbrev star : Name
star = 42 ∷ []

abbrev zero_text : Name
zero_text = 48 ∷ []

unfoldable pub default_policy : Option Name → Name
default_policy none = zero_text
default_policy (some effect) = effect

unfoldable pub policy_or_default : List (Name × Name) → Option Name → Name
policy_or_default config (some effect) = effect
policy_or_default config none = default_policy (find star config)

unfoldable pub get_policy : List (Name × Name) → Name → Name
get_policy config action = policy_or_default config (find action config)

unfoldable pub get_policies : List (Name × Name) → Name → List Name
get_policies config action =
    let actions = tokenise action comma in
    map (get_policy config) (if is_empty actions then star ∷ [] else actions)

unfoldable pub int32 : ℤ → Result ℤ
int32 (pos n) = if leb n (2 ^ 31 - 1) then ok (pos n) else undefined
int32 (negsuc n) = if leb n (2 ^ 31 - 1) then ok (negsuc n) else undefined

unfoldable pub is_signed_digit : ℕ → Bool
is_signed_digit c = (leb 48 c && leb c 57) || (c == 43) || (c == 45)

unfoldable pub plus : ℤ → Option ℤ → Result ℤ
plus balance none = throws stoi_error
plus balance (some delta) = int32 (balance +ℤ delta)

unfoldable pub exactly : Option ℤ → Result ℤ
exactly none = throws stoi_error
exactly (some v) = ok v

module _ (stoi : List ℕ → Option ℤ) where
  -- 88 is 'X' and 61 is '='; an empty text has the character 0 at its front.
  unfoldable pub parse_effect : ℤ → Name → Result ℤ
  parse_effect balance [] = ok balance
  parse_effect balance (c ∷ cs) =
      if c == 88
      then throws x_disconnect
      else if is_signed_digit c
      then plus balance (stoi (c ∷ cs))
      else if c == 61
      then exactly (stoi cs)
      else ok balance

  unfoldable pub worse : Result ℤ → ℤ → (ℤ → Result ℤ) → Result ℤ
  worse (ok r) worst again = again (if ltb_ℤ r worst then r else worst)
  worse (throws x) worst again = throws x
  worse undefined worst again = undefined

  -- The loop of `afterwards` with the worst so far. Its handler rethrows an XKarma as an XKarma, and
  -- lets the others through.
  unfoldable pub worst_of : ℤ → List Name → ℤ → Result ℤ
  worst_of balance [] worst = ok worst
  worst_of balance (effect ∷ effects) worst =
      worse (parse_effect balance effect) worst (worst_of balance effects)

  unfoldable pub afterwards : List (Name × Name) → ℤ → Name → Result ℤ
  afterwards config balance actions = worst_of balance (get_policies config actions) balance

  unfoldable pub is_allowed : ℤ → Bool → Bool
  is_allowed (pos n) force = true
  is_allowed (negsuc n) force = force

  unfoldable pub settle : Account → Bool → Result ℤ → Account × Result Bool
  settle a force (ok next) =
      if is_allowed next force then (record a { karma = next }, ok true) else (a, throws x_karma)
  settle a force (throws x) = (a, throws x)
  settle a force undefined = (a, undefined)

  -- `perform` on the account that it accesses.
  unfoldable pub charge : Policy → Name → Bool → Account → Account × Result Bool
  charge p event force a =
      let now = bring_up_to_date p.tick_amounts p.tick_counter a in
      settle now force (afterwards p.config now.karma event)

  abbrev perform_at : Policy → ℕ → Name → Bool → Option Account → Policy × Result Bool
  perform_at p id event force none = (p, undefined)
  perform_at p id event force (some a) =
      let (a', r) = charge p event force a in
      (record p { accounts = put new_account bucket_size id a' p.accounts }, r)

  abbrev pub perform : Policy → ℕ → Name → Bool → Policy × Result Bool
  perform p id event force =
      perform_at p id event force (access new_account bucket_size id p.accounts)

  abbrev possible : Result ℤ → Result Bool
  possible (ok next) = ok (is_allowed next false)
  possible (throws x) = throws x
  possible undefined = undefined

  abbrev could_at : Policy → ℕ → Name → Option Account → Policy × Result Bool
  could_at p id action none = (p, undefined)
  could_at p id action (some a) =
      let now = bring_up_to_date p.tick_amounts p.tick_counter a in
      (
        record p { accounts = put new_account bucket_size id now p.accounts },
        possible (afterwards p.config now.karma (get_policy p.config action)),
      )

  abbrev pub could_perform : Policy → ℕ → Name → Policy × Result Bool
  could_perform p id action = could_at p id action (access new_account bucket_size id p.accounts)

  abbrev refreshed : Policy → Result ℤ → Policy × Result Bool
  refreshed p (ok amount) = (
    record p { tick_amounts = to_size amount; tick_counter = suc p.tick_counter % 2 ^ 64 },
    ok true,
  )
  refreshed p (throws x) = (p, throws x)
  refreshed p undefined = (p, undefined)

  abbrev first_of : List Name → Name
  first_of [] = []
  first_of (x ∷ xs) = x

  abbrev pub refresh_cycle : List ℕ → Policy → Policy × Result Bool
  refresh_cycle refresh p =
      refreshed p (parse_effect (pos 0) (first_of (get_policies p.config refresh)))
