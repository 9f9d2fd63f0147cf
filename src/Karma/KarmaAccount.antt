-- ===== src/Karma/KarmaAccount.antt =====
-- mt-core/karma/src/cpp/KarmaAccount.hpp and KarmaAccount.cpp: the handle that a connection holds on
-- its account. A policy object is a number, and the null pointer is `none`. One policy is at work.
pub mod Laws
use oef_mt_core.Base.{
  ℕ, Bool, true, false, List, Option, none, some, ltb, ◌==◌, if◌then◌else◌, is_empty,
}
use oef_mt_core.Base.Int.{ℤ, pos, negsuc}
use oef_mt_core.Karma.BucketsOf.{Name, get}
use oef_mt_core.Karma.KarmaPolicyBasic.{
  Policy, Result, ok, throws, undefined, new_account, bucket_size,
}
use oef_mt_core.Karma.KarmaPolicyBasic

pub record KarmaAccount : Type 0 where
  pub id : ℕ
  pub policy : Option ℕ
  pub name : Name

pub same_policy : Option ℕ → Option ℕ → Bool
same_policy none none = true
same_policy (some p) (some q) = p == q
same_policy _ _ = false

-- `none` is the logic_error.
pub compare : KarmaAccount → KarmaAccount → Option ℤ
compare a b =
    if same_policy a.policy b.policy
    then some (if ltb b.id a.id then pos 1 else if ltb a.id b.id then negsuc 0 else pos 0)
    else none

-- `none` is the logic_error.
pub swap : KarmaAccount → KarmaAccount → Option (KarmaAccount × KarmaAccount)
swap a b =
    if same_policy a.policy b.policy
    then some (record a { id = b.id; name = b.name }, record b { id = a.id; name = a.name })
    else none

-- `mkAccount` of the policy whose number is `self`.
abbrev mk_account : ℕ → ℕ → Name → KarmaAccount
mk_account self number name = record { id = number; policy = some self; name = name }

abbrev numbered : ℕ → Name → Policy → Policy × KarmaAccount
numbered self name p =
    let (accounts, number) = get new_account bucket_size name p.accounts in
    (record p { accounts = accounts }, mk_account self number name)

-- `KarmaPolicyBasic::getAccount`; `anonymous` is the text "DEFAULT_KARMA_ACCOUNT".
abbrev pub get_account : Name → ℕ → Name → Name → Policy → Policy × KarmaAccount
get_account anonymous self pubkey ip p =
    if is_empty pubkey
    then if is_empty ip then (p, mk_account self 0 anonymous) else numbered self ip p
    else numbered self pubkey p

-- `KarmaPolicyBasic::upgrade`, whose std::swap copies the account that it got in.
abbrev pub upgrade : Name → ℕ → Name → Name → KarmaAccount → Policy → Policy × KarmaAccount
upgrade anonymous self pubkey ip account p = get_account anonymous self pubkey ip p

module _ (stoi : List ℕ → Option ℤ) where
  abbrev perform_by : Option ℕ → Policy → ℕ → Name → Policy × Result Bool
  perform_by none p id action = (p, ok false)
  perform_by (some _) p id action = KarmaPolicyBasic.perform stoi p id action false

  -- `force` is not handed on.
  abbrev pub perform : Policy → KarmaAccount → Name → Bool → Policy × Result Bool
  perform p account action force = perform_by account.policy p account.id action

  abbrev could_perform_by : Option ℕ → Policy → ℕ → Name → Policy × Result Bool
  could_perform_by none p id action = (p, ok false)
  could_perform_by (some _) p id action = KarmaPolicyBasic.could_perform stoi p id action

  abbrev pub could_perform : Policy → KarmaAccount → Name → Policy × Result Bool
  could_perform p account action = could_perform_by account.policy p account.id action
