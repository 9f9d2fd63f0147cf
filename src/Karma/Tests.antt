-- ===== src/Karma/Tests.antt =====
-- Concrete runs of the karma policy and its store of accounts.
use oef_mt_core.Base.{ℕ, ◌+◌, ◌-◌, ◌*◌, ◌≡◌, refl, false, List, [], ◌∷◌, Option, none, some, arith}
use oef_mt_core.Base.Int.{ℤ, pos, negsuc, ◌≤ℤ◌, ◌+ℤ◌}
use oef_mt_core.Karma.BucketsOf.{Name, BucketsOf, get, empty, same, find}
use oef_mt_core.Karma.BucketsOf.Laws.{IsValid, Numbered, get_lem, empty-IsValid}
use oef_mt_core.Karma.KarmaPolicyBasic.{
  Account, Policy, ok, tokenise_rounds, tokens_at, find_first_not_of, find_char, first_from, substr,
  policy_or_default, is_signed_digit, plus, int32, worst_of, worse, bring_up_to_date, afterwards,
  get_policies, charge, tokenise, comma, get_policy, parse_effect,
}
use oef_mt_core.Karma.KarmaPolicyBasic.Laws.{InBounds, AtLeast, Charged, afterwards_lem, charge_lem}

-- A reader of decimal digits after an optional sign; 45 is '-'.
abbrev digits : ℕ → List ℕ → ℕ
digits n [] = n
digits n (c ∷ cs) = digits (n * 10 + (c - 48)) cs

abbrev stoi : List ℕ → Option ℤ
stoi [] = none
stoi (c ∷ cs) = some (negsuc (digits 0 cs - 1))

-- "a" costs 5, "b" costs 20.
abbrev prices : List (Name × Name)
prices = ((97 ∷ []), (45 ∷ 53 ∷ [])) ∷ ((98 ∷ []), (45 ∷ 50 ∷ 48 ∷ [])) ∷ []

abbrev action : Name
action = 97 ∷ 44 ∷ 98 ∷ []

action-tokens : tokenise action comma ≡ (97 ∷ []) ∷ (98 ∷ []) ∷ []
unfolding tokenise tokenise_rounds tokens_at first_from find_first_not_of find_char substr
action-tokens = refl

abbrev blank : ℕ
blank = 0

abbrev one_name : BucketsOf ℕ
one_name = (get blank 8 (97 ∷ []) empty).0

one_name-IsValid : IsValid 8 one_name
unfolding Numbered
one_name-IsValid = (get_lem 8 blank empty (97 ∷ []) (97 ∷ []) (omega arith) (empty-IsValid ℕ 8)).0

get_lem_example : Numbered 8 blank (98 ∷ []) (97 ∷ []) one_name (get blank 8 (98 ∷ []) one_name)
get_lem_example = get_lem 8 blank one_name (98 ∷ []) (97 ∷ []) (omega arith) one_name-IsValid

abbrev account : Account
account = record { karma = pos 9900; when = 2 }

action_run : afterwards stoi prices (pos 10) action ≡ ok (negsuc 9)
unfolding afterwards worst_of worse get_policies tokenise tokenise_rounds tokens_at first_from
    find_first_not_of find_char substr get_policy policy_or_default find same parse_effect
    is_signed_digit plus int32 ◌+ℤ◌
action_run = refl

afterwards_lem_example :
    (negsuc 9 ≤ℤ pos 10) × AtLeast stoi (negsuc 9) (pos 10) (get_policies prices action)
afterwards_lem_example = afterwards_lem stoi prices (pos 10) action (negsuc 9) action_run

abbrev policy : Policy
policy = record { tick_amounts = 30; tick_counter = 4; accounts = empty; config = prices }

charge_lem_example :
    let now = bring_up_to_date 30 4 account in
    InBounds (charge stoi policy action false account).0
    × Charged stoi now false
        (afterwards stoi prices now.karma action)
        (charge stoi policy action false account)
charge_lem_example = charge_lem stoi policy action account
