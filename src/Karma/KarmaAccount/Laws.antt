-- ===== src/Karma/KarmaAccount/Laws.antt =====
-- Comparing and swapping the handles of accounts.
use oef_mt_core.Base.{
  ℕ, zero, suc, ◌≡◌, refl, Bool, true, false, Option, none, some, arith, ltb, if◌then◌else◌,
}
use oef_mt_core.Base.Int.{ℤ, pos, negsuc}
use oef_mt_core.Karma.KarmaAccount.{KarmaAccount, same_policy, compare, swap}

same_policy_comm : (p q : Option ℕ) → same_policy p q ≡ same_policy q p
unfolding same_policy
same_policy_comm none none = refl
same_policy_comm none (some q) = refl
same_policy_comm (some p) none = refl
same_policy_comm (some p) (some q) = ground arith

-- The answer for the arguments the other way round.
abbrev pub opposite : Option ℤ → Option ℤ
opposite (some (pos (suc zero))) = some (negsuc 0)
opposite (some (negsuc zero)) = some (pos 1)
opposite o = o

sign : ℕ → ℕ → ℤ
sign i j = if ltb j i then pos 1 else if ltb i j then negsuc 0 else pos 0

sign_comm : (i j : ℕ) → some (sign j i) ≡ opposite (some (sign i j))
unfolding sign
sign_comm i j = ground arith

-- A swap of what an earlier swap gave.
pub swap_again : Option (KarmaAccount × KarmaAccount) → Option (KarmaAccount × KarmaAccount)
swap_again none = none
swap_again (some (x, y)) = swap x y

compare_of :
    (t : Bool) (i j : ℕ)
    → (if t then some (sign j i) else none) ≡ opposite (if t then some (sign i j) else none)
compare_of true i j = sign_comm i j
compare_of false i j = refl

swap_of :
    (a b : KarmaAccount) (t : Bool)
    → same_policy a.policy b.policy ≡ t
    → swap_again (
        if t
        then some (record a { id = b.id; name = b.name }, record b { id = a.id; name = a.name })
        else none)
      ≡ (if t then some (a, b) else none)
unfolding swap_again swap
swap_of a b true e = rw e refl
swap_of a b false e = refl

-- Comparing the other way round gives the opposite answer, and throws if and only if it threw before;
-- and what `swap` makes of two handles of one policy, a second `swap` takes back, while handles of two
-- policies make it throw.
pub compare_swap_lem :
    (a b : KarmaAccount)
    → (compare b a ≡ opposite (compare a b))
      × (swap_again (swap a b) ≡ (if same_policy a.policy b.policy then some (a, b) else none))
unfolding compare swap sign
compare_swap_lem a b = (
  rw (same_policy_comm b.policy a.policy) (compare_of (same_policy a.policy b.policy) a.id b.id),
  swap_of a b (same_policy a.policy b.policy) refl,
)
