-- ===== src/Karma/KarmaPolicyBasic/Laws.antt =====
-- What an action costs: which balances bringUpToDate, afterwards and perform leave.
use oef_mt_core.Base.{
  ℕ, suc, ◌+◌, ◌-◌, ◌*◌, ◌%◌, ◌^◌, ◌≤◌, ◌<◌, min, ◌≡◌, ◌≢◌, refl, sym, ap, subst, Bool, true, false,
  List, [], ◌∷◌, Option, arith, if◌then◌else◌, inl, inr, ◌⊎◌,
}
use native.Mathlib.Nat.{mod-eq_of_lt}
use oef_mt_core.Base.Int.{ℤ, pos, negsuc, ◌≤ℤ◌, ltb_ℤ}
use oef_mt_core.Karma.BucketsOf.{Name}
use oef_mt_core.Karma.KarmaPolicyBasic.{
  max_karma, Result, ok, throws, undefined, Account, Policy, bring_up_to_date, get_policies,
  parse_effect, worse, worst_of, afterwards, is_allowed, settle, charge, x_karma,
}

-- A balance between nothing and the maximum.
pub InBounds : Account → Type 0
InBounds a = (pos 0 ≤ℤ a.karma) × (a.karma ≤ℤ pos max_karma)

elapsed : (tc w : ℕ) → w ≤ tc → tc < 2 ^ 64 → (tc + 2 ^ 64 - w) % 2 ^ 64 ≡ tc - w
elapsed tc w h t = omega arith

-- Bringing an account up to date puts it within bounds and stamps it with the tick, whatever its
-- balance was, and pays a balance that was within bounds what its ticks are worth, up to the maximum.
pub bring_up_to_date_lem :
    (amounts tc : ℕ) (a : Account) (k : ℕ)
    → a.karma ≡ pos k
    → k ≤ max_karma
    → a.when ≤ tc
    → tc < 2 ^ 64
    → k + (tc - a.when) * amounts < 2 ^ 64
    → bring_up_to_date amounts tc a
      ≡ record { karma = pos (min (k + (tc - a.when) * amounts) max_karma); when = tc }
unfolding bring_up_to_date
bring_up_to_date_lem amounts tc a k e h w t s = rw (e, elapsed tc a.when w t, mod-eq_of_lt s) refl

pub bring_up_to_date-InBounds :
    (amounts tc : ℕ) (a : Account) → InBounds (bring_up_to_date amounts tc a)
unfolding bring_up_to_date InBounds
bring_up_to_date-InBounds amounts tc a = (omega arith, omega arith)

debt_lt : (n paid : ℕ) → n < 2 ^ 31 → paid ≤ n → 2 ^ 64 - suc n + paid < 2 ^ 64
debt_lt n paid h s = omega arith

debt_min : (n paid : ℕ) → n < 2 ^ 31 → min (2 ^ 64 - suc n + paid) max_karma ≡ max_karma
debt_min n paid h = omega arith

-- A debt that the ticks do not pay off becomes the maximum.
pub bring_up_to_date_debt :
    (amounts tc : ℕ) (a : Account) (n : ℕ)
    → a.karma ≡ negsuc n
    → n < 2 ^ 31
    → a.when ≤ tc
    → tc < 2 ^ 64
    → (tc - a.when) * amounts ≤ n
    → (bring_up_to_date amounts tc a).karma ≡ pos max_karma
unfolding bring_up_to_date
bring_up_to_date_debt amounts tc a n e h w t s =
    rw (e, elapsed tc a.when w t, mod-eq_of_lt (debt_lt n ((tc - a.when) * amounts) h s))
      (ap pos (debt_min n ((tc - a.when) * amounts) h))

module _ (stoi : List ℕ → Option ℤ) where
  -- Every policy in the list can be parsed, to at least `r`.
  pub AtLeast : ℤ → ℤ → List Name → Type 0
  AtLeast r balance [] = Unit
  AtLeast r balance (effect ∷ effects) =
      ((v : ℤ) × (parse_effect stoi balance effect ≡ ok v) × (r ≤ℤ v)) × AtLeast r balance effects

  -- The smaller of two balances.
  lower : ℤ → ℤ → ℤ
  lower v worst = if ltb_ℤ v worst then v else worst

  lower_of-le :
      (t : Bool) (v worst r : ℤ)
      → ltb_ℤ v worst ≡ t
      → r ≤ℤ (if t then v else worst)
      → (r ≤ℤ v) × (r ≤ℤ worst)
  lower_of-le true v worst r t h = (h, ground arith)
  lower_of-le false v worst r t h = (ground arith, h)

  lower-le : (v worst r : ℤ) → r ≤ℤ lower v worst → (r ≤ℤ v) × (r ≤ℤ worst)
  unfolding lower
  lower-le v worst r h = lower_of-le (ltb_ℤ v worst) v worst r refl h

  worse_lem :
      (balance : ℤ) (effect : Name) (effects : List Name) (worst r : ℤ) (p : Result ℤ)
      → ((w : ℤ) → worst_of stoi balance effects w ≡ ok r → (r ≤ℤ w) × AtLeast r balance effects)
      → parse_effect stoi balance effect ≡ p
      → worse stoi p worst (worst_of stoi balance effects) ≡ ok r
      → (r ≤ℤ worst) × AtLeast r balance (effect ∷ effects)
  unfolding worse AtLeast lower
  worse_lem balance effect effects worst r (ok v) ih pe e =
      let (h, hs) = ih (lower v worst) e in
      let (hv, hw) = lower-le v worst r h in (hw, ((v, pe, hv), hs))
  worse_lem balance effect effects worst r (throws x) ih pe e = absurd (grind arith)
  worse_lem balance effect effects worst r undefined ih pe e = absurd (grind arith)

  ok-le : (worst r : ℤ) → ok worst ≡ ok r → r ≤ℤ worst
  ok-le worst r e =
      let same : worst ≡ r = grind arith in subst (λ (w : ℤ). r ≤ℤ w) (sym same) (omega arith)

  worst_of_lem :
      (balance : ℤ) (effects : List Name) (worst r : ℤ)
      → worst_of stoi balance effects worst ≡ ok r
      → (r ≤ℤ worst) × AtLeast r balance effects
  unfolding worst_of AtLeast
  worst_of_lem balance [] worst r e = (ok-le worst r e, tt)
  worst_of_lem balance (effect ∷ effects) worst r e =
      worse_lem balance effect effects worst r (parse_effect stoi balance effect)
        (λ w e'. worst_of_lem balance effects w r e') refl e

  -- An action leaves no more than the balance that it starts from, and no more than any of its policies
  -- would leave alone; so an effect that adds to the balance never raises it.
  pub afterwards_lem :
      (config : List (Name × Name)) (balance : ℤ) (actions : Name) (r : ℤ)
      → afterwards stoi config balance actions ≡ ok r
      → (r ≤ℤ balance) × AtLeast r balance (get_policies config actions)
  unfolding afterwards
  afterwards_lem config balance actions r e =
      worst_of_lem balance (get_policies config actions) balance r e

  -- How `perform` can end on the account: charged, or only brought up to date.
  pub Charged : Account → Bool → Result ℤ → Account × Result Bool → Type 0
  Charged now force next (a, r) =
      ((v : ℤ) × (next ≡ ok v)
        × (is_allowed stoi v force ≡ true)
        × (r ≡ ok true)
        × (a ≡ record now { karma = v }))
      ⊎ ((a ≡ now) × (r ≢ ok true))

  allowed_lem :
      (now : Account) (force : Bool) (v : ℤ) (t : Bool)
      → is_allowed stoi v force ≡ t
      → Charged now force
          (ok v)
          (if t then (record now { karma = v }, ok true) else (now, throws x_karma))
  unfolding Charged
  allowed_lem now force v true t = inl (v, refl, t, refl, refl)
  allowed_lem now force v false t = inr (refl, λ e. grind arith)

  settle_lem :
      (now : Account) (force : Bool) (next : Result ℤ)
      → Charged now force next (settle stoi now force next)
  unfolding Charged settle
  settle_lem now force (ok v) = allowed_lem now force v (is_allowed stoi v force) refl
  settle_lem now force (throws x) = inr (refl, λ e. grind arith)
  settle_lem now force undefined = inr (refl, λ e. grind arith)

  allowed-nonneg : (v : ℤ) → is_allowed stoi v false ≡ true → pos 0 ≤ℤ v
  unfolding is_allowed
  allowed-nonneg (pos n) e = omega arith
  allowed-nonneg (negsuc n) e = absurd (grind arith)

  Charged-InBounds :
      (config : List (Name × Name)) (now : Account) (event : Name) (o : Account × Result Bool)
      → InBounds now
      → Charged now false (afterwards stoi config now.karma event) o
      → InBounds o.0
  unfolding Charged InBounds
  Charged-InBounds config now event (a, r) (low, high) (inl (v, e, t, er, ea)) =
      let (less, _) = afterwards_lem config now.karma event v e in
      subst InBounds (sym ea) (allowed-nonneg v t, omega arith)
  Charged-InBounds config now event (a, r) h (inr (ea, ne)) = subst InBounds (sym ea) h

  -- `perform` without force leaves the account within bounds whatever it was before. Either it succeeds
  -- and the balance is what the action leaves, or it does not and the account is only brought up to date.
  pub charge_lem :
      (p : Policy) (event : Name) (a : Account)
      → let now = bring_up_to_date p.tick_amounts p.tick_counter a in
        InBounds (charge stoi p event false a).0
        × Charged now false (afterwards stoi p.config now.karma event) (charge stoi p event false a)
  unfolding charge
  charge_lem p event a =
      let now = bring_up_to_date p.tick_amounts p.tick_counter a in
      let next = afterwards stoi p.config now.karma event in
      let done = settle_lem now false next in
      (
        Charged-InBounds p.config now event (settle stoi now false next)
            (bring_up_to_date-InBounds p.tick_amounts p.tick_counter a) done,
        done,
      )
