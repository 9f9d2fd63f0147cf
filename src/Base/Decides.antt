-- ===== src/Base/Decides.antt =====
-- When a Boolean decides a proposition, and how the connectives follow.
use mathlib.Core.Path.{◌≡◌, refl, sym, ◌∙◌}
use mathlib.Core.Logic.{◌↔◌, ◌⊎◌, inl, inr}
use mathlib.Core.Bool.{Bool, true, false, not, ◌&&◌, ◌||◌}
use oef_mt_core.Base.Tests.{if◌then◌else◌}
use native.Mathlib.Omega.{arith}

-- True where the proposition holds and false where it does not.
abbrev pub Decides : Bool → Type 0 → Type 0
Decides b P = (b ≡ true → P) × (b ≡ false → ¬ P)

pub absurd_of : true ≡ false → ⊥
absurd_of h = grind arith

pub decides_iff : {b : Bool} {P : Type 0} → Decides b P → (b ≡ true) ↔ P
decides_iff {b = true} (there, lacks) = (there, λ p. refl)
decides_iff {b = false} (there, lacks) = (there, λ p. absurd (lacks refl p))

pub of_iff : {b : Bool} {P : Type 0} → (b ≡ true) ↔ P → Decides b P
of_iff (there, back) = (there, λ h p. absurd_of (sym (back p) ∙ h))

pub decides_self : (b : Bool) → Decides b (b ≡ true)
decides_self b = of_iff ((λ h. h), (λ h. h))

pub decides_false : Decides false ⊥
decides_false = ((λ h. absurd_of (sym h)), λ h p. p)

pub decides_unit : Decides true Unit
decides_unit = ((λ h. tt), λ h p. absurd_of h)

pub decides_not : {b : Bool} {P : Type 0} → Decides b P → Decides (not b) (¬ P)
decides_not {b = true} (there, lacks) = ((λ h. absurd (grind arith)), λ h f. f (there refl))
decides_not {b = false} (there, lacks) = ((λ h. lacks refl), λ h f. absurd (grind arith))

pub decides_and :
    {a b : Bool} {P Q : Type 0}
    → Decides a P
    → Decides b Q
    → Decides (if a then b else false) (P × Q)
decides_and {a = true} (there, lacks) (there', lacks') =
    ((λ h. (there refl, there' h)), λ h p. lacks' h p.1)
decides_and {a = false} (there, lacks) (there', lacks') =
    ((λ h. absurd (grind arith)), λ h p. lacks refl p.0)

pub decides_or :
    {a b : Bool} {P Q : Type 0}
    → Decides a P
    → Decides b Q
    → Decides (if a then true else b) (P ⊎ Q)
decides_or {a = true} (there, lacks) d = ((λ h. inl (there refl)), λ h p. absurd (grind arith))
decides_or {a = false} (there, lacks) (there', lacks') =
    ((λ h. inr (there' h)), λ h p. elim p [ inl x ↦ lacks refl x | inr y ↦ lacks' h y ])

pub decides_both :
    {a b : Bool} {P Q : Type 0} → Decides a P → Decides b Q → Decides (a && b) (P × Q)
decides_both {a = true} d d' = decides_and d d'
decides_both {a = false} d d' = decides_and d d'

pub decides_either :
    {a b : Bool} {P Q : Type 0} → Decides a P → Decides b Q → Decides (a || b) (P ⊎ Q)
decides_either {a = true} d d' = decides_or d d'
decides_either {a = false} d d' = decides_or d d'

pub decides_is_false : (b : Bool) → Decides (not b) (b ≡ false)
decides_is_false true = ((λ h. absurd (grind arith)), λ h e. absurd_of e)
decides_is_false false = ((λ h. refl), λ h e. absurd (grind arith))
