-- ===== src/CoreFunctions/Instances/Filling.antt =====
-- The loop over the values in the constructor of Instance, oef-core-functions/src/cpp/lib/schema.hpp.
use oef_mt_core.Base.{
  ℕ, ◌+◌, ◌^◌, ◌≤◌, ◌<◌, ◌≡◌, refl, sym, ap, subst, ◌∙◌, inl, inr, Bool, true, false, List, [], ◌∷◌,
  Option, none, some, arith, if◌then◌else◌, Bool-cases,
}
use oef_mt_core.Karma.BucketsOf.{Name, same, find}
use oef_mt_core.Karma.BucketsOf.Laws.{same-eq}
use oef_mt_core.CoreFunctions.Values.{VariantType, Value, type_of, to_value, eq_type, eq_type-eq}
use oef_mt_core.CoreFunctions.Attributes.{Attribute, attribute, Result, ok, throws, then_do, Error}
use oef_mt_core.CoreFunctions.Instances.{without_required, admit, fill}
use oef_mt_core.CoreFunctions.Instances.Required.{
  IsWellTyped, IsUnique, HasUniqueKeys, count_in, count_in-cons, count_in-nil, without_required_lem,
}

pub then_ok :
    {A B : Type 0} (r : Result A) (k : A → Result B) {b : B}
    → then_do r k ≡ ok b
    → (a : A) × (r ≡ ok a) × (k a ≡ ok b)
then_ok (ok a) k h = (a, refl, h)
then_ok (throws e) k h = absurd (grind arith)

pub throws_else :
    {A : Type 0} (c : Bool) (e : Error) {r : Result A} {a : A}
    → (if c then throws e else r) ≡ ok a
    → (c ≡ false) × (r ≡ ok a)
throws_else true e h = absurd (grind arith)
throws_else false e h = (refl, h)

payload : {A : Type 0} → A → Result A → A
payload a (ok b) = b
payload a (throws e) = a

pub ok_injective : {A : Type 0} {a b : A} → ok a ≡ ok b → a ≡ b
unfolding payload
ok_injective {a = a} h = ap (payload a) h

module _ {D : Type 0} where
  abbrev pub to_values : List (Name × VariantType D) → List (Name × Value D)
  to_values [] = []
  to_values ((key, v) ∷ rest) = (key, to_value v) ∷ to_values rest

  unfoldable pub AllFound : List Attribute → List (Name × VariantType D) → Type 0
  AllFound attributes [] = Unit
  AllFound attributes ((key, v) ∷ rest) =
      ((a : Attribute) × (attribute attributes key ≡ some a) × (a.type ≡ type_of v))
      × AllFound attributes rest

  admit_lem :
      (o : Option Attribute) (v : VariantType D) (nb n : ℕ)
      → admit o v nb ≡ ok n
      → (a : Attribute) × (o ≡ some a) × (a.type ≡ type_of v) × (n ≡ without_required a.required nb)
  unfolding admit
  admit_lem none v nb n h = absurd (grind arith)
  admit_lem (some a) v nb n h = elim (Bool-cases (eq_type a.type (type_of v))) [
    | inl e ↦ (a, refl, eq_type-eq a.type (type_of v) e, ground (arith, e))
    | inr e ↦ absurd (ground (arith, e))
  ]

  unfoldable pub Filled :
      List Attribute → List (Name × VariantType D) → ℕ → List (Name × Value D) × ℕ → Type 0
  Filled attributes values nb (vals, n) =
      (n + count_in attributes values ≡ nb) × (vals ≡ to_values values) × AllFound attributes values

  pub fill_lem :
      (attributes : List Attribute) (values : List (Name × VariantType D)) (nb : ℕ)
      (filled : List (Name × Value D) × ℕ)
      → IsUnique attributes
      → HasUniqueKeys values
      → count_in attributes values ≤ nb
      → nb < 2 ^ 64
      → fill attributes values nb ≡ ok filled
      → Filled attributes values nb filled
  unfolding fill Filled AllFound HasUniqueKeys
  fill_lem attributes [] nb filled u keys le lt h =
      let e = ok_injective h in
      (
        omega (arith, count_in-nil (VariantType D) attributes, ap (λ f. f.1) e),
        sym (ap (λ f. f.0) e),
        tt,
      )
  fill_lem attributes ((key, v) ∷ rest) nb filled u (new, keys) le lt h =
      let (n, admitted, h') = then_ok (admit (attribute attributes key) v nb) _ h in
      let (later, filled_later, h'') = then_ok (fill attributes rest n) _ h' in
      let (a, found, typed, left) = admit_lem (attribute attributes key) v nb n admitted in
      let counted = count_in-cons attributes key v rest a u new found in
      let (sum, more) =
        without_required_lem a.required n nb (count_in attributes rest) left (omega arith) lt in
      let (sum', vals, all) =
        fill_lem attributes rest n later u keys (omega arith) (omega arith) filled_later in
      let e = ok_injective h'' in
      (
        omega (arith, ap (λ f. f.1) e),
        sym (ap (λ f. f.0) e) ∙ ap (◌∷◌ (key, to_value v)) vals,
        ((a, found, typed), all),
      )

pub found-IsWellTyped :
    {D : Type 0} (attributes : List Attribute) (values : List (Name × VariantType D))
    → AllFound attributes values
    → IsWellTyped attributes values
unfolding AllFound IsWellTyped find
found-IsWellTyped attributes [] all name a v e f = absurd (grind arith)
found-IsWellTyped attributes ((key, w) ∷ rest) ((b, found, typed), all) name a v e f =
    elim (Bool-cases (same name key)) [
      | inl s ↦
          let found' =
            subst (λ n. attribute attributes n ≡ some b) (sym (same-eq name key s)) found in
          let same_value : w ≡ v = ground (arith, s) in ground (arith, found', same_value)
      | inr s ↦ found-IsWellTyped attributes rest all name a v e (ground (arith, s))
    ]
