-- ===== src/CoreFunctions/Instances/RoundTrip.antt =====
-- An Instance of oef-core-functions/src/cpp/lib/schema.hpp that goes over the wire: the constructor
-- from values fills a protobuf message, and the constructor from that message reads it back.
use oef_mt_core.Base.{
  ◌-◌, ◌^◌, ◌<◌, ◌≡◌, refl, sym, ap, subst, ◌∙◌, inl, inr, List, [], ◌∷◌, Option, none, some, arith,
  if◌then◌else◌, Bool-cases, length,
}
use oef_mt_core.Base.Int.{ℤ, pos, negsuc, ◌≤ℤ◌}
use oef_mt_core.Karma.BucketsOf.{Name, same, find}
use oef_mt_core.Karma.BucketsOf.Laws.{same-eq}
use oef_mt_core.CoreFunctions.Values.{
  VariantType, int, double, string, bool, location, narrow, to_value,
}
use oef_mt_core.CoreFunctions.Attributes.{DataModel, ok}
use oef_mt_core.CoreFunctions.Instances.{
  Instance, new_instance, assign, assign_if, variant_of, read_values, instance_of, value,
}
use oef_mt_core.CoreFunctions.Instances.Required.{IsUnique, HasUniqueKeys}
use oef_mt_core.CoreFunctions.Instances.Complete.{Complete, new_instance-Complete}
use oef_mt_core.CoreFunctions.Instances.Filling.{to_values}

-- What an `int` can hold.
unfoldable pub IsInt32 : {D : Type 0} → VariantType D → Type 0
IsInt32 (int i) = (negsuc (2 ^ 31 - 1) ≤ℤ i) × (i ≤ℤ pos (2 ^ 31 - 1))
IsInt32 _ = Unit

unfoldable pub AllInt32 : {D : Type 0} → List (Name × VariantType D) → Type 0
AllInt32 [] = Unit
AllInt32 ((key, v) ∷ rest) = IsInt32 v × AllInt32 rest

pub narrow_lem : (i : ℤ) → negsuc (2 ^ 31 - 1) ≤ℤ i → i ≤ℤ pos (2 ^ 31 - 1) → narrow i ≡ i
unfolding narrow
narrow_lem (pos n) low high = ground arith
narrow_lem (negsuc n) low high = ground arith

variant_of-to_value :
    {D : Type 0} (v : VariantType D) → IsInt32 v → variant_of (to_value v) ≡ some v
unfolding IsInt32
variant_of-to_value (int i) (low, high) = ap (λ j. some (int j)) (narrow_lem i low high)
variant_of-to_value (double d) h = refl
variant_of-to_value (string s) h = refl
variant_of-to_value (bool b) h = refl
variant_of-to_value (location l) h = refl

find-assign :
    {D : Type 0} (n key : Name) (v : VariantType D) (values : List (Name × VariantType D))
    → find n (assign key v values) ≡ (if same n key then some v else find n values)
unfolding find assign
find-assign n key v [] = refl
find-assign n key v ((k, w) ∷ rest) = elim (Bool-cases (same k key)) [
  | inl s ↦ ground (arith, s, ap (same n) (same-eq k key s))
  | inr s ↦ elim (Bool-cases (same n k)) [
    | inl t ↦ ground (arith, s, t, ap (λ x. same x key) (same-eq n k t), find-assign n key v rest)
    | inr t ↦ ground (arith, s, t, find-assign n key v rest)
  ]
]

abbrev or_found : {A : Type 0} → Option A → Option A → Option A
or_found none o = o
or_found (some a) o = some a

or_found-none : {A : Type 0} (o : Option A) → or_found o none ≡ o
or_found-none none = refl
or_found-none (some a) = refl

overridden :
    {V : Type 0} (n key : Name) (v : V) (rest m : List (Name × V))
    → find key rest ≡ none
    → or_found (find n rest) (if same n key then some v else find n m)
      ≡ or_found (if same n key then some v else find n rest) (find n m)
overridden n key v rest m new = elim (Bool-cases (same n key)) [
  | inl s ↦ ground (arith, s, subst (λ x. find x rest ≡ none) (sym (same-eq n key s)) new)
  | inr s ↦ ground (arith, s)
]

read_values_lem :
    {D : Type 0} (n : Name) (values m : List (Name × VariantType D))
    → HasUniqueKeys values
    → AllInt32 values
    → find n (read_values (to_values values) m) ≡ or_found (find n values) (find n m)
unfolding find read_values HasUniqueKeys AllInt32
read_values_lem n [] m u h = refl
read_values_lem n ((key, v) ∷ rest) m (new, u) (fits, h) =
    ap (λ o. find n (read_values (to_values rest) (assign_if key o m))) (variant_of-to_value v fits)
    ∙ read_values_lem n rest (assign key v m) u h
    ∙ ap (or_found (find n rest)) (find-assign n key v m)
    ∙ overridden n key v rest m new

-- What the constructor puts into the message, the constructor from a message reads back: both instances
-- have the same data model and the same value for every name, where numbers of type int fit 32 bits,
-- the data model names each attribute once and the keys are those of a map.
pub instance_of-new_instance :
    {D : Type 0} (model : DataModel) (values : List (Name × VariantType D)) (i : Instance D)
    (n : Name)
    → IsUnique model.attributes
    → length model.attributes < 2 ^ 31
    → HasUniqueKeys values
    → AllInt32 values
    → new_instance model values ≡ ok i
    → ((instance_of i.model i.vals).model ≡ model)
      × (value (instance_of i.model i.vals) n ≡ value i n)
unfolding Complete find
instance_of-new_instance model values i n u small keys fits h =
    let (same_model, same_values, filled, _, _, _) =
      new_instance-Complete (λ v. []) model values i u small keys h in
    (
      same_model,
      ap (λ vals. find n (read_values vals [])) filled
          ∙ read_values_lem n values [] keys fits
          ∙ or_found-none (find n values)
          ∙ ap (find n) (sym same_values),
    )
