-- ===== src/CoreFunctions/Instances/Complete.antt =====
-- What an Instance of oef-core-functions/src/cpp/lib/schema.hpp guarantees once its constructor has
-- not thrown.
use oef_mt_core.Base.{
  ℕ, ◌^◌, ◌<◌, ◌≡◌, refl, ap, subst, ◌∙◌, inl, inr, true, List, [], ◌∷◌, map, Option, none, some,
  arith, if◌then◌else◌, Bool-cases, is_some, length, ltb,
}
use oef_mt_core.Karma.BucketsOf.{Name, same, find}
use oef_mt_core.Karma.BucketsOf.Laws.{same_refl, same-eq}
use oef_mt_core.CoreFunctions.Values.{VariantType, Value, type_of, eq_type, eq_type_refl}
use oef_mt_core.CoreFunctions.Attributes.{
  Attribute, DataModel, attribute, Result, ok, throws, then_do, instantiate, instantiate_attribute,
  instantiated, required_left,
}
use oef_mt_core.CoreFunctions.Instances.{
  Instance, count_required, fill, new_instance, instantiate_instance,
}
use oef_mt_core.CoreFunctions.Instances.Required.{
  IsWellTyped, IsUnique, HasUniqueKeys, count_in, count_in-le, count_required-le,
}
use oef_mt_core.CoreFunctions.Instances.Filling.{
  AllFound, Filled, fill_lem, found-IsWellTyped, ok_injective, then_ok, throws_else, to_values,
}

-- The loop over the attributes, from what holds of each.
unfoldable pub AllPresent : {D : Type 0} → List (Name × VariantType D) → List Attribute → Type 0
AllPresent values [] = Unit
AllPresent {D = D} values (a ∷ rest) =
    (a.required ≡ true → is_some (find a.name values) ≡ true)
    × ((v : VariantType D) → find a.name values ≡ some v → a.type ≡ type_of v)
    × AllPresent values rest

attribute-tail :
    (a : Attribute) (rest : List Attribute) (name : Name) (b : Attribute)
    → attribute rest a.name ≡ none
    → attribute rest name ≡ some b
    → attribute (a ∷ rest) name ≡ some b
unfolding attribute
attribute-tail a rest name b new e = elim (Bool-cases (same a.name name)) [
  | inl s ↦ absurd (grind (arith, ap (attribute rest) (same-eq a.name name s)))
  | inr s ↦ ground (arith, s)
]

all_present :
    {D : Type 0} (attributes : List Attribute) (values : List (Name × VariantType D))
    → IsUnique attributes
    → IsWellTyped attributes values
    → count_in attributes values ≡ count_required attributes
    → AllPresent values attributes
unfolding count_in IsUnique AllPresent IsWellTyped attribute
all_present [] values u w h = tt
all_present (a ∷ rest) values (new, u) w h = (
  (λ r. elim (Bool-cases (is_some (find a.name values))) [
    | inl e ↦ e
    | inr e ↦ absurd (ground (arith, r, e, count_in-le rest values))
  ]),
  (λ v f. w a.name a v (ground (arith, same_refl a.name)) f),
  all_present rest values u (λ name b v e f. w name b v (attribute-tail a rest name b new e) f)
      (ground (arith, count_in-le rest values)),
)

instantiate_attribute_lem :
    {D : Type 0} (to_string : VariantType D → Name) (a : Attribute) (o : Option (VariantType D))
    → (a.required ≡ true → is_some o ≡ true)
    → ((v : VariantType D) → o ≡ some v → a.type ≡ type_of v)
    → (text : Name) × (instantiated to_string a o ≡ ok (a.name, text))
unfolding instantiated
instantiate_attribute_lem to_string a none r w = (
  [],
  elim (Bool-cases a.required) [ inl e ↦ absurd (ground (arith, r e)) | inr e ↦ ground (arith, e) ],
)
instantiate_attribute_lem to_string a (some v) r w = (
  to_string v,
  let typed = subst (λ t. eq_type a.type t ≡ true) (w v refl) (eq_type_refl a.type) in
      ground (arith, typed),
)

-- Every attribute of the data model is named, in its order.
unfoldable pub Instantiates : List Attribute → Result (List (Name × Name)) → Type 0
Instantiates attributes r =
    (pairs : List (Name × Name)) × (r ≡ ok pairs)
    × (map (λ (p : Name × Name). p.0) pairs ≡ map (λ (a : Attribute). a.name) attributes)

then_ok_of : {A B : Type 0} {r : Result A} (a : A) (k : A → Result B) → r ≡ ok a → then_do r k ≡ k a
then_ok_of a k e = ap (λ r. then_do r k) e

instantiate_lem :
    {D : Type 0} (to_string : VariantType D → Name) (values : List (Name × VariantType D))
    (attributes : List Attribute)
    → AllPresent values attributes
    → Instantiates attributes (instantiate to_string values attributes)
unfolding AllPresent Instantiates instantiate instantiate_attribute
instantiate_lem to_string values [] h = ([], refl, refl)
instantiate_lem to_string values (a ∷ rest) (required, typed, all) =
    let (text, e) = instantiate_attribute_lem to_string a (find a.name values) required typed in
    let (pairs, e', names) = instantiate_lem to_string values rest all in
    (
      (a.name, text) ∷ pairs,
      then_ok_of (a.name, text) _ e ∙ then_ok_of pairs _ e',
      ap (◌∷◌ a.name) names,
    )

module _ {D : Type 0} where
  -- What the constructor makes sure of.
  unfoldable pub Complete :
      (VariantType D → Name) → DataModel → List (Name × VariantType D) → Instance D → Type 0
  Complete to_string model values i =
      (i.model ≡ model)
      × (i.values ≡ values)
      × (i.vals ≡ to_values values)
      × AllFound model.attributes values
      × IsWellTyped model.attributes i.values
      × Instantiates model.attributes (instantiate_instance to_string i)

  completed :
      (to_string : VariantType D → Name) (model : DataModel) (values : List (Name × VariantType D))
      (filled : List (Name × Value D) × ℕ) (i : Instance D)
      → IsUnique model.attributes
      → Filled model.attributes values (count_required model.attributes) filled
      → (if ltb 0 filled.1
          then throws required_left
          else ok (record { model = model; vals = filled.0; values = values }))
        ≡ ok i
      → Complete to_string model values i
  unfolding Filled Complete
  completed to_string model values (vals, n) i u (sum, e, all) h =
      let (none_left, h') = throws_else (ltb 0 n) _ h in
      let made = ok_injective h' in
      let w = found-IsWellTyped model.attributes values all in
      let present = all_present model.attributes values u w (ground arith) in
      subst (Complete to_string model values) made
        (refl, refl, e, all, w, instantiate_lem to_string values model.attributes present)

  -- An instance that the constructor accepts has a value of the right type for every key, every key is
  -- an attribute of the data model, and each required attribute has a value, so that `instantiate` does
  -- not throw and names all attributes of the data model in their order. The data model names each
  -- attribute once, as its constructor demands, and the keys are those of a map.
  pub new_instance-Complete :
      (to_string : VariantType D → Name) (model : DataModel) (values : List (Name × VariantType D))
      (i : Instance D)
      → IsUnique model.attributes
      → length model.attributes < 2 ^ 31
      → HasUniqueKeys values
      → new_instance model values ≡ ok i
      → Complete to_string model values i
  unfolding new_instance
  new_instance-Complete to_string model values i u small keys h =
      let (_, h') = throws_else (ltb (length model.attributes) (length values)) _ h in
      let (_, h'') = throws_else (ltb (length values) (count_required model.attributes)) _ h' in
      let (filled, e, last) =
        then_ok (fill model.attributes values (count_required model.attributes)) _ h'' in
      completed to_string model values filled i u
        (fill_lem model.attributes values (count_required model.attributes) filled u keys
          (count_in-le model.attributes values) (omega (arith, count_required-le model.attributes))
          e)
        last
