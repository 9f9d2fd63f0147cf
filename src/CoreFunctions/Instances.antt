-- ===== src/CoreFunctions/Instances.antt =====
-- oef-core-functions/src/cpp/lib/schema.hpp, the class Instance: the values of an agent's or a
-- service's attributes, as a map and as the protobuf message `vals`.
pub mod Complete
pub mod Filling
pub mod Required
pub mod RoundTrip
use oef_mt_core.Base.{
  ℕ, suc, Bool, true, false, ◌&&◌, List, [], ◌∷◌, Option, none, some, if◌then◌else◌, length, ltb,
  sub_size,
}
use oef_mt_core.Karma.BucketsOf.{Name, same, find}
use oef_mt_core.CoreFunctions.Values.{
  Doubles, VariantType, int, double, string, bool, location, Value, value_s, value_d, value_b,
  value_i, value_l, value_not_set, eq_ℤ, eq_bool, narrow, locations, type_of, to_value, eq_type,
}
use oef_mt_core.CoreFunctions.Attributes.{
  Attribute, DataModel, attribute, Result, ok, throws, then_do, too_many_attributes,
  not_enough_attributes, not_in_data_model, is_not, required_left, instantiate,
}

pub record Instance (D : Type 0) : Type 0 where
  pub model : DataModel
  pub vals : List (Name × Value D)
  pub values : List (Name × VariantType D)

abbrev pub with_required : Bool → ℕ → ℕ
with_required true n = suc n
with_required false n = n

abbrev pub count_required : List Attribute → ℕ
count_required [] = 0
count_required (a ∷ rest) = with_required a.required (count_required rest)

abbrev pub without_required : Bool → ℕ → ℕ
without_required true nb_required = sub_size nb_required 1
without_required false nb_required = nb_required

module _ {D : Type 0} where
  -- One round of the loop over the values, up to the message it fills.
  unfoldable pub admit : Option Attribute → VariantType D → ℕ → Result ℕ
  admit none v nb_required = throws not_in_data_model
  admit (some a) v nb_required =
      if eq_type a.type (type_of v)
      then ok (without_required a.required nb_required)
      else throws (is_not (type_of v))

  unfoldable pub fill :
      List Attribute → List (Name × VariantType D) → ℕ → Result (List (Name × Value D) × ℕ)
  fill attributes [] nb_required = ok ([], nb_required)
  fill attributes ((key, v) ∷ rest) nb_required =
      then_do (admit (attribute attributes key) v nb_required) (λ n.
        then_do (fill attributes rest n) (λ filled. ok ((key, to_value v) ∷ filled.0, filled.1)))

  unfoldable pub new_instance : DataModel → List (Name × VariantType D) → Result (Instance D)
  new_instance model values =
      if ltb (length model.attributes) (length values)
      then throws too_many_attributes
      else if ltb (length values) (count_required model.attributes)
      then throws not_enough_attributes
      else then_do (fill model.attributes values (count_required model.attributes)) (λ filled.
        if ltb 0 filled.1
        then throws required_left
        else ok (record { model = model; vals = filled.0; values = values }))

  -- `map[key] = v`
  unfoldable pub assign :
      Name → VariantType D → List (Name × VariantType D) → List (Name × VariantType D)
  assign key v [] = (key, v) ∷ []
  assign key v ((k, w) ∷ rest) =
      let later = assign key v rest in if same k key then (k, v) ∷ rest else (k, w) ∷ later

  abbrev pub variant_of : Value D → Option (VariantType D)
  variant_of (value_s s) = some (string s)
  variant_of (value_d d) = some (double d)
  variant_of (value_b b) = some (bool b)
  variant_of (value_i i) = some (int (narrow i))
  variant_of (value_l l) = some (location l)
  variant_of value_not_set = none

  abbrev pub assign_if :
      Name → Option (VariantType D) → List (Name × VariantType D) → List (Name × VariantType D)
  assign_if key none values = values
  assign_if key (some v) values = assign key v values

  unfoldable pub read_values :
      List (Name × Value D) → List (Name × VariantType D) → List (Name × VariantType D)
  read_values [] values = values
  read_values ((key, v) ∷ rest) values = read_values rest (assign_if key (variant_of v) values)

  -- The constructor from the message, of which the model and the values are given.
  abbrev pub instance_of : DataModel → List (Name × Value D) → Instance D
  instance_of model vals = record { model = model; vals = vals; values = read_values vals [] }

  abbrev pub value : Instance D → Name → Option (VariantType D)
  value i name = find name i.values

  abbrev pub instantiate_instance :
      (VariantType D → Name) → Instance D → Result (List (Name × Name))
  instantiate_instance to_string i = instantiate to_string i.values i.model.attributes

module _ {D : Type 0} (O : Doubles D) where
  -- `operator==` of the variant: the same type and equal values.
  unfoldable pub eq_variant : VariantType D → VariantType D → Bool
  eq_variant (int i) (int j) = eq_ℤ i j
  eq_variant (double d) (double e) = O.eq d e
  eq_variant (string s) (string t) = same s t
  eq_variant (bool b) (bool c) = eq_bool b c
  eq_variant (location l) (location m) = (locations O).eq l m
  eq_variant _ _ = false

  abbrev pub found_equal : Option (VariantType D) → VariantType D → Bool
  found_equal none v = false
  found_equal (some w) v = eq_variant w v

  unfoldable pub all_equal : List (Name × VariantType D) → List (Name × VariantType D) → Bool
  all_equal [] other = true
  all_equal ((key, v) ∷ rest) other =
      let later = all_equal rest other in if found_equal (find key other) v then later else false

  unfoldable pub eq_instance : Instance D → Instance D → Bool
  eq_instance i other =
      if same i.model.name other.model.name then all_equal i.values other.values else false
