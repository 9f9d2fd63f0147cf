-- ===== src/CoreFunctions/Attributes.antt =====
-- oef-core-functions/src/cpp/lib/schema.hpp, the classes Attribute and DataModel. A protobuf message
-- that the code takes or holds is a record of its fields; an unordered_map is a list of its entries,
-- in the order of its iteration. `to_string` of a value, which has no body in the repository, is a
-- parameter.
use oef_mt_core.Base.{Bool, true, false, List, [], ◌∷◌, Option, none, some, if◌then◌else◌}
use oef_mt_core.Karma.BucketsOf.{Name, same, find}
use oef_mt_core.CoreFunctions.Values.{AttributeType, VariantType, type_of, eq_type}

-- The exceptions, all std::invalid_argument, each by what its message says.
pub data Error : Type 0 where
  missing_value : Name → Error
  wrong_type_of_value : Name → Name → Error
  duplicate_attribute_name : Error
  too_many_attributes : Error
  not_enough_attributes : Error
  not_in_data_model : Error
  is_not : AttributeType → Error
  required_left : Error
  not_enough_parameters : Error
  constraint_mismatch : Error

pub data Result (A : Type 0) : Type 0 where
  ok : A → Result A
  throws : Error → Result A

-- What follows a call that may throw.
abbrev pub then_do : {A B : Type 0} → Result A → (A → Result B) → Result B
then_do (ok a) k = k a
then_do (throws e) k = throws e

pub record Attribute : Type 0 where
  pub name : Name
  pub type : AttributeType
  pub required : Bool
  pub description : Name

pub record DataModel : Type 0 where
  pub name : Name
  pub attributes : List Attribute
  pub description : Name

abbrev pub new_attribute : Name → AttributeType → Bool → Name → Attribute
new_attribute name type required description = record {
  name = name;
  type = type;
  required = required;
  description = description;
}

abbrev pub is_member : Name → List Name → Bool
is_member name [] = false
is_member name (n ∷ ns) = let later = is_member name ns in if same name n then true else later

-- `std::unordered_set::insert` of each name, which answers whether it is new.
unfoldable pub all_new : List Name → List Attribute → Bool
all_new seen [] = true
all_new seen (a ∷ rest) =
    let later = all_new (a.name ∷ seen) rest in if is_member a.name seen then false else later

unfoldable pub new_data_model : Name → List Attribute → Name → Result DataModel
new_data_model name attributes description =
    if all_new [] attributes
    then ok (record { name = name; attributes = attributes; description = description })
    else throws duplicate_attribute_name

-- `DataModel::attribute`, and the std::find_if over attributes of the other classes.
unfoldable pub attribute : List Attribute → Name → Option Attribute
attribute [] name = none
attribute (a ∷ rest) name =
    let later = attribute rest name in if same a.name name then some a else later

module _ {D : Type 0} where
  abbrev pub validate : Attribute → VariantType D → Bool
  validate attribute value = eq_type attribute.type (type_of value)

  module _ (to_string : VariantType D → Name) where
    unfoldable pub instantiated : Attribute → Option (VariantType D) → Result (Name × Name)
    instantiated a none = if a.required then throws (missing_value a.name) else ok (a.name, [])
    instantiated a (some v) =
        if validate a v
        then ok (a.name, to_string v)
        else throws (wrong_type_of_value a.name (to_string v))

    unfoldable pub instantiate_attribute :
        List (Name × VariantType D) → Attribute → Result (Name × Name)
    instantiate_attribute values a = instantiated a (find a.name values)

    unfoldable pub instantiate :
        List (Name × VariantType D) → List Attribute → Result (List (Name × Name))
    instantiate values [] = ok []
    instantiate values (a ∷ rest) =
        then_do (instantiate_attribute values a)
          (λ p. then_do (instantiate values rest) (λ ps. ok (p ∷ ps)))
