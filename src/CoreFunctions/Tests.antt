-- ===== src/CoreFunctions/Tests.antt =====
-- Concrete queries, instances and schemas. The numbers stand in for the doubles.
use oef_mt_core.Base.{
  ℕ, ◌+◌, ◌-◌, ◌*◌, ◌/◌, ◌≡◌, refl, ◌↔◌, true, false, List, [], ◌∷◌, some, arith, ltb, leb, ◌==◌,
  length, ◌<◌,
}
use oef_mt_core.Base.Int.{pos}
use oef_mt_core.Karma.BucketsOf.{Name, find, same}
use oef_mt_core.CoreFunctions.Values.{
  Doubles, narrow, eq_ℤ, int_type, string_type, VariantType, int, string, value_i,
}
use oef_mt_core.CoreFunctions.Attributes.{
  Attribute, DataModel, new_attribute, ok, throws, required_left, attribute, new_data_model,
  all_new,
}
use oef_mt_core.CoreFunctions.Constraints.{
  gteq, is_in, case_valid, values_valid, check_found, check_case, check_relation, values_s, set_,
  relation,
}
use oef_mt_core.CoreFunctions.Instances.{
  Instance, new_instance, fill, admit, all_equal, eq_variant, instance_of, value, eq_instance,
}
use oef_mt_core.CoreFunctions.Instances.Required.{IsUnique, HasUniqueKeys, IsWellTyped}
use oef_mt_core.CoreFunctions.Instances.Complete.{Complete, new_instance-Complete}
use oef_mt_core.CoreFunctions.Instances.RoundTrip.{AllInt32, IsInt32, instance_of-new_instance}
use oef_mt_core.CoreFunctions.Query.{
  not_, constraint_, Exprs, nil, cons, QueryModel, check, valid, new_query_on, new_query, valid_all,
  check_all,
}
use oef_mt_core.CoreFunctions.Query.Satisfaction.{Matches, HasInts, InEach, check_iff}
use oef_mt_core.CoreFunctions.Constraints.Meaning.{HasInt32, Int32Value}
use oef_mt_core.CoreFunctions.Query.Typing.{strict_check}
use oef_mt_core.CoreFunctions.Query.Built.{built_check_lem}
use oef_mt_core.CoreFunctions.Schemas.{Schema, newest, directory_add}
use oef_mt_core.CoreFunctions.Schemas.Versions.{versions, Stored, IsNumbered, directory_add-get}

abbrev numbers : Doubles ℕ
numbers = record {
  eq = λ a b. a == b;
  lt = ltb;
  le = leb;
  plus = λ a b. a + b;
  minus = λ a b. a - b;
  times = λ a b. a * b;
  over = λ a b. a / b;
  sin = λ a. a;
  cos = λ a. a;
  asin = λ a. a;
  sqrt = λ a. a;
  pi = 3;
  nought = 0;
  two = 2;
  half_turn = 180;
  earth_radius_km = 6373;
}

-- The characters of names.
abbrev age : Name
age = 97 ∷ []

abbrev town : Name
town = 116 ∷ []

abbrev attributes : List Attribute
attributes = new_attribute age int_type true [] ∷ new_attribute town string_type false [] ∷ []

abbrev person : DataModel
person = record { name = 112 ∷ []; attributes = attributes; description = [] }

abbrev values : List (Name × VariantType ℕ)
values = (age, int (pos 30)) ∷ []

abbrev someone : Instance ℕ
someone = record { model = person; vals = (age, value_i (pos 30)) ∷ []; values = values }

-- age >= 18 and not (town in {"x"})
abbrev exprs : Exprs ℕ
exprs =
    cons
      (constraint_ (record {
        attribute_name = age;
        constraint = relation (record { op = gteq; val = value_i (pos 18) });
      }))
      (cons
        (not_ (
          constraint_ (record {
            attribute_name = town;
            constraint = set_ (record { op = is_in; vals = values_s ((120 ∷ []) ∷ []) });
          })))
        nil)

abbrev adults : QueryModel ℕ
adults = record { constraints = exprs; model = some person }

person_built : new_instance person values ≡ ok someone
unfolding new_instance fill admit attribute same
person_built = refl

adults_built : new_query_on exprs person ≡ ok adults
unfolding new_query_on new_query valid_all attribute same case_valid values_valid
adults_built = refl

adults_match : check numbers adults someone ≡ true
unfolding check same check_all check_found find check_case check_relation narrow
adults_match = refl

-- A required attribute without a value is refused.
nobody_throws : new_instance {D = ℕ} person ((town, string []) ∷ []) ≡ throws required_left
unfolding new_instance fill admit attribute same
nobody_throws = refl

person_model : new_data_model (112 ∷ []) attributes [] ≡ ok person
unfolding new_data_model all_new same
person_model = refl

-- `operator==` looks at the values of its left side alone.
abbrev with_town : Instance ℕ
with_town = record someone { values = (age, int (pos 30)) ∷ (town, string []) ∷ [] }

eq_one_way : eq_instance numbers someone with_town ≡ true
unfolding eq_instance all_equal eq_variant eq_ℤ find same
eq_one_way = refl

eq_other_way : eq_instance numbers with_town someone ≡ false
unfolding eq_instance all_equal eq_variant eq_ℤ find same
eq_other_way = refl

attributes-IsUnique : IsUnique attributes
unfolding IsUnique attribute same
attributes-IsUnique = (refl, (refl, tt))

values-HasUniqueKeys : HasUniqueKeys values
unfolding HasUniqueKeys find
values-HasUniqueKeys = (refl, tt)

new_instance-Complete_example : Complete (λ v. []) person values someone
new_instance-Complete_example =
    new_instance-Complete (λ v. []) person values someone attributes-IsUnique (omega arith)
      values-HasUniqueKeys person_built

values-AllInt32 : AllInt32 values
unfolding AllInt32 IsInt32
values-AllInt32 = ((omega arith, omega arith), tt)

instance_of-new_instance_example :
    ((instance_of person someone.vals).model ≡ person)
    × (value (instance_of person someone.vals) age ≡ value someone age)
instance_of-new_instance_example =
    instance_of-new_instance person values someone age attributes-IsUnique (omega arith)
      values-HasUniqueKeys values-AllInt32 person_built

adults-HasInts : HasInts numbers adults
unfolding InEach HasInt32 Int32Value
adults-HasInts = ((omega arith, omega arith), (tt, tt))

check_iff_example : (check numbers adults someone ≡ true) ↔ Matches numbers adults someone
check_iff_example =
    check_iff numbers (112 ∷ []) attributes [] person exprs adults values someone person_model
      (omega arith) values-HasUniqueKeys adults_built person_built adults-HasInts

built_check_lem_example : strict_check numbers adults someone ≡ some (check numbers adults someone)
built_check_lem_example =
    built_check_lem numbers (112 ∷ []) attributes [] person exprs adults values someone person_model
      (omega arith) values-HasUniqueKeys adults_built person_built

adults_valid : valid adults ≡ true
unfolding valid valid_all attribute same case_valid values_valid
adults_valid = refl

values-IsWellTyped : IsWellTyped attributes values
unfolding Complete
values-IsWellTyped =
    (new_instance-Complete (λ v. []) person values someone attributes-IsUnique (omega arith)
      values-HasUniqueKeys person_built).4

abbrev directory : List (Name × List Schema)
directory = (age, record { version = 1; schema = person } ∷ []) ∷ []

directory-IsNumbered : IsNumbered 1 (versions (find age directory))
unfolding IsNumbered find same
directory-IsNumbered = (refl, tt)

directory_small : length (versions (find age directory)) + 1 < newest
unfolding find same
directory_small = omega arith

directory_add-get_example :
    Stored age age 2 person directory (directory_add age newest person directory)
directory_add-get_example =
    directory_add-get age age 2 person directory directory-IsNumbered directory_small (omega arith)
      (omega arith)
