-- ===== src/CoreFunctions/Constraints.antt =====
-- oef-core-functions/src/cpp/lib/schema.hpp, the classes Relation, Set, Distance, Range and
-- Constraint. `check` of each looks at the case of the oneof that fits the value at hand, whichever
-- case is set.
pub mod Meaning
use oef_mt_core.Base.{
  ℕ, Bool, true, false, not, ◌&&◌, ◌||◌, List, [], ◌∷◌, Option, none, some, if◌then◌else◌,
}
use oef_mt_core.Base.Int.{ℤ, pos}
use oef_mt_core.Karma.BucketsOf.{Name, same}
use oef_mt_core.CoreFunctions.Values.{
  Doubles, Location, AttributeType, double_type, int_type, bool_type, string_type, location_type,
  VariantType, int, double, string, bool, location, Value, value_s, value_d, value_b, value_i,
  value_l, value_not_set, Compared, eq_ℤ, le_ℤ, le_string, eq_bool, narrow, ints, strings, bools,
  doubles, locations, eq_handle, distance, default_location, get_s, get_d, get_b, get_i, get_l,
  eq_type,
}
use oef_mt_core.CoreFunctions.Attributes.{Attribute, attribute}

pub data RelationOperator : Type 0 where
  eq lt lteq gt gteq noteq : RelationOperator

pub record Relation (D : Type 0) : Type 0 where
  pub op : RelationOperator
  pub val : Value D

pub data SetOperator : Type 0 where
  is_in is_not_in : SetOperator

-- `Query_Set_Values`, a oneof.
pub data Values (D : Type 0) : Type 0 where
  values_s : List Name → Values D
  values_d : List D → Values D
  values_b : List Bool → Values D
  values_i : List ℤ → Values D
  values_l : List (Location D) → Values D
  values_not_set : Values D

pub record Set (D : Type 0) : Type 0 where
  pub op : SetOperator
  pub vals : Values D

pub record Distance (D : Type 0) : Type 0 where
  pub center : Location D
  pub distance : D

-- `Query_Range`, a oneof of pairs.
pub data Range (D : Type 0) : Type 0 where
  range_s : Name → Name → Range D
  range_i : ℤ → ℤ → Range D
  range_d : D → D → Range D
  range_l : Location D → Location D → Range D
  range_not_set : Range D

pub data ConstraintCase (D : Type 0) : Type 0 where
  set_ : Set D → ConstraintCase D
  range_ : Range D → ConstraintCase D
  relation : Relation D → ConstraintCase D
  within : Distance D → ConstraintCase D
  constraint_not_set : ConstraintCase D

pub record Constraint (D : Type 0) : Type 0 where
  pub attribute_name : Name
  pub constraint : ConstraintCase D

abbrev pub compare_by : {T : Type 0} → Compared T → RelationOperator → T → T → Bool
compare_by C eq s v = C.eq s v
compare_by C noteq s v = not (C.eq s v)
compare_by C lt s v = C.lt v s
compare_by C lteq s v = C.le v s
compare_by C gt s v = C.lt s v
compare_by C gteq s v = C.le s v

abbrev pub for_equality : RelationOperator → Bool
for_equality eq = true
for_equality noteq = true
for_equality _ = false

-- The loop over the values of a set.
abbrev pub contains : {S T : Type 0} → (S → T → Bool) → List S → T → Bool
contains test [] v = false
contains test (val ∷ vals) v =
    let later = contains test vals v in if test val v then true else later

-- What `check` answers when the loop has said whether the value is in the set.
abbrev pub answer : SetOperator → Bool → Bool
answer is_in res = res
answer is_not_in res = not res

module _ {D : Type 0} where
  abbrev pub strings_in : Values D → List Name
  strings_in (values_s vals) = vals
  strings_in _ = []

  abbrev pub doubles_in : Values D → List D
  doubles_in (values_d vals) = vals
  doubles_in _ = []

  abbrev pub bools_in : Values D → List Bool
  bools_in (values_b vals) = vals
  bools_in _ = []

  abbrev pub ints_in : Values D → List ℤ
  ints_in (values_i vals) = vals
  ints_in _ = []

  abbrev pub locations_in : Values D → List (Location D)
  locations_in (values_l vals) = vals
  locations_in _ = []

  abbrev pub val_valid : Bool → Value D → AttributeType → Bool
  val_valid equal (value_s s) t = eq_type t string_type
  val_valid equal (value_i i) t = eq_type t int_type
  val_valid equal (value_d d) t = eq_type t double_type
  val_valid equal (value_l l) t = eq_type t location_type && equal
  val_valid equal (value_b b) t = eq_type t bool_type && equal
  val_valid equal value_not_set t = false

  abbrev pub relation_valid : Relation D → AttributeType → Bool
  relation_valid rel t = val_valid (for_equality rel.op) rel.val t

  unfoldable pub values_valid : Values D → AttributeType → Bool
  values_valid (values_s vals) t = eq_type t string_type
  values_valid (values_i vals) t = eq_type t int_type
  values_valid (values_d vals) t = eq_type t double_type
  values_valid (values_l vals) t = eq_type t location_type
  values_valid (values_b vals) t = eq_type t bool_type
  values_valid values_not_set t = false

  abbrev pub set_valid : Set D → AttributeType → Bool
  set_valid set t = values_valid set.vals t

  abbrev pub distance_valid : Distance D → AttributeType → Bool
  distance_valid dist t = eq_type t location_type

  unfoldable pub range_valid : Range D → AttributeType → Bool
  range_valid (range_s s s') t = eq_type t string_type
  range_valid (range_i i i') t = eq_type t int_type
  range_valid (range_d d d') t = eq_type t double_type
  range_valid (range_l l l') t = eq_type t location_type
  range_valid range_not_set t = false

  -- `Constraint::valid`, once the attribute has been found.
  unfoldable pub case_valid : ConstraintCase D → AttributeType → Bool
  case_valid (set_ set) t = set_valid set t
  case_valid (range_ range) t = range_valid range t
  case_valid (relation rel) t = relation_valid rel t
  case_valid (within dist) t = distance_valid dist t
  case_valid constraint_not_set t = false

  abbrev pub valid_for : ConstraintCase D → Option Attribute → Bool
  valid_for c none = false
  valid_for c (some a) = case_valid c a.type

  abbrev pub constraint_valid : Constraint D → List Attribute → Bool
  constraint_valid c attributes = valid_for c.constraint (attribute attributes c.attribute_name)

module _ {D : Type 0} (O : Doubles D) where
  unfoldable pub check_relation : Relation D → VariantType D → Bool
  check_relation rel (int i) = compare_by ints rel.op (narrow (get_i O rel.val)) i
  check_relation rel (double d) = compare_by (doubles O) rel.op (get_d O rel.val) d
  check_relation rel (string s) = compare_by strings rel.op (get_s O rel.val) s
  check_relation rel (bool b) = compare_by bools rel.op (get_b O rel.val) b
  check_relation rel (location l) = compare_by (locations O) rel.op (get_l O rel.val) l

  unfoldable pub check_set : Set D → VariantType D → Bool
  check_set set (int i) = answer set.op (contains eq_ℤ (ints_in set.vals) i)
  check_set set (double d) = answer set.op (contains O.eq (doubles_in set.vals) d)
  check_set set (string s) = answer set.op (contains same (strings_in set.vals) s)
  check_set set (bool b) = answer set.op (contains eq_bool (bools_in set.vals) b)
  check_set set (location l) =
      answer set.op (contains (λ val m. eq_handle O m val) (locations_in set.vals) l)

  unfoldable pub check_distance : Distance D → VariantType D → Bool
  check_distance dist (location l) = O.le (distance O dist.center l) dist.distance
  check_distance dist _ = false

  abbrev pub min_max : D → D → D × D
  min_max a b = if O.lt a b then (a, b) else (b, a)

  abbrev pub in_box : Location D → Location D → Location D → Bool
  in_box first second s =
      let (min_lat, max_lat) = min_max first.lat second.lat in
      let (min_lon, max_lon) = min_max first.lon second.lon in
      O.le min_lat s.lat && O.le s.lat max_lat && O.le min_lon s.lon && O.le s.lon max_lon

  abbrev pub pair_i : Range D → ℤ × ℤ
  pair_i (range_i first second) = (first, second)
  pair_i _ = (pos 0, pos 0)

  abbrev pub pair_d : Range D → D × D
  pair_d (range_d first second) = (first, second)
  pair_d _ = (O.nought, O.nought)

  abbrev pub pair_s : Range D → Name × Name
  pair_s (range_s first second) = (first, second)
  pair_s _ = ([], [])

  abbrev pub pair_l : Range D → Location D × Location D
  pair_l (range_l first second) = (first, second)
  pair_l _ = (default_location O, default_location O)

  unfoldable pub check_range : Range D → VariantType D → Bool
  check_range range (int i) = let (first, second) = pair_i range in le_ℤ first i && le_ℤ i second
  check_range range (double d) = let (first, second) = pair_d range in O.le first d && O.le d second
  check_range range (string s) =
      let (first, second) = pair_s range in le_string first s && le_string s second
  check_range range (location l) = let (first, second) = pair_l range in in_box first second l
  check_range range (bool b) = false

  unfoldable pub check_case : ConstraintCase D → VariantType D → Bool
  check_case (set_ set) v = check_set set v
  check_case (range_ range) v = check_range range v
  check_case (relation rel) v = check_relation rel v
  check_case (within dist) v = check_distance dist v
  check_case constraint_not_set v = false

  -- `Constraint::check` of an instance, of which it gets the value of the attribute.
  unfoldable pub check_found : ConstraintCase D → Option (VariantType D) → Bool
  check_found c none = false
  check_found c (some v) = check_case c v
