-- ===== src/CoreFunctions/Values.antt =====
-- oef-core-functions/src/cpp/lib/schema.hpp, the values of attributes. A double is of any type `D`
-- with the operations of a `Doubles`; a > b and a >= b are b < a and b <= a, and a != b is the
-- negation of a == b, as IEEE 754 has them. A string is the list of its characters.
use oef_mt_core.Base.{
  ◌%◌, ◌^◌, Bool, true, false, not, ◌&&◌, ◌||◌, [], ◌∷◌, ltb, ◌==◌, ◌≡◌, refl, arith,
}
use oef_mt_core.Base.Int.{ℤ, pos, negsuc, ltb_ℤ, to_size}
use oef_mt_core.BasicComms.Int32.{to_int32}
use oef_mt_core.Karma.BucketsOf.{Name, same}

-- The arithmetic of the platform and of <cmath>, and the constants that the source writes.
pub record Doubles (D : Type 0) : Type 0 where
  pub eq : D → D → Bool
  pub lt : D → D → Bool
  pub le : D → D → Bool
  pub plus : D → D → D
  pub minus : D → D → D
  pub times : D → D → D
  pub over : D → D → D
  pub sin : D → D
  pub cos : D → D
  pub asin : D → D
  pub sqrt : D → D
  pub pi : D
  -- 0, 2, 180 and 6372.8.
  pub nought : D
  pub two : D
  pub half_turn : D
  pub earth_radius_km : D

pub record Location (D : Type 0) : Type 0 where
  pub lon : D
  pub lat : D

-- `Query_Attribute_Type`; `Type` of the source has the same five.
pub data AttributeType : Type 0 where
  double_type int_type bool_type string_type location_type : AttributeType

pub data VariantType (D : Type 0) : Type 0 where
  int : ℤ → VariantType D
  double : D → VariantType D
  string : Name → VariantType D
  bool : Bool → VariantType D
  location : Location D → VariantType D

-- `Query_Value`, a oneof.
pub data Value (D : Type 0) : Type 0 where
  value_s : Name → Value D
  value_d : D → Value D
  value_b : Bool → Value D
  value_i : ℤ → Value D
  value_l : Location D → Value D
  value_not_set : Value D

-- The operators that the templates use on a type.
pub record Compared (T : Type 0) : Type 0 where
  pub eq : T → T → Bool
  pub lt : T → T → Bool
  pub le : T → T → Bool

unfoldable pub eq_ℤ : ℤ → ℤ → Bool
eq_ℤ (pos a) (pos b) = a == b
eq_ℤ (negsuc a) (negsuc b) = a == b
eq_ℤ _ _ = false

abbrev pub le_ℤ : ℤ → ℤ → Bool
le_ℤ a b = not (ltb_ℤ b a)

-- `operator<` of std::string.
unfoldable pub lt_string : Name → Name → Bool
lt_string [] [] = false
lt_string [] (d ∷ ds) = true
lt_string (c ∷ cs) [] = false
lt_string (c ∷ cs) (d ∷ ds) = ltb c d || ((c == d) && lt_string cs ds)

abbrev pub le_string : Name → Name → Bool
le_string s t = not (lt_string t s)

abbrev pub eq_bool : Bool → Bool → Bool
eq_bool true b = b
eq_bool false b = not b

-- `int i = val.i()`, of an int64.
unfoldable pub narrow : ℤ → ℤ
narrow i = to_int32 (to_size i % 2 ^ 32)

abbrev pub ints : Compared ℤ
ints = record { eq = eq_ℤ; lt = ltb_ℤ; le = le_ℤ }

abbrev pub strings : Compared Name
strings = record { eq = same; lt = lt_string; le = le_string }

abbrev pub bools : Compared Bool
bools = record { eq = eq_bool; lt = λ a b. not a && b; le = λ a b. not a || b }

module _ {D : Type 0} (O : Doubles D) where
  abbrev pub doubles : Compared D
  doubles = record { eq = O.eq; lt = O.lt; le = O.le }

  -- The order of locations is that of their latitudes alone.
  abbrev pub locations : Compared (Location D)
  locations = record {
    eq = λ l m. O.eq l.lon m.lon && O.eq l.lat m.lat;
    lt = λ l m. O.lt l.lat m.lat;
    le = λ l m. O.le l.lat m.lat;
  }

  -- `operator==` with a `Query_Location`.
  abbrev pub eq_handle : Location D → Location D → Bool
  eq_handle l m = O.eq l.lat m.lat && O.eq l.lon m.lon

  abbrev pub degree_to_radian : D → D
  degree_to_radian angle = O.over (O.times O.pi angle) O.half_turn

  unfoldable pub distance : Location D → Location D → D
  distance this rhs =
      let lat_rad1 = degree_to_radian this.lat in
      let lat_rad2 = degree_to_radian rhs.lat in
      let lon_rad1 = degree_to_radian this.lon in
      let lon_rad2 = degree_to_radian rhs.lon in
      let diff_la = O.minus lat_rad2 lat_rad1 in
      let doff_lo = O.minus lon_rad2 lon_rad1 in
      let sin_la = O.sin (O.over diff_la O.two) in
      let sin_lo = O.sin (O.over doff_lo O.two) in
      let computation = O.asin (
        O.sqrt (
          O.plus (O.times sin_la sin_la)
            (O.times (O.times (O.times (O.cos lat_rad1) (O.cos lat_rad2)) sin_lo) sin_lo))) in
      O.times (O.times O.two O.earth_radius_km) computation

  -- The getters of a oneof answer with the default of their type when another case is set.
  abbrev pub default_location : Location D
  default_location = record { lon = O.nought; lat = O.nought }

  abbrev pub get_s : Value D → Name
  get_s (value_s s) = s
  get_s _ = []

  abbrev pub get_d : Value D → D
  get_d (value_d d) = d
  get_d _ = O.nought

  abbrev pub get_b : Value D → Bool
  get_b (value_b b) = b
  get_b _ = false

  abbrev pub get_i : Value D → ℤ
  get_i (value_i i) = i
  get_i _ = pos 0

  abbrev pub get_l : Value D → Location D
  get_l (value_l l) = l
  get_l _ = default_location

module _ {D : Type 0} where
  abbrev pub type_of : VariantType D → AttributeType
  type_of (int i) = int_type
  type_of (double d) = double_type
  type_of (string s) = string_type
  type_of (bool b) = bool_type
  type_of (location l) = location_type

  -- The value with the case of the variant set.
  abbrev pub to_value : VariantType D → Value D
  to_value (int i) = value_i i
  to_value (double d) = value_d d
  to_value (string s) = value_s s
  to_value (bool b) = value_b b
  to_value (location l) = value_l l

abbrev pub eq_type : AttributeType → AttributeType → Bool
eq_type double_type double_type = true
eq_type int_type int_type = true
eq_type bool_type bool_type = true
eq_type string_type string_type = true
eq_type location_type location_type = true
eq_type _ _ = false

pub eq_type-eq : (s t : AttributeType) → eq_type s t ≡ true → s ≡ t
eq_type-eq double_type double_type h = refl
eq_type-eq int_type int_type h = refl
eq_type-eq bool_type bool_type h = refl
eq_type-eq string_type string_type h = refl
eq_type-eq location_type location_type h = refl
eq_type-eq _ _ h = absurd (grind arith)

pub eq_type_refl : (t : AttributeType) → eq_type t t ≡ true
eq_type_refl double_type = refl
eq_type_refl int_type = refl
eq_type_refl bool_type = refl
eq_type_refl string_type = refl
eq_type_refl location_type = refl
