-- ===== src/CoreFunctions/Constraints/Meaning.antt =====
-- What the constraints of oef-core-functions/src/cpp/lib/schema.hpp mean, apart from how they are
-- computed: relations between values, membership, and bounds.
use oef_mt_core.Base.{
  ℕ, suc, ◌-◌, ◌^◌, ◌<◌, ◌≡◌, refl, sym, ap, subst, ◌∙◌, ◌⊎◌, inl, inr, Bool, true, false, ◌&&◌,
  List, [], ◌∷◌, some, arith, ==_iff, ◌↔◌, ltb→lt, lt→ltb, if◌then◌else◌,
}
use oef_mt_core.Base.Decides.{
  Decides, of_iff, absurd_of, decides_self, decides_false, decides_unit, decides_not, decides_both,
  decides_or, decides_either, decides_is_false,
}
use oef_mt_core.Base.Int.{ℤ, pos, negsuc, ◌≤ℤ◌, ltb_ℤ, pos_part, neg_part}
use oef_mt_core.Karma.BucketsOf.{Name, same}
use oef_mt_core.Karma.BucketsOf.Laws.{same_refl, same-eq}
use oef_mt_core.CoreFunctions.Values.{
  Doubles, Location, VariantType, int, double, string, bool, location, Value, value_s, value_d,
  value_b, value_i, value_l, Compared, eq_ℤ, le_ℤ, lt_string, eq_bool, ints, strings, bools,
  doubles, locations, eq_handle, distance,
}
use oef_mt_core.CoreFunctions.Constraints.{
  RelationOperator, eq, noteq, lt, lteq, gt, gteq, SetOperator, is_in, is_not_in, Values, values_s,
  values_d, values_b, values_i, values_l, Distance, Range, range_s, range_i, range_d, range_l,
  ConstraintCase, set_, range_, relation, within, constraint_not_set, compare_by, contains, answer,
  min_max,
}
use oef_mt_core.CoreFunctions.Instances.RoundTrip.{narrow_lem}
use oef_mt_core.CoreFunctions.Query.Typing.{
  strict_relation, strict_set, strict_range, strict_distance, strict_case,
}

-- Some element has the property.
unfoldable pub Exists : {S : Type 0} → (S → Type 0) → List S → Type 0
Exists P [] = ⊥
Exists P (x ∷ xs) = P x ⊎ Exists P xs

contains_decides :
    {S T : Type 0} (test : S → T → Bool) (P : S → T → Type 0) (vals : List S) (v : T)
    → ((s : S) → Decides (test s v) (P s v))
    → Decides (contains test vals v) (Exists (λ s. P s v) vals)
unfolding Exists
contains_decides test P [] v d = decides_false
contains_decides test P (x ∷ xs) v d = decides_or (d x) (contains_decides test P xs v d)

unfoldable pub Answers : SetOperator → Type 0 → Type 0
Answers is_in P = P
Answers is_not_in P = ¬ P

answer_decides :
    (op : SetOperator) {b : Bool} {P : Type 0} → Decides b P → Decides (answer op b) (Answers op P)
unfolding Answers
answer_decides is_in d = d
answer_decides is_not_in d = decides_not d

-- The types of values come with an equality and two orders.
pub record Meant (T : Type 0) : Type 1 where
  pub Eq : T → T → Type 0
  pub Lt : T → T → Type 0
  pub Le : T → T → Type 0

abbrev AreMeant : {T : Type 0} → Compared T → Meant T → Type 0
AreMeant {T = T} C M =
    (a b : T)
    → Decides (C.eq a b) (M.Eq a b) × Decides (C.lt a b) (M.Lt a b) × Decides (C.le a b) (M.Le a b)

unfoldable pub Related : {T : Type 0} → Meant T → RelationOperator → T → T → Type 0
Related M eq s v = M.Eq s v
Related M noteq s v = ¬ M.Eq s v
Related M lt s v = M.Lt v s
Related M lteq s v = M.Le v s
Related M gt s v = M.Lt s v
Related M gteq s v = M.Le s v

Related-decides :
    {T : Type 0} (C : Compared T) (M : Meant T) (op : RelationOperator) (s v : T)
    → AreMeant C M
    → Decides (compare_by C op s v) (Related M op s v)
unfolding Related
Related-decides C M eq s v d = (d s v).0
Related-decides C M noteq s v d = decides_not (d s v).0
Related-decides C M lt s v d = (d v s).1
Related-decides C M lteq s v d = (d v s).2
Related-decides C M gt s v d = (d s v).1
Related-decides C M gteq s v d = (d s v).2

-- The order of a dictionary.
unfoldable pub Before : Name → Name → Type 0
Before [] [] = ⊥
Before [] (d ∷ ds) = Unit
Before (c ∷ cs) [] = ⊥
Before (c ∷ cs) (d ∷ ds) = (c < d) ⊎ ((c ≡ d) × Before cs ds)

lt_string_decides : (s t : Name) → Decides (lt_string s t) (Before s t)
unfolding lt_string Before
lt_string_decides [] [] = decides_false
lt_string_decides [] (d ∷ ds) = decides_unit
lt_string_decides (c ∷ cs) [] = decides_false
lt_string_decides (c ∷ cs) (d ∷ ds) =
    decides_either (of_iff (ltb→lt c d, lt→ltb c d))
      (decides_both (of_iff (==_iff c d)) (lt_string_decides cs ds))

-- Numbers by their size, strings by the dictionary, false before true.
unfoldable pub ints_meant : Meant ℤ
ints_meant = record { Eq = λ a b. a ≡ b; Lt = λ a b. ¬ (b ≤ℤ a); Le = λ a b. a ≤ℤ b }

unfoldable pub strings_meant : Meant Name
strings_meant = record { Eq = λ s t. s ≡ t; Lt = λ s t. Before s t; Le = λ s t. ¬ Before t s }

unfoldable pub bools_meant : Meant Bool
bools_meant = record {
  Eq = λ a b. a ≡ b;
  Lt = λ a b. (a ≡ false) × (b ≡ true);
  Le = λ a b. (a ≡ false) ⊎ (b ≡ true);
}

suc_eq : {a b : ℕ} → suc a ≡ suc b → a ≡ b
suc_eq h = omega arith

eq_ℤ_iff : (i j : ℤ) → (eq_ℤ i j ≡ true) ↔ (i ≡ j)
unfolding eq_ℤ
eq_ℤ_iff (pos a) (pos b) = ((λ h. ap pos ((==_iff a b).0 h)), λ e. (==_iff a b).1 (ap pos_part e))
eq_ℤ_iff (negsuc a) (negsuc b) =
    ((λ h. ap negsuc ((==_iff a b).0 h)), λ e. (==_iff a b).1 (suc_eq (ap neg_part e)))
eq_ℤ_iff (pos a) (negsuc b) = ((λ h. absurd (grind arith)), λ e. absurd (grind arith))
eq_ℤ_iff (negsuc a) (pos b) = ((λ h. absurd (grind arith)), λ e. absurd (grind arith))

le_ℤ_iff : (i j : ℤ) → (le_ℤ i j ≡ true) ↔ (i ≤ℤ j)
le_ℤ_iff i j = ground arith

lt_ℤ_iff : (i j : ℤ) → (ltb_ℤ i j ≡ true) ↔ (¬ (j ≤ℤ i))
lt_ℤ_iff i j = ground arith

pub same_iff : (s t : Name) → (same s t ≡ true) ↔ (s ≡ t)
same_iff s t = (same-eq s t, λ e. subst (λ u. same s u ≡ true) e (same_refl s))

eq_bool_iff : (a b : Bool) → (eq_bool a b ≡ true) ↔ (a ≡ b)
eq_bool_iff true b = ((λ h. sym h), λ e. sym e)
eq_bool_iff false true = ((λ h. absurd (grind arith)), λ e. absurd (grind arith))
eq_bool_iff false false = ((λ h. refl), λ e. refl)

ints_decide : AreMeant ints ints_meant
unfolding ints_meant
ints_decide i j = (of_iff (eq_ℤ_iff i j), of_iff (lt_ℤ_iff i j), of_iff (le_ℤ_iff i j))

strings_decide : AreMeant strings strings_meant
unfolding strings_meant
strings_decide s t =
    (of_iff (same_iff s t), lt_string_decides s t, decides_not (lt_string_decides t s))

bools_decide : AreMeant bools bools_meant
unfolding bools_meant
bools_decide a b = (
  of_iff (eq_bool_iff a b),
  decides_both (decides_is_false a) (decides_self b),
  decides_either (decides_is_false a) (decides_self b),
)

unfoldable pub Int32Value : {D : Type 0} → Value D → Type 0
Int32Value (value_i i) = (negsuc (2 ^ 31 - 1) ≤ℤ i) × (i ≤ℤ pos (2 ^ 31 - 1))
Int32Value _ = Unit

-- What a strict evaluation answers, if it does.
answers_decide : {b c : Bool} {P : Type 0} → some b ≡ some c → Decides b P → Decides c P
answers_decide {b = b} {c = c} {P = P} h d =
    let same : b ≡ c = ground (arith, h) in subst (λ x. Decides x P) same d

module _ {D : Type 0} (O : Doubles D) where
  -- Doubles by the operators of the platform, locations by their latitudes and as pairs.
  unfoldable pub doubles_meant : Meant D
  doubles_meant = record {
    Eq = λ a b. O.eq a b ≡ true;
    Lt = λ a b. O.lt a b ≡ true;
    Le = λ a b. O.le a b ≡ true;
  }

  unfoldable pub locations_meant : Meant (Location D)
  locations_meant = record {
    Eq = λ l m. (O.eq l.lon m.lon ≡ true) × (O.eq l.lat m.lat ≡ true);
    Lt = λ l m. O.lt l.lat m.lat ≡ true;
    Le = λ l m. O.le l.lat m.lat ≡ true;
  }

  doubles_decide : AreMeant (doubles O) doubles_meant
  unfolding doubles_meant
  doubles_decide a b = (decides_self (O.eq a b), decides_self (O.lt a b), decides_self (O.le a b))

  locations_decide : AreMeant (locations O) locations_meant
  unfolding locations_meant
  locations_decide l m = (
    decides_both (decides_self (O.eq l.lon m.lon)) (decides_self (O.eq l.lat m.lat)),
    decides_self (O.lt l.lat m.lat),
    decides_self (O.le l.lat m.lat),
  )

  -- A relation holds of a value of the type of its constant.
  unfoldable pub RelationHolds : RelationOperator → Value D → VariantType D → Type 0
  RelationHolds op (value_i i) (int j) = Related ints_meant op i j
  RelationHolds op (value_d d) (double e) = Related doubles_meant op d e
  RelationHolds op (value_s s) (string t) = Related strings_meant op s t
  RelationHolds op (value_b b) (bool c) = Related bools_meant op b c
  RelationHolds op (value_l l) (location m) = Related locations_meant op l m
  RelationHolds op _ _ = ⊥

  -- The constant of a relation was an int.
  unfoldable pub HasInt32 : ConstraintCase D → Type 0
  HasInt32 (relation rel) = Int32Value rel.val
  HasInt32 _ = Unit

  relation_decides :
      (op : RelationOperator) (val : Value D) (v : VariantType D) (b : Bool)
      → Int32Value val
      → strict_relation O op val v ≡ some b
      → Decides b (RelationHolds op val v)
  unfolding strict_relation RelationHolds Int32Value
  relation_decides op (value_i i) (int j) b (low, high) h = answers_decide h (
      subst (λ k. Decides (compare_by ints op k j) (Related ints_meant op i j))
        (sym (narrow_lem i low high)) (Related-decides ints ints_meant op i j ints_decide))
  relation_decides op (value_d d) (double e) b fits h =
      answers_decide h (Related-decides (doubles O) doubles_meant op d e doubles_decide)
  relation_decides op (value_s s) (string t) b fits h =
      answers_decide h (Related-decides strings strings_meant op s t strings_decide)
  relation_decides op (value_b c) (bool d) b fits h =
      answers_decide h (Related-decides bools bools_meant op c d bools_decide)
  relation_decides op (value_l l) (location m) b fits h =
      answers_decide h (Related-decides (locations O) locations_meant op l m locations_decide)
  relation_decides op _ _ b fits h = absurd (grind arith)

  -- A value of the type of the set is one of its values, or none of them.
  unfoldable pub SetHolds : SetOperator → Values D → VariantType D → Type 0
  SetHolds op (values_i vals) (int i) = Answers op (Exists (λ val. val ≡ i) vals)
  SetHolds op (values_d vals) (double d) = Answers op (Exists (λ val. O.eq val d ≡ true) vals)
  SetHolds op (values_s vals) (string s) = Answers op (Exists (λ val. val ≡ s) vals)
  SetHolds op (values_b vals) (bool b) = Answers op (Exists (λ val. val ≡ b) vals)
  SetHolds op (values_l vals) (location l) =
      Answers op (Exists (λ val. (O.eq l.lat val.lat ≡ true) × (O.eq l.lon val.lon ≡ true)) vals)
  SetHolds op _ _ = ⊥

  set_decides :
      (op : SetOperator) (vals : Values D) (v : VariantType D) (b : Bool)
      → strict_set O op vals v ≡ some b
      → Decides b (SetHolds op vals v)
  unfolding strict_set SetHolds
  set_decides op (values_i vals) (int i) b h = answers_decide h (
      answer_decides op
        (contains_decides eq_ℤ (λ val j. val ≡ j) vals i (λ val. of_iff (eq_ℤ_iff val i))))
  set_decides op (values_d vals) (double d) b h = answers_decide h (
      answer_decides op (
        contains_decides O.eq (λ val e. O.eq val e ≡ true) vals d
          (λ val. decides_self (O.eq val d))))
  set_decides op (values_s vals) (string s) b h = answers_decide h (
      answer_decides op
        (contains_decides same (λ val t. val ≡ t) vals s (λ val. of_iff (same_iff val s))))
  set_decides op (values_b vals) (bool c) b h = answers_decide h (
      answer_decides op
        (contains_decides eq_bool (λ val d. val ≡ d) vals c (λ val. of_iff (eq_bool_iff val c))))
  set_decides op (values_l vals) (location l) b h = answers_decide h (
      answer_decides op (
        contains_decides (λ val m. eq_handle O m val)
          (λ val m. (O.eq m.lat val.lat ≡ true) × (O.eq m.lon val.lon ≡ true)) vals l
          (λ val.
            decides_both (decides_self (O.eq l.lat val.lat)) (decides_self (O.eq l.lon val.lon)))))
  set_decides op _ _ b h = absurd (grind arith)

  abbrev Between : {T : Type 0} → Meant T → T → T → T → Type 0
  Between M a b v = M.Le a v × M.Le v b

  -- Between two numbers, whichever is the lower.
  abbrev pub Spans : D → D → D → Type 0
  Spans a b x =
      ((O.lt a b ≡ true) × (O.le a x ≡ true) × (O.le x b ≡ true))
      ⊎ ((O.lt a b ≡ false) × (O.le b x ≡ true) × (O.le x a ≡ true))

  min_max-Spans :
      (t : Bool) (a b x : D)
      → O.lt a b ≡ t
      → let ends : D × D = if t then (a, b) else (b, a) in
        Decides (O.le ends.0 x && O.le x ends.1) (Spans a b x)
  min_max-Spans true a b x h =
      let d = decides_both (decides_self (O.le a x)) (decides_self (O.le x b)) in
      (
        (λ e. let p = d.0 e in inl (h, p.0, p.1)),
        λ e p. elim p [ inl q ↦ d.1 e (q.1, q.2) | inr q ↦ absurd_of (sym h ∙ q.0) ],
      )
  min_max-Spans false a b x h =
      let d = decides_both (decides_self (O.le b x)) (decides_self (O.le x a)) in
      (
        (λ e. let p = d.0 e in inr (h, p.0, p.1)),
        λ e p. elim p [ inl q ↦ absurd_of (sym q.0 ∙ h) | inr q ↦ d.1 e (q.1, q.2) ],
      )

  -- A value between the bounds; a location in the box that two corners span, whichever they are.
  unfoldable pub RangeHolds : Range D → VariantType D → Type 0
  RangeHolds (range_i a b) (int i) = Between ints_meant a b i
  RangeHolds (range_d a b) (double d) = Between doubles_meant a b d
  RangeHolds (range_s a b) (string s) = Between strings_meant a b s
  RangeHolds (range_l a b) (location l) = Spans a.lat b.lat l.lat × Spans a.lon b.lon l.lon
  RangeHolds _ _ = ⊥

  and_assoc : (p q r s : Bool) → ((p && q) && (r && s)) ≡ (((p && q) && r) && s)
  and_assoc true true r s = refl
  and_assoc true false r s = refl
  and_assoc false q r s = refl

  range_decides :
      (range : Range D) (v : VariantType D) (b : Bool)
      → strict_range O range v ≡ some b
      → Decides b (RangeHolds range v)
  unfolding strict_range RangeHolds
  range_decides (range_i a c) (int i) b h =
      answers_decide h (decides_both (ints_decide a i).2 (ints_decide i c).2)
  range_decides (range_d a c) (double d) b h =
      answers_decide h (decides_both (doubles_decide a d).2 (doubles_decide d c).2)
  range_decides (range_s a c) (string s) b h =
      answers_decide h (decides_both (strings_decide a s).2 (strings_decide s c).2)
  range_decides (range_l a c) (location l) b h =
      let lats = min_max O a.lat c.lat in
      let lons = min_max O a.lon c.lon in
      answers_decide h (
        subst (λ t. Decides t (Spans a.lat c.lat l.lat × Spans a.lon c.lon l.lon))
          (and_assoc (O.le lats.0 l.lat) (O.le l.lat lats.1) (O.le lons.0 l.lon)
            (O.le l.lon lons.1))
          (decides_both (min_max-Spans (O.lt a.lat c.lat) a.lat c.lat l.lat refl)
            (min_max-Spans (O.lt a.lon c.lon) a.lon c.lon l.lon refl)))
  range_decides _ _ b h = absurd (grind arith)

  -- The distance on the sphere by the haversine formula, in kilometres.
  unfoldable pub haversine : Location D → Location D → D
  haversine from to =
      let radians = λ (x : D). O.over (O.times O.pi x) O.half_turn in
      let half_sine = λ (x y : D). O.sin (O.over (O.minus (radians y) (radians x)) O.two) in
      let north = half_sine from.lat to.lat in
      let east = half_sine from.lon to.lon in
      let scale = O.times (O.cos (radians from.lat)) (O.cos (radians to.lat)) in
      O.times (O.times O.two O.earth_radius_km)
        (O.asin (O.sqrt (O.plus (O.times north north) (O.times (O.times scale east) east))))

  unfoldable pub DistanceHolds : Distance D → VariantType D → Type 0
  DistanceHolds dist (location l) = O.le (haversine dist.center l) dist.distance ≡ true
  DistanceHolds dist _ = ⊥

  distance_decides :
      (dist : Distance D) (v : VariantType D) (b : Bool)
      → strict_distance O dist v ≡ some b
      → Decides b (DistanceHolds dist v)
  unfolding strict_distance DistanceHolds haversine distance
  distance_decides dist (location l) b h =
      answers_decide h (decides_self (O.le (distance O dist.center l) dist.distance))
  distance_decides dist _ b h = absurd (grind arith)

  unfoldable pub Holds : ConstraintCase D → VariantType D → Type 0
  Holds (set_ set) v = SetHolds set.op set.vals v
  Holds (range_ range) v = RangeHolds range v
  Holds (relation rel) v = RelationHolds rel.op rel.val v
  Holds (within dist) v = DistanceHolds dist v
  Holds constraint_not_set v = ⊥

  -- A constraint that is checked strictly, with a constant that is an int if it is a whole number,
  -- holds of the value exactly if the answer is true.
  pub case_decides :
      (c : ConstraintCase D) (v : VariantType D) (b : Bool)
      → HasInt32 c
      → strict_case O c v ≡ some b
      → Decides b (Holds c v)
  unfolding strict_case Holds HasInt32
  case_decides (set_ set) v b fits h = set_decides set.op set.vals v b h
  case_decides (range_ range) v b fits h = range_decides range v b h
  case_decides (relation rel) v b fits h = relation_decides rel.op rel.val v b fits h
  case_decides (within dist) v b fits h = distance_decides dist v b h
  case_decides constraint_not_set v b fits h = absurd (grind arith)
