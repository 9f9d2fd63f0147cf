-- ===== src/CoreFunctions/Query/Typing.antt =====
-- Type soundness of queries, oef-core-functions/src/cpp/lib/schema.hpp: `valid` against an evaluation
-- that reads only the case of a oneof that is set.
use oef_mt_core.Base.{
  ◌≡◌, refl, ap, subst, ◌∙◌, Bool, true, false, not, ◌&&◌, List, Option, none, some, arith,
  if◌then◌else◌, ltb, else_of,
}
use oef_mt_core.Karma.BucketsOf.{Name, same, find}
use oef_mt_core.CoreFunctions.Values.{
  Doubles, VariantType, int, double, string, bool, location, Value, value_s, value_d, value_b,
  value_i, value_l, eq_ℤ, le_ℤ, le_string, eq_bool, narrow, ints, strings, bools, doubles,
  locations, eq_handle, distance, type_of,
}
use oef_mt_core.CoreFunctions.Attributes.{Attribute, DataModel, attribute}
use oef_mt_core.CoreFunctions.Constraints.{
  RelationOperator, for_equality, val_valid, SetOperator, Values, values_s, values_d, values_b,
  values_i, values_l, Distance, Range, range_s, range_i, range_d, range_l, ConstraintCase, set_,
  range_, relation, within, constraint_not_set, Constraint, compare_by, contains, answer,
  values_valid, range_valid, distance_valid, case_valid, valid_for, constraint_valid, in_box,
  check_relation, check_set, check_distance, check_range, check_case, check_found,
}
use oef_mt_core.CoreFunctions.Instances.{Instance, value}
use oef_mt_core.CoreFunctions.Instances.Required.{IsWellTyped}
use oef_mt_core.CoreFunctions.Query.{
  ConstraintExpr, or_, and_, not_, constraint_, expression_not_set, Exprs, nil, cons, expr_size,
  QueryModel, check_expr, check_any, check_all, leaf_of, is_for, check, valid_expr, valid_all,
  valid_in, valid,
}

-- `none` is a type error.
abbrev pub after : Option Bool → (Bool → Option Bool) → Option Bool
after none k = none
after (some b) k = k b

module _ {D : Type 0} (O : Doubles D) where
  unfoldable pub strict_relation : RelationOperator → Value D → VariantType D → Option Bool
  strict_relation op (value_i i) (int j) = some (compare_by ints op (narrow i) j)
  strict_relation op (value_d d) (double e) = some (compare_by (doubles O) op d e)
  strict_relation op (value_s s) (string t) = some (compare_by strings op s t)
  strict_relation op (value_b b) (bool c) = some (compare_by bools op b c)
  strict_relation op (value_l l) (location m) = some (compare_by (locations O) op l m)
  strict_relation op _ _ = none

  unfoldable pub strict_set : SetOperator → Values D → VariantType D → Option Bool
  strict_set op (values_i vals) (int i) = some (answer op (contains eq_ℤ vals i))
  strict_set op (values_d vals) (double d) = some (answer op (contains O.eq vals d))
  strict_set op (values_s vals) (string s) = some (answer op (contains same vals s))
  strict_set op (values_b vals) (bool b) = some (answer op (contains eq_bool vals b))
  strict_set op (values_l vals) (location l) =
      some (answer op (contains (λ val m. eq_handle O m val) vals l))
  strict_set op _ _ = none

  unfoldable pub strict_range : Range D → VariantType D → Option Bool
  strict_range (range_i a b) (int i) = some (le_ℤ a i && le_ℤ i b)
  strict_range (range_d a b) (double d) = some (O.le a d && O.le d b)
  strict_range (range_s a b) (string s) = some (le_string a s && le_string s b)
  strict_range (range_l a b) (location l) = some (in_box O a b l)
  strict_range _ _ = none

  unfoldable pub strict_distance : Distance D → VariantType D → Option Bool
  strict_distance dist (location l) = some (O.le (distance O dist.center l) dist.distance)
  strict_distance dist _ = none

  unfoldable pub strict_case : ConstraintCase D → VariantType D → Option Bool
  strict_case (set_ set) v = strict_set set.op set.vals v
  strict_case (range_ range) v = strict_range range v
  strict_case (relation rel) v = strict_relation rel.op rel.val v
  strict_case (within dist) v = strict_distance dist v
  strict_case constraint_not_set v = none

  relation_reads :
      (op : RelationOperator) (val : Value D) (v : VariantType D)
      → val_valid (for_equality op) val (type_of v) ≡ true
      → strict_relation op val v ≡ some (check_relation O (record { op = op; val = val }) v)
  unfolding strict_relation check_relation
  relation_reads op (value_i i) (int j) h = refl
  relation_reads op (value_d d) (double e) h = refl
  relation_reads op (value_s s) (string t) h = refl
  relation_reads op (value_b b) (bool c) h = refl
  relation_reads op (value_l l) (location m) h = refl
  relation_reads op _ _ h = absurd (grind arith)

  set_reads :
      (op : SetOperator) (vals : Values D) (v : VariantType D)
      → values_valid vals (type_of v) ≡ true
      → strict_set op vals v ≡ some (check_set O (record { op = op; vals = vals }) v)
  unfolding strict_set check_set values_valid
  set_reads op (values_i vals) (int i) h = refl
  set_reads op (values_d vals) (double d) h = refl
  set_reads op (values_s vals) (string s) h = refl
  set_reads op (values_b vals) (bool b) h = refl
  set_reads op (values_l vals) (location l) h = refl
  set_reads op _ _ h = absurd (grind arith)

  range_reads :
      (range : Range D) (v : VariantType D)
      → range_valid range (type_of v) ≡ true
      → strict_range range v ≡ some (check_range O range v)
  unfolding strict_range check_range range_valid
  range_reads (range_i a b) (int i) h = refl
  range_reads (range_d a b) (double d) h = refl
  range_reads (range_s a b) (string s) h = refl
  range_reads (range_l a b) (location l) h = refl
  range_reads _ _ h = absurd (grind arith)

  distance_reads :
      (dist : Distance D) (v : VariantType D)
      → distance_valid dist (type_of v) ≡ true
      → strict_distance dist v ≡ some (check_distance O dist v)
  unfolding strict_distance check_distance
  distance_reads dist (location l) h = refl
  distance_reads dist _ h = absurd (grind arith)

  pub case_reads :
      (c : ConstraintCase D) (v : VariantType D)
      → case_valid c (type_of v) ≡ true
      → strict_case c v ≡ some (check_case O c v)
  unfolding strict_case check_case case_valid
  case_reads (set_ set) v h = set_reads set.op set.vals v h
  case_reads (range_ range) v h = range_reads range v h
  case_reads (relation rel) v h = relation_reads rel.op rel.val v h
  case_reads (within dist) v h = distance_reads dist v h
  case_reads constraint_not_set v h = absurd (grind arith)

module _ {D : Type 0} (leaf : Constraint D → Option Bool) where
  unfoldable mutual
    pub strict_expr : ConstraintExpr D → Option Bool
    strict_expr (or_ es) = strict_any es
    strict_expr (and_ es) = strict_all es
    strict_expr (not_ e) = after (strict_expr e) (λ b. some (not b))
    strict_expr (constraint_ c) = leaf c
    strict_expr expression_not_set = none

    pub strict_any : Exprs D → Option Bool
    strict_any nil = some false
    strict_any (cons e es) =
        let later = strict_any es in after (strict_expr e) (λ b. if b then some true else later)

    pub strict_all : Exprs D → Option Bool
    strict_all nil = some true
    strict_all (cons e es) =
        let later = strict_all es in after (strict_expr e) (λ b. if b then later else some false)

first_of : (a b : Bool) → (if a then b else false) ≡ true → (a ≡ true) × (b ≡ true)
first_of true b h = (refl, h)
first_of false b h = absurd (grind arith)

first_and : (a b : Bool) → (a && b) ≡ true → a ≡ true
first_and true b h = refl
first_and false b h = absurd (grind arith)

or_picked :
    (a b : Bool) {y : Option Bool}
    → y ≡ some b
    → (if a then some true else y) ≡ some (if a then true else b)
or_picked true b f = refl
or_picked false b f = f

and_picked :
    (a b : Bool) {y : Option Bool}
    → y ≡ some b
    → (if a then y else some false) ≡ some (if a then b else false)
and_picked true b f = f
and_picked false b f = refl

after_any :
    {x y : Option Bool} {a b : Bool}
    → x ≡ some a
    → y ≡ some b
    → after x (λ c. if c then some true else y) ≡ some (if a then true else b)
after_any {y = y} {a = a} {b = b} e f =
    ap (λ o. after o (λ c. if c then some true else y)) e ∙ or_picked a b f

after_all :
    {x y : Option Bool} {a b : Bool}
    → x ≡ some a
    → y ≡ some b
    → after x (λ c. if c then y else some false) ≡ some (if a then b else false)
after_all {y = y} {a = a} {b = b} e f =
    ap (λ o. after o (λ c. if c then y else some false)) e ∙ and_picked a b f

module _ {D : Type 0} (attributes : List Attribute) (strict : Constraint D → Option Bool)
    (leaf : Constraint D → Bool)
    (reads : (c : Constraint D)
      → constraint_valid c attributes ≡ true
      → strict c ≡ some (leaf c)) where
  mutual
    unfolding check_expr check_any check_all strict_expr strict_any strict_all valid_expr valid_all

    expr_reads :
        (e : ConstraintExpr D)
        → valid_expr attributes e ≡ true
        → strict_expr strict e ≡ some (check_expr leaf e)
    expr_reads (or_ es) h =
        any_reads es (first_and (valid_all attributes es) (ltb 1 (expr_size es)) h)
    expr_reads (and_ es) h =
        all_reads es (first_and (valid_all attributes es) (ltb 1 (expr_size es)) h)
    expr_reads (not_ e) h = ap (λ o. after o (λ b. some (not b))) (expr_reads e h)
    expr_reads (constraint_ c) h = reads c h
    expr_reads expression_not_set h = absurd (grind arith)

    any_reads :
        (es : Exprs D)
        → valid_all attributes es ≡ true
        → strict_any strict es ≡ some (check_any leaf es)
    any_reads nil h = refl
    any_reads (cons e es) h =
        let (first, later) = first_of (valid_expr attributes e) (valid_all attributes es) h in
        after_any (expr_reads e first) (any_reads es later)

    all_reads :
        (es : Exprs D)
        → valid_all attributes es ≡ true
        → strict_all strict es ≡ some (check_all leaf es)
    all_reads nil h = refl
    all_reads (cons e es) h =
        let (first, later) = first_of (valid_expr attributes e) (valid_all attributes es) h in
        after_all (expr_reads e first) (all_reads es later)

module _ {D : Type 0} (O : Doubles D) where
  unfoldable pub strict_found : ConstraintCase D → Option (VariantType D) → Option Bool
  strict_found c none = some false
  strict_found c (some v) = strict_case O c v

  -- `QueryModel::check` where reading a case that is not set is an error.
  unfoldable pub strict_check : QueryModel D → Instance D → Option Bool
  strict_check q i =
      if is_for q.model i.model
      then strict_all (λ c. strict_found c.constraint (value i c.attribute_name)) q.constraints
      else some false

  found_reads :
      (attributes : List Attribute) (values : List (Name × VariantType D)) (name : Name)
      (c : ConstraintCase D) (o : Option Attribute) (p : Option (VariantType D))
      → IsWellTyped attributes values
      → attribute attributes name ≡ o
      → find name values ≡ p
      → valid_for c o ≡ true
      → strict_found c p ≡ some (check_found O c p)
  unfolding strict_found check_found IsWellTyped
  found_reads attributes values name c o none w e f h = refl
  found_reads attributes values name c none (some v) w e f h = absurd (grind arith)
  found_reads attributes values name c (some a) (some v) w e f h =
      case_reads O c v (subst (λ t. case_valid c t ≡ true) (w name a v e f) h)

  valid_constraints :
      (q : QueryModel D) (m : DataModel)
      → valid q ≡ true
      → q.model ≡ some m
      → valid_all m.attributes q.constraints ≡ true
  unfolding valid
  valid_constraints q m h e =
      subst (λ o. valid_in o q.constraints ≡ true) e (else_of (ltb (expr_size q.constraints) 1) h)

  -- A query that is valid for its data model is never evaluated on a value of another type than it was
  -- written for: on an instance whose values have the types of that data model, `check` answers as an
  -- evaluation does in which reading a case of a oneof that is not set is an error.
  pub strict_check_lem :
      (q : QueryModel D) (m : DataModel) (i : Instance D)
      → valid q ≡ true
      → q.model ≡ some m
      → IsWellTyped m.attributes i.values
      → strict_check q i ≡ some (check O q i)
  unfolding strict_check check
  strict_check_lem q m i h e w =
      and_picked (is_for q.model i.model) (check_all (leaf_of O i) q.constraints) (
        all_reads m.attributes (λ c. strict_found c.constraint (value i c.attribute_name))
          (leaf_of O i)
          (λ c.
            found_reads m.attributes i.values c.attribute_name c.constraint
              (attribute m.attributes c.attribute_name) (value i c.attribute_name) w refl refl)
          q.constraints (valid_constraints q m h e))
