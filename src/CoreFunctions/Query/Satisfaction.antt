-- ===== src/CoreFunctions/Query/Satisfaction.antt =====
-- Query::check of oef-core-functions/src/cpp/lib/schema.hpp against the meaning of a query: the
-- logic of its expressions over what the constraints mean.
use oef_mt_core.Base.{
  ◌<◌, ◌^◌, ◌≡◌, refl, subst, ◌⊎◌, inl, inr, ◌↔◌, Bool, true, false, not, Option, none, some, List,
  arith, length, if◌then◌else◌,
}
use oef_mt_core.Base.Decides.{
  Decides, decides_iff, of_iff, decides_false, decides_unit, decides_not,
}
use oef_mt_core.Karma.BucketsOf.{Name, find}
use oef_mt_core.CoreFunctions.Values.{Doubles, VariantType}
use oef_mt_core.CoreFunctions.Attributes.{Attribute, DataModel, new_data_model, ok}
use oef_mt_core.CoreFunctions.Constraints.{Constraint, ConstraintCase}
use oef_mt_core.CoreFunctions.Constraints.Meaning.{Holds, HasInt32, case_decides, same_iff}
use oef_mt_core.CoreFunctions.Instances.{Instance, new_instance, value}
use oef_mt_core.CoreFunctions.Instances.Required.{HasUniqueKeys}
use oef_mt_core.CoreFunctions.Query.{
  ConstraintExpr, or_, and_, not_, constraint_, expression_not_set, Exprs, nil, cons, QueryModel,
  is_for, check, new_query_on,
}
use oef_mt_core.CoreFunctions.Query.Typing.{
  after, strict_found, strict_expr, strict_any, strict_all, strict_check,
}
use oef_mt_core.CoreFunctions.Query.Built.{built_check_lem}

module _ {D : Type 0} (Leaf : Constraint D → Type 0) where
  unfoldable mutual
    pub Satisfied : ConstraintExpr D → Type 0
    Satisfied (or_ es) = SomeSatisfied es
    Satisfied (and_ es) = AllSatisfied es
    Satisfied (not_ e) = ¬ Satisfied e
    Satisfied (constraint_ c) = Leaf c
    Satisfied expression_not_set = ⊥

    pub SomeSatisfied : Exprs D → Type 0
    SomeSatisfied nil = ⊥
    SomeSatisfied (cons e es) = Satisfied e ⊎ SomeSatisfied es

    pub AllSatisfied : Exprs D → Type 0
    AllSatisfied nil = Unit
    AllSatisfied (cons e es) = Satisfied e × AllSatisfied es

-- Every constraint of an expression has the property.
module _ {D : Type 0} (P : Constraint D → Type 0) where
  unfoldable mutual
    pub InAll : ConstraintExpr D → Type 0
    InAll (or_ es) = InEach es
    InAll (and_ es) = InEach es
    InAll (not_ e) = InAll e
    InAll (constraint_ c) = P c
    InAll expression_not_set = Unit

    pub InEach : Exprs D → Type 0
    InEach nil = Unit
    InEach (cons e es) = InAll e × InEach es

-- What becomes of an answer that another evaluation goes on with.
not_decides :
    {P : Type 0} (x : Option Bool) (b : Bool)
    → ((a : Bool) → x ≡ some a → Decides a P)
    → after x (λ c. some (not c)) ≡ some b
    → Decides b (¬ P)
not_decides none b d h = absurd (grind arith)
not_decides {P = P} (some a) b d h =
    let same : not a ≡ b = ground (arith, h) in
    subst (λ t. Decides t (¬ P)) same (decides_not (d a refl))

any_decides :
    {P Q : Type 0} (x y : Option Bool) (b : Bool)
    → ((a : Bool) → x ≡ some a → Decides a P)
    → ((a : Bool) → y ≡ some a → Decides a Q)
    → after x (λ c. if c then some true else y) ≡ some b
    → Decides b (P ⊎ Q)
any_decides none y b d d' h = absurd (grind arith)
any_decides (some true) y true d d' h = of_iff ((λ e. inl ((d true refl).0 refl)), λ p. refl)
any_decides (some true) y false d d' h = absurd (grind arith)
any_decides (some false) y b d d' h = (
  (λ e. inr ((d' b h).0 e)),
  λ e p. elim p [ inl q ↦ (d false refl).1 refl q | inr q ↦ (d' b h).1 e q ],
)

all_decides :
    {P Q : Type 0} (x y : Option Bool) (b : Bool)
    → ((a : Bool) → x ≡ some a → Decides a P)
    → ((a : Bool) → y ≡ some a → Decides a Q)
    → after x (λ c. if c then y else some false) ≡ some b
    → Decides b (P × Q)
all_decides none y b d d' h = absurd (grind arith)
all_decides (some false) y false d d' h =
    ((λ e. absurd (grind arith)), λ e p. (d false refl).1 refl p.0)
all_decides (some false) y true d d' h = absurd (grind arith)
all_decides (some true) y b d d' h =
    ((λ e. ((d true refl).0 refl, (d' b h).0 e)), λ e p. (d' b h).1 e p.1)

some_decides : {P : Type 0} (a b : Bool) → Decides a P → some a ≡ some b → Decides b P
some_decides {P = P} a b d h =
    let same : a ≡ b = ground (arith, h) in subst (λ t. Decides t P) same d

module _ {D : Type 0} (strict : Constraint D → Option Bool) (Leaf : Constraint D → Type 0)
    (Fits : Constraint D → Type 0)
    (d : (c : Constraint D) (b : Bool) → Fits c → strict c ≡ some b → Decides b (Leaf c)) where
  mutual
    unfolding strict_expr strict_any strict_all Satisfied SomeSatisfied AllSatisfied InAll InEach

    strict_expr-Satisfied :
        (e : ConstraintExpr D) (b : Bool)
        → InAll Fits e
        → strict_expr strict e ≡ some b
        → Decides b (Satisfied Leaf e)
    strict_expr-Satisfied (or_ es) b fits h = strict_any-SomeSatisfied es b fits h
    strict_expr-Satisfied (and_ es) b fits h = strict_all-AllSatisfied es b fits h
    strict_expr-Satisfied (not_ e) b fits h =
        not_decides (strict_expr strict e) b (λ a. strict_expr-Satisfied e a fits) h
    strict_expr-Satisfied (constraint_ c) b fits h = d c b fits h
    strict_expr-Satisfied expression_not_set b fits h = absurd (grind arith)

    strict_any-SomeSatisfied :
        (es : Exprs D) (b : Bool)
        → InEach Fits es
        → strict_any strict es ≡ some b
        → Decides b (SomeSatisfied Leaf es)
    strict_any-SomeSatisfied nil b fits h = some_decides false b decides_false h
    strict_any-SomeSatisfied (cons e es) b (fits, more) h =
        any_decides (strict_expr strict e) (strict_any strict es) b
          (λ a. strict_expr-Satisfied e a fits) (λ a. strict_any-SomeSatisfied es a more) h

    strict_all-AllSatisfied :
        (es : Exprs D) (b : Bool)
        → InEach Fits es
        → strict_all strict es ≡ some b
        → Decides b (AllSatisfied Leaf es)
    strict_all-AllSatisfied nil b fits h = some_decides true b decides_unit h
    strict_all-AllSatisfied (cons e es) b (fits, more) h =
        all_decides (strict_expr strict e) (strict_all strict es) b
          (λ a. strict_expr-Satisfied e a fits) (λ a. strict_all-AllSatisfied es a more) h

module _ {D : Type 0} (O : Doubles D) where
  -- The instance has a value for the attribute, and the constraint holds of it.
  unfoldable pub HoldsIn : Instance D → Constraint D → Type 0
  HoldsIn i c =
      (v : VariantType D) × (find c.attribute_name i.values ≡ some v) × Holds O c.constraint v

  found_decides :
      (c : ConstraintCase D) (o : Option (VariantType D)) (b : Bool)
      → HasInt32 O c
      → strict_found O c o ≡ some b
      → Decides b ((v : VariantType D) × (o ≡ some v) × Holds O c v)
  unfolding strict_found
  found_decides c none b fits h =
      some_decides false b ((λ e. absurd (grind arith)), λ e p. ground arith) h
  found_decides c (some w) b fits h =
      let (there, lacks) = case_decides O c w b fits h in
      ((λ e. (w, refl, there e)), λ e p. lacks e (subst (λ u. Holds O c u) (ground arith) p.2))

  unfoldable pub IsFor : Option DataModel → DataModel → Type 0
  IsFor none model = Unit
  IsFor (some m) model = m.name ≡ model.name

  is_for_decides :
      (o : Option DataModel) (model : DataModel) → Decides (is_for o model) (IsFor o model)
  unfolding IsFor
  is_for_decides none model = decides_unit
  is_for_decides (some m) model = of_iff (same_iff m.name model.name)

  -- The meaning of a query, as a condition on instances.
  unfoldable pub Matches : QueryModel D → Instance D → Type 0
  Matches q i = IsFor q.model i.model × AllSatisfied (HoldsIn i) q.constraints

  -- Whole numbers in relations were ints.
  abbrev pub HasInts : QueryModel D → Type 0
  HasInts q = InEach (λ c. HasInt32 O c.constraint) q.constraints

  picked_decides :
      {P Q : Type 0} (t : Bool) (y : Option Bool) (b : Bool)
      → Decides t P
      → ((a : Bool) → y ≡ some a → Decides a Q)
      → (if t then y else some false) ≡ some b
      → Decides b (P × Q)
  picked_decides t y b d d' h = all_decides (some t) y b (λ a e. some_decides t a d e) d' h

  strict_check_decides :
      (q : QueryModel D) (i : Instance D) (b : Bool)
      → HasInts q
      → strict_check O q i ≡ some b
      → Decides b (Matches q i)
  unfolding strict_check Matches HoldsIn
  strict_check_decides q i b fits h =
      let strict : Constraint D → Option Bool =
        λ c. strict_found O c.constraint (value i c.attribute_name) in
      picked_decides (is_for q.model i.model) (strict_all strict q.constraints) b
        (is_for_decides q.model i.model)
        (λ a.
          strict_all-AllSatisfied strict (HoldsIn i) (λ c. HasInt32 O c.constraint)
            (λ c e f g. found_decides c.constraint (value i c.attribute_name) e f g) q.constraints a
            fits)
        h

  -- A query and an instance that are built for one data model, neither of which throws: `check` answers
  -- true exactly if the instance matches the query, that is, satisfies every one of its expressions,
  -- where `or`, `and` and `not` have their logical meaning. A constraint demands a value of its
  -- attribute, of the type that the constraint is written for, that is among the values of a set or not
  -- among them, that stands in the relation to the constant, that lies between the bounds or in the
  -- box of the corners, or whose distance by the haversine formula is not greater. The data model is
  -- one that its own constructor built, with less than 2^31 attributes, the values come in a map, and
  -- the whole numbers in relations fit 32 bits, as the int that they are made of.
  pub check_iff :
      (name : Name) (attributes : List Attribute) (description : Name) (model : DataModel)
      (es : Exprs D) (q : QueryModel D) (values : List (Name × VariantType D)) (i : Instance D)
      → new_data_model name attributes description ≡ ok model
      → length model.attributes < 2 ^ 31
      → HasUniqueKeys values
      → new_query_on es model ≡ ok q
      → new_instance model values ≡ ok i
      → HasInts q
      → (check O q i ≡ true) ↔ Matches q i
  check_iff name attributes description model es q values i built small keys built_q built_i fits =
      decides_iff (
        strict_check_decides q i (check O q i) fits (
          built_check_lem O name attributes description model es q values i built small keys built_q
            built_i))
