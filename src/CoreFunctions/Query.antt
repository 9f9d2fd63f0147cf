-- ===== src/CoreFunctions/Query.antt =====
-- oef-core-functions/src/cpp/lib/schema.hpp and schema.cpp, the classes ConstraintExpr, Or, And, Not
-- and QueryModel. An absent message is the default one, of which no case is set.
pub mod Built
pub mod Satisfaction
pub mod Typing
use oef_mt_core.Base.{
  ℕ, suc, Bool, true, false, not, ◌&&◌, Option, none, some, if◌then◌else◌, ltb, List,
}
use oef_mt_core.Karma.BucketsOf.{Name, same, find}
use oef_mt_core.CoreFunctions.Values.{Doubles, VariantType}
use oef_mt_core.CoreFunctions.Attributes.{
  Attribute, DataModel, Result, ok, throws, then_do, not_enough_parameters, constraint_mismatch,
}
use oef_mt_core.CoreFunctions.Constraints.{Constraint, constraint_valid, check_case, check_found}
use oef_mt_core.CoreFunctions.Instances.{Instance, value}

mutual
  pub data ConstraintExpr (D : Type 0) : Type 0 where
    or_ : Exprs D → ConstraintExpr D
    and_ : Exprs D → ConstraintExpr D
    not_ : ConstraintExpr D → ConstraintExpr D
    constraint_ : Constraint D → ConstraintExpr D
    expression_not_set : ConstraintExpr D

  pub data Exprs (D : Type 0) : Type 0 where
    nil : Exprs D
    cons : ConstraintExpr D → Exprs D → Exprs D

pub record QueryModel (D : Type 0) : Type 0 where
  pub constraints : Exprs D
  pub model : Option DataModel

abbrev pub expr_size : {D : Type 0} → Exprs D → ℕ
expr_size nil = 0
expr_size (cons e es) = suc (expr_size es)

module _ {D : Type 0} (leaf : Constraint D → Bool) where
  -- The three overloads of `check` differ in what they do with a constraint.
  unfoldable mutual
    pub check_expr : ConstraintExpr D → Bool
    check_expr (or_ es) = check_any es
    check_expr (and_ es) = check_all es
    check_expr (not_ e) = not (check_expr e)
    check_expr (constraint_ c) = leaf c
    check_expr expression_not_set = false

    pub check_any : Exprs D → Bool
    check_any nil = false
    check_any (cons e es) = let later = check_any es in if check_expr e then true else later

    pub check_all : Exprs D → Bool
    check_all nil = true
    check_all (cons e es) = let later = check_all es in if check_expr e then later else false

module _ {D : Type 0} (attributes : List Attribute) where
  unfoldable mutual
    pub valid_expr : ConstraintExpr D → Bool
    valid_expr (or_ es) = valid_all es && ltb 1 (expr_size es)
    valid_expr (and_ es) = valid_all es && ltb 1 (expr_size es)
    valid_expr (not_ e) = valid_expr e
    valid_expr (constraint_ c) = constraint_valid c attributes
    valid_expr expression_not_set = false

    pub valid_all : Exprs D → Bool
    valid_all nil = true
    valid_all (cons e es) = let later = valid_all es in if valid_expr e then later else false

module _ {D : Type 0} where
  abbrev pub new_or : Exprs D → Result (ConstraintExpr D)
  new_or es = if ltb (expr_size es) 2 then throws not_enough_parameters else ok (or_ es)

  abbrev pub new_and : Exprs D → Result (ConstraintExpr D)
  new_and es = if ltb (expr_size es) 2 then throws not_enough_parameters else ok (and_ es)

  -- `operator!`, `operator&&` and `operator||`.
  abbrev pub negation : ConstraintExpr D → ConstraintExpr D
  negation e = not_ e

  abbrev pub conjunction : ConstraintExpr D → ConstraintExpr D → Result (ConstraintExpr D)
  conjunction lhs rhs = new_and (cons lhs (cons rhs nil))

  abbrev pub disjunction : ConstraintExpr D → ConstraintExpr D → Result (ConstraintExpr D)
  disjunction lhs rhs = new_or (cons lhs (cons rhs nil))

  unfoldable pub new_query : Exprs D → Result (QueryModel D)
  new_query es =
      if ltb (expr_size es) 1
      then throws not_enough_parameters
      else ok (record { constraints = es; model = none })

  unfoldable pub new_query_on : Exprs D → DataModel → Result (QueryModel D)
  new_query_on es model = then_do (new_query es) (λ q.
      if valid_all model.attributes q.constraints
      then ok (record q { model = some model })
      else throws constraint_mismatch)

  abbrev pub valid_in : Option DataModel → Exprs D → Bool
  valid_in none es = true
  valid_in (some model) es = valid_all model.attributes es

  unfoldable pub valid : QueryModel D → Bool
  valid q = if ltb (expr_size q.constraints) 1 then false else valid_in q.model q.constraints

abbrev pub is_for : Option DataModel → DataModel → Bool
is_for none model = true
is_for (some m) model = same m.name model.name

module _ {D : Type 0} (O : Doubles D) where
  abbrev pub leaf_of_value : VariantType D → Constraint D → Bool
  leaf_of_value v c = check_case O c.constraint v

  abbrev pub leaf_of : Instance D → Constraint D → Bool
  leaf_of i c = check_found O c.constraint (value i c.attribute_name)

  abbrev pub check_value : QueryModel D → VariantType D → Bool
  check_value q v = check_all (leaf_of_value v) q.constraints

  unfoldable pub check : QueryModel D → Instance D → Bool
  check q i = if is_for q.model i.model then check_all (leaf_of i) q.constraints else false
