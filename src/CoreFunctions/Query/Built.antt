-- ===== src/CoreFunctions/Query/Built.antt =====
-- Queries and instances that the constructors of oef-core-functions/src/cpp/lib/schema.hpp build for
-- one data model.
use oef_mt_core.Base.{
  ◌<◌, ◌^◌, ◌≡◌, refl, subst, inl, inr, true, List, [], some, arith, Bool-cases, ltb, length,
}
use oef_mt_core.Karma.BucketsOf.{Name}
use oef_mt_core.CoreFunctions.Values.{Doubles, VariantType}
use oef_mt_core.CoreFunctions.Attributes.{Attribute, DataModel, new_data_model, ok}
use oef_mt_core.CoreFunctions.Instances.{Instance, new_instance}
use oef_mt_core.CoreFunctions.Instances.Required.{HasUniqueKeys, new_data_model-IsUnique}
use oef_mt_core.CoreFunctions.Instances.Complete.{Complete, new_instance-Complete}
use oef_mt_core.CoreFunctions.Instances.Filling.{ok_injective}
use oef_mt_core.CoreFunctions.Query.{
  Exprs, QueryModel, expr_size, valid_all, new_query, new_query_on, valid, check,
}
use oef_mt_core.CoreFunctions.Query.Typing.{strict_check, strict_check_lem}

module _ {D : Type 0} (O : Doubles D) where
  built_query :
      (es : Exprs D) (model : DataModel) (q : QueryModel D)
      → new_query_on es model ≡ ok q
      → (valid q ≡ true) × (q.model ≡ some model)
  unfolding new_query_on new_query valid
  built_query es model q h = elim (Bool-cases (ltb (expr_size es) 1)) [
    | inl t ↦ absurd (ground (arith, t))
    | inr t ↦ elim (Bool-cases (valid_all model.attributes es)) [
      | inl a ↦
          let made : record { constraints = es; model = some model } ≡ q =
            ok_injective (ground (arith, t, a)) in
          subst (λ q. (valid q ≡ true) × (q.model ≡ some model)) made (ground (arith, t, a), refl)
      | inr a ↦ absurd (ground (arith, t, a))
    ]
  ]

  -- A query that is built for a data model and an instance that is built for the same one, neither of
  -- which throws, go together: `check` of the query on the instance answers as an evaluation does in
  -- which reading a case of a oneof that is not set is an error. The data model is one that its own
  -- constructor built, with less than 2^31 attributes, and the values of the instance come in a map.
  pub built_check_lem :
      (name : Name) (attributes : List Attribute) (description : Name) (model : DataModel)
      (es : Exprs D) (q : QueryModel D) (values : List (Name × VariantType D)) (i : Instance D)
      → new_data_model name attributes description ≡ ok model
      → length model.attributes < 2 ^ 31
      → HasUniqueKeys values
      → new_query_on es model ≡ ok q
      → new_instance model values ≡ ok i
      → strict_check O q i ≡ some (check O q i)
  unfolding Complete
  built_check_lem name attributes description model es q values i built small keys built_q built_i =
      let (valid_q, for_model) = built_query es model q built_q in
      let (_, _, _, _, typed, _) =
        new_instance-Complete (λ v. []) model values i
          (new_data_model-IsUnique name attributes description model built) small keys built_i in
      strict_check_lem O q model i valid_q for_model typed
