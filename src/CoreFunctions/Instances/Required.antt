-- ===== src/CoreFunctions/Instances/Required.antt =====
-- The required attributes of a data model, oef-core-functions/src/cpp/lib/schema.hpp, and how many of
-- them have a value.
use oef_mt_core.Base.{
  ℕ, ◌+◌, ◌^◌, ◌≤◌, ◌<◌, ◌≡◌, refl, sym, subst, inl, inr, Bool, true, false, ◌&&◌, List, [], ◌∷◌,
  none, some, arith, Bool-cases, else_of, is_some, length,
}
use oef_mt_core.Karma.BucketsOf.{Name, same, find}
use oef_mt_core.Karma.BucketsOf.Laws.{same_refl, same-eq}
use oef_mt_core.CoreFunctions.Values.{VariantType, type_of}
use oef_mt_core.CoreFunctions.Attributes.{
  Attribute, DataModel, attribute, ok, is_member, all_new, new_data_model,
}
use oef_mt_core.CoreFunctions.Instances.{with_required, count_required, without_required}

unfoldable pub IsUnique : List Attribute → Type 0
IsUnique [] = Unit
IsUnique (a ∷ rest) = (attribute rest a.name ≡ none) × IsUnique rest

unfoldable pub HasUniqueKeys : {V : Type 0} → List (Name × V) → Type 0
HasUniqueKeys [] = Unit
HasUniqueKeys ((key, v) ∷ rest) = (find key rest ≡ none) × HasUniqueKeys rest

-- Values of attributes that the data model has are of their types.
unfoldable pub IsWellTyped : {D : Type 0} → List Attribute → List (Name × VariantType D) → Type 0
IsWellTyped {D = D} attributes values =
    (name : Name) (a : Attribute) (v : VariantType D)
    → attribute attributes name ≡ some a
    → find name values ≡ some v
    → a.type ≡ type_of v

-- The first name to come again is refused.
all_new-none :
    (seen : List Name) (attributes : List Attribute) (n : Name)
    → all_new seen attributes ≡ true
    → is_member n seen ≡ true
    → attribute attributes n ≡ none
unfolding all_new attribute
all_new-none seen [] n h k = refl
all_new-none seen (a ∷ rest) n h k = elim (Bool-cases (is_member a.name seen)) [
  | inl e ↦ absurd (grind arith)
  | inr e ↦ elim (Bool-cases (same a.name n)) [
    | inl s ↦ absurd (grind (arith, same-eq a.name n s))
    | inr s ↦ ground (arith, s, all_new-none (a.name ∷ seen) rest n (ground arith) (ground arith))
  ]
]

all_new-IsUnique :
    (seen : List Name) (attributes : List Attribute)
    → all_new seen attributes ≡ true
    → IsUnique attributes
unfolding all_new IsUnique
all_new-IsUnique seen [] h = tt
all_new-IsUnique seen (a ∷ rest) h =
    let later : all_new (a.name ∷ seen) rest ≡ true = else_of (is_member a.name seen) h in
    (
      all_new-none (a.name ∷ seen) rest a.name later (ground (arith, same_refl a.name)),
      all_new-IsUnique (a.name ∷ seen) rest later,
    )

-- A data model that the constructor accepts names each attribute once.
pub new_data_model-IsUnique :
    (name : Name) (attributes : List Attribute) (description : Name) (model : DataModel)
    → new_data_model name attributes description ≡ ok model
    → IsUnique model.attributes
unfolding new_data_model
new_data_model-IsUnique name attributes description model h =
    elim (Bool-cases (all_new [] attributes)) [
      | inl e ↦ subst IsUnique (ground (arith, e)) (all_new-IsUnique [] attributes e)
      | inr e ↦ absurd (ground (arith, e))
    ]

-- The required attributes that have a value.
unfoldable pub count_in : {V : Type 0} → List Attribute → List (Name × V) → ℕ
count_in [] values = 0
count_in (a ∷ rest) values =
    with_required (a.required && is_some (find a.name values)) (count_in rest values)

count_in-skip :
    {V : Type 0} (attributes : List Attribute) (k : Name) (v : V) (values : List (Name × V))
    → attribute attributes k ≡ none
    → count_in attributes ((k, v) ∷ values) ≡ count_in attributes values
unfolding count_in find attribute
count_in-skip [] k v values h = refl
count_in-skip (a ∷ rest) k v values h = elim (Bool-cases (same a.name k)) [
  | inl s ↦ absurd (grind arith)
  | inr s ↦ ground (arith, s, count_in-skip rest k v values (ground arith))
]

pub count_in-cons :
    {V : Type 0} (attributes : List Attribute) (k : Name) (v : V) (values : List (Name × V))
    (a : Attribute)
    → IsUnique attributes
    → find k values ≡ none
    → attribute attributes k ≡ some a
    → count_in attributes ((k, v) ∷ values) ≡ with_required a.required (count_in attributes values)
unfolding count_in find attribute IsUnique
count_in-cons [] k v values a u h e = absurd (grind arith)
count_in-cons (b ∷ rest) k v values a (new, u) h e = elim (Bool-cases (same b.name k)) [
  | inl s ↦
      let name : b.name ≡ k = same-eq b.name k s in
      let found : find b.name values ≡ none = subst (λ n. find n values ≡ none) (sym name) h in
      let fresh : attribute rest k ≡ none = subst (λ n. attribute rest n ≡ none) name new in
      ground (arith, s, found, count_in-skip rest k v values fresh)
  | inr s ↦
      let later : attribute rest k ≡ some a = ground (arith, s) in
      ground (arith, s, count_in-cons rest k v values a u h later)
]

pub count_in-nil : (V : Type 0) (attributes : List Attribute) → count_in {V = V} attributes [] ≡ 0
unfolding count_in find
count_in-nil V [] = refl
count_in-nil V (a ∷ rest) = ground (arith, count_in-nil V rest)

pub without_required_lem :
    (t : Bool) (n nb c : ℕ)
    → n ≡ without_required t nb
    → with_required t c ≤ nb
    → nb < 2 ^ 64
    → (n + with_required t c ≡ nb + c) × (c ≤ with_required t c)
without_required_lem true n nb c e le lt = (omega arith, omega arith)
without_required_lem false n nb c e le lt = (omega arith, omega arith)

pub count_in-le :
    {V : Type 0} (attributes : List Attribute) (values : List (Name × V))
    → count_in attributes values ≤ count_required attributes
unfolding count_in
count_in-le [] values = omega arith
count_in-le (a ∷ rest) values = ground (arith, count_in-le rest values)

pub count_required-le :
    (attributes : List Attribute) → count_required attributes ≤ length attributes
count_required-le [] = omega arith
count_required-le (a ∷ rest) = ground (arith, count_required-le rest)
