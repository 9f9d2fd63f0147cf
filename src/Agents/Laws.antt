-- ===== src/Agents/Laws.antt =====
-- What `find` answers in the directory of agents after an agent came or went.
use oef_mt_core.Base.{
  ℕ, ◌≡◌, refl, ap, inl, inr, List, [], ◌∷◌, none, some, arith, if◌then◌else◌, Bool-cases,
}
use oef_mt_core.Karma.BucketsOf.{Name, same, find}
use oef_mt_core.Karma.BucketsOf.Laws.{same-eq}
use oef_mt_core.Agents.{Agent, add, remove}

pub find-add :
    (n key : Name) (endpoint : ℕ) (agents : List (Name × Agent))
    → find n (add key endpoint agents)
      ≡ (if same n key then some (record { key = key; endpoint = endpoint }) else find n agents)
unfolding find add
find-add n key endpoint [] = refl
find-add n key endpoint ((k, agent) ∷ rest) = elim (Bool-cases (same key k)) [
  | inl s ↦ ground (arith, s, ap (same n) (same-eq key k s))
  | inr s ↦ elim (Bool-cases (same n key)) [
    | inl t ↦
        ground (arith, s, t, ap (λ x. same x k) (same-eq n key t), find-add n key endpoint rest)
    | inr t ↦ ground (arith, s, t, find-add n key endpoint rest)
  ]
]

pub find-remove :
    (n key : Name) (agents : List (Name × Agent))
    → find n (remove key agents) ≡ (if same n key then none else find n agents)
unfolding find remove
find-remove n key [] = ground arith
find-remove n key ((k, agent) ∷ rest) = elim (Bool-cases (same key k)) [
  | inl s ↦ ground (arith, s, ap (same n) (same-eq key k s), find-remove n key rest)
  | inr s ↦ elim (Bool-cases (same n key)) [
    | inl t ↦ ground (arith, s, t, ap (λ x. same x k) (same-eq n key t), find-remove n key rest)
    | inr t ↦ ground (arith, s, t, find-remove n key rest)
  ]
]
