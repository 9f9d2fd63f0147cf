-- ===== src/Karma/BucketsOf/Laws.antt =====
-- The numbers that a BucketsOf hands out: stable, fresh, and backed by storage.
use oef_mt_core.Base.{
  ℕ, zero, suc, ◌+◌, ◌*◌, ◌/◌, ◌%◌, ◌≤◌, ◌<◌, ◌≡◌, refl, sym, ap, subst, ◌∙◌, Bool, true, false,
  ◌&&◌, List, [], ◌∷◌, ◌++◌, Option, none, some, length, get_elem?, replicate, arith, if◌then◌else◌,
  ◌==◌, ==_iff, leb, length-append, get_elem?-some, ◌⊎◌, Bool-cases, inl, inr,
}
use native.Mathlib.Nat.{div-lt_iff_lt-mul, mod-lt, mul_comm}
use oef_mt_core.Karma.BucketsOf.{
  Name, BucketsOf, same, find, get_elem?_of, lockless_extend, with_bucket, numbered, get, access,
  empty,
}

pub same_refl : (name : Name) → same name name ≡ true
unfolding same
same_refl [] = refl
same_refl (c ∷ cs) = ground (arith, same_refl cs)

-- Every bucket has the same size.
pub AllOfSize : {C : Type 0} → ℕ → List (List C) → Type 0
AllOfSize n [] = Unit
AllOfSize n (bucket ∷ rest) = (length bucket ≡ n) × AllOfSize n rest

-- Every number that was given to a name is below the size.
pub AllBelow : ℕ → List (Name × ℕ) → Type 0
AllBelow n [] = Unit
AllBelow n ((key, x) ∷ rest) = (x < n) × AllBelow n rest

length-replicate : {C : Type 0} (n : ℕ) (c : C) → length (replicate n c) ≡ n
length-replicate zero c = refl
length-replicate (suc n) c = ap suc (length-replicate n c)

AllOfSize-append :
    {C : Type 0} (n : ℕ) (bs : List (List C)) (bucket : List C)
    → AllOfSize n bs
    → length bucket ≡ n
    → AllOfSize n (bs ++ (bucket ∷ []))
unfolding AllOfSize
AllOfSize-append n [] bucket h e = (e, h)
AllOfSize-append n (b ∷ bs) bucket (h, hs) e = (h, AllOfSize-append n bs bucket hs e)

AllBelow-suc : (n : ℕ) (names : List (Name × ℕ)) → AllBelow n names → AllBelow (suc n) names
unfolding AllBelow
AllBelow-suc n [] h = h
AllBelow-suc n ((key, x) ∷ rest) (h, hs) = (omega arith, AllBelow-suc n rest hs)

AllBelow-find :
    (n : ℕ) (names : List (Name × ℕ)) (name : Name) {x : ℕ}
    → AllBelow n names
    → find name names ≡ some x
    → x < n
unfolding AllBelow find
AllBelow-find n [] name h e = absurd (ground arith)
AllBelow-find n ((key, y) ∷ rest) name (h, hs) e = elim (Bool-cases (same name key)) [
  | inl t ↦ ground (arith, t)
  | inr t ↦
      AllBelow-find n rest name hs
        (sym (ap (λ (b : Bool). if b then some y else find name rest) t) ∙ e)
]

both : (s t : Bool) → (s && t) ≡ true → (s ≡ true) × (t ≡ true)
both true true e = (refl, refl)
both true false e = absurd (grind arith)
both false t e = absurd (grind arith)

pub same-eq : (c d : Name) → same c d ≡ true → c ≡ d
unfolding same
same-eq [] [] e = refl
same-eq (c ∷ cs) (d ∷ ds) e =
    let (first, later) = both (c == d) (same cs ds) e in
    ap (λ (x : ℕ). x ∷ cs) ((==_iff c d).0 first) ∙ ap (λ (xs : Name). d ∷ xs) (same-eq cs ds later)
same-eq [] (d ∷ ds) e = absurd (grind arith)
same-eq (c ∷ cs) [] e = absurd (grind arith)

known :
    (other name : Name) (names : List (Name × ℕ)) (x : ℕ) (t : Bool)
    → same other name ≡ t
    → find name names ≡ some x
    → find other names ≡ (if t then some x else find other names)
known other name names x true t e = ap (λ (n : Name). find n names) (same-eq other name t) ∙ e
known other name names x false t e = refl

AllOfSize-get_elem? :
    {C : Type 0} (n : ℕ) (bs : List (List C)) (k : ℕ)
    → AllOfSize n bs
    → k < length bs
    → (bucket : List C) × (get_elem? bs k ≡ some bucket) × (length bucket ≡ n)
unfolding AllOfSize
AllOfSize-get_elem? n [] k h lt = absurd (omega arith)
AllOfSize-get_elem? n (b ∷ bs) zero (h, hs) lt = (b, refl, h)
AllOfSize-get_elem? n (b ∷ bs) (suc k) (h, hs) lt = AllOfSize-get_elem? n bs k hs (omega arith)

mul_suc : (n k : ℕ) → n * (k + 1) ≡ n * k + n
mul_suc n k = omega arith

module _ {C : Type 0} (bucket_size : ℕ) where
  pub IsValid : BucketsOf C → Type 0
  IsValid b =
      AllOfSize bucket_size b.buckets
      × (b.size ≤ bucket_size * length b.buckets)
      × AllBelow b.size b.names

  with_bucket_lem :
      (blank : C) (t : Bool) (buckets : List (List C)) (size : ℕ)
      → 0 < bucket_size
      → leb (bucket_size * length buckets) size ≡ t
      → AllOfSize bucket_size buckets
      → size ≤ bucket_size * length buckets
      → AllOfSize bucket_size (with_bucket blank bucket_size t buckets)
        × (suc size ≤ bucket_size * length (with_bucket blank bucket_size t buckets))
  unfolding with_bucket
  with_bucket_lem blank true buckets size pos_size e sized fits = (
    AllOfSize-append bucket_size buckets (replicate bucket_size blank) sized
        (length-replicate bucket_size blank),
    subst (λ (k : ℕ). suc size ≤ bucket_size * k)
        (sym (length-append buckets (replicate bucket_size blank ∷ [])))
        (omega (arith, mul_suc bucket_size (length buckets))),
  )
  with_bucket_lem blank false buckets size pos_size e sized fits = (sized, ground arith)

  pub lockless_extend-IsValid :
      (blank : C) (b : BucketsOf C)
      → 0 < bucket_size
      → IsValid b
      → IsValid (lockless_extend blank bucket_size b).0
  unfolding IsValid lockless_extend
  lockless_extend-IsValid blank b pos_size (sized, fits, below) =
      let (sized', fits') =
        with_bucket_lem blank (leb (bucket_size * length b.buckets) b.size) b.buckets b.size
          pos_size refl sized fits in
      (sized', fits', AllBelow-suc b.size b.names below)

  pub access-some :
      (blank : C) (b : BucketsOf C) (i : ℕ)
      → 0 < bucket_size
      → IsValid b
      → i < b.size
      → (c : C) × (access blank bucket_size i b ≡ some c)
  unfolding IsValid access get_elem?_of
  access-some blank b i pos_size (sized, fits, below) lt =
      let (bucket, e, len) = AllOfSize-get_elem? bucket_size b.buckets (i / bucket_size) sized (
        (div-lt_iff_lt-mul pos_size).1
          (subst (λ (k : ℕ). i < k) (mul_comm bucket_size (length b.buckets)) (omega arith))) in
      let (c, e') =
        get_elem?-some (i % bucket_size) bucket
          (subst (λ (k : ℕ). i % bucket_size < k) (sym len) (mod-lt i pos_size)) in
      (c, ap (λ o. get_elem?_of o (i % bucket_size)) e ∙ e')

  -- What `get` answers with.
  unfoldable pub Numbered : C → Name → Name → BucketsOf C → BucketsOf C × ℕ → Type 0
  Numbered blank name other b (b', x) =
      IsValid b'
      × (find other b'.names ≡ (if same other name then some x else find other b.names))
      × ((c : C) × (access blank bucket_size x b' ≡ some c))
      × ((find name b.names ≡ some x) ⊎ AllBelow x b.names)

  numbered_lem :
      (blank : C) (b : BucketsOf C) (name other : Name) (o : Option ℕ)
      → 0 < bucket_size
      → IsValid b
      → find name b.names ≡ o
      → Numbered blank name other b (numbered blank bucket_size name b o)
  unfolding Numbered numbered IsValid AllBelow lockless_extend find
  numbered_lem blank b name other (some x) pos_size valid e = (
    valid,
    known other name b.names x (same other name) refl e,
    access-some blank b x pos_size valid (AllBelow-find b.size b.names name valid.2 e),
    inl e,
  )
  numbered_lem blank b name other none pos_size valid e =
      let (sized', fits', below') = lockless_extend-IsValid blank b pos_size valid in
      let b' = (numbered blank bucket_size name b none).0 in
      let valid' : IsValid b' = (sized', fits', (omega arith, below')) in
      (valid', refl, access-some blank b' b.size pos_size valid' (omega arith), inr valid.2)

  -- `get` keeps the store valid. It answers with a number that has storage and that the name has from
  -- then on: its old number if it had one, otherwise a number above every number given so far. The
  -- numbers of the other names stay.
  pub get_lem :
      (blank : C) (b : BucketsOf C) (name other : Name)
      → 0 < bucket_size
      → IsValid b
      → Numbered blank name other b (get blank bucket_size name b)
  unfolding get
  get_lem blank b name other pos_size valid =
      numbered_lem blank b name other (find name b.names) pos_size valid refl

pub empty-IsValid : (C : Type 0) (bucket_size : ℕ) → IsValid bucket_size (empty {C = C})
unfolding IsValid empty AllOfSize AllBelow
empty-IsValid C bucket_size = (tt, omega arith, tt)
