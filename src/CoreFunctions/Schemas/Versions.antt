-- ===== src/CoreFunctions/Schemas/Versions.antt =====
-- The versions that Schemas and SchemaDirectory of oef-core-functions/src/cpp/lib/schema.hpp number
-- themselves, and what `get` finds under them.
use oef_mt_core.Base.{
  ℕ, zero, suc, ◌+◌, ◌-◌, ◌≤◌, ◌<◌, ◌≡◌, refl, sym, ap, subst, ◌∙◌, inl, inr, Bool, true, false,
  List, [], ◌∷◌, ◌++◌, Option, none, some, arith, if◌then◌else◌, Bool-cases, length, get_elem?,
  length-append, ◌==◌, leb, ltb, ◌&&◌, lt_or_le,
}
use oef_mt_core.Karma.BucketsOf.{Name, same, find}
use oef_mt_core.Karma.BucketsOf.Laws.{same_refl, same-eq}
use oef_mt_core.CoreFunctions.Attributes.{DataModel}
use oef_mt_core.CoreFunctions.Schemas.{
  Schema, newest, version_for, add, back, at_least, or_else, get, get_in, directory_get,
  directory_add,
}

-- The versions are k, k + 1 and so on.
unfoldable pub IsNumbered : ℕ → List Schema → Type 0
IsNumbered k [] = Unit
IsNumbered k (s ∷ rest) = (s.version ≡ k) × IsNumbered (suc k) rest

IsNumbered-append :
    (k : ℕ) (schemas : List Schema) (s : Schema)
    → IsNumbered k schemas
    → s.version ≡ length schemas + k
    → IsNumbered k (schemas ++ (s ∷ []))
unfolding IsNumbered
IsNumbered-append k [] s h e = (omega (arith, e), tt)
IsNumbered-append k (t ∷ rest) s (e, h) e' = (e, IsNumbered-append (suc k) rest s h (omega arith))

back-append : (schemas : List Schema) (s : Schema) → back (schemas ++ (s ∷ [])) ≡ some s
back-append [] s = refl
back-append (t ∷ []) s = refl
back-append (t ∷ u ∷ rest) s = back-append (u ∷ rest) s

at_least-numbered :
    (k u : ℕ) (schemas : List Schema)
    → IsNumbered k schemas
    → k ≤ u
    → u < k + length schemas
    → at_least u schemas ≡ get_elem? schemas (u - k)
unfolding IsNumbered
at_least-numbered k u [] h low high = absurd (omega arith)
at_least-numbered k u (s ∷ rest) (e, h) low high = elim (lt_or_le k u) [
  | inl lt ↦
      let index : u - k ≡ suc (u - suc k) = omega arith in
      let found = at_least-numbered (suc k) u rest h (omega arith) (omega arith) in
      ground (arith, found, ap (get_elem? (s ∷ rest)) index)
  | inr le ↦ let index : u - k ≡ 0 = omega arith in ground (arith, ap (get_elem? (s ∷ rest)) index)
]

get_elem?-append_end :
    (schemas : List Schema) (s : Schema) → get_elem? (schemas ++ (s ∷ [])) (length schemas) ≡ some s
get_elem?-append_end [] s = refl
get_elem?-append_end (t ∷ rest) s = get_elem?-append_end rest s

get_elem?-append_start :
    (schemas : List Schema) (s : Schema) (n : ℕ)
    → n < length schemas
    → get_elem? (schemas ++ (s ∷ [])) n ≡ get_elem? schemas n
get_elem?-append_start [] s n h = absurd (omega arith)
get_elem?-append_start (t ∷ rest) s zero h = refl
get_elem?-append_start (t ∷ rest) s (suc n) h = get_elem?-append_start rest s n (omega arith)

get_elem?-or_else :
    (schemas : List Schema) (n : ℕ) (o : Option Schema)
    → n < length schemas
    → or_else (get_elem? schemas n) o ≡ get_elem? schemas n
get_elem?-or_else [] n o h = absurd (omega arith)
get_elem?-or_else (t ∷ rest) zero o h = refl
get_elem?-or_else (t ∷ rest) (suc n) o h = get_elem?-or_else rest n o (omega arith)

not_newest : {A : Type 0} (u : ℕ) (x y : A) → u < newest → (if u == newest then x else y) ≡ y
not_newest u x y h = ground arith

get-numbered :
    (u : ℕ) (schemas : List Schema)
    → IsNumbered 1 schemas
    → 1 ≤ u
    → u ≤ length schemas
    → u < newest
    → get u schemas ≡ get_elem? schemas (u - 1)
unfolding get
get-numbered u [] h low high small = absurd (omega arith)
get-numbered u (s ∷ rest) h low high small =
    let found =
      ap (λ o. or_else o (back (s ∷ rest)))
        (at_least-numbered 1 u (s ∷ rest) h low (omega arith)) in
    let whole = get_elem?-or_else (s ∷ rest) (u - 1) (back (s ∷ rest)) (omega arith) in
    not_newest u (back (s ∷ rest)) _ small ∙ found ∙ whole

get-newest : (schemas : List Schema) (s : Schema) → get newest (schemas ++ (s ∷ [])) ≡ some s
unfolding get
get-newest [] s = refl
get-newest (t ∷ rest) s = back-append (t ∷ rest) s

at_least-beyond :
    (k u : ℕ) (schemas : List Schema) (s : Schema)
    → IsNumbered k schemas
    → k + length schemas ≤ u
    → at_least u (schemas ++ (s ∷ [])) ≡ (if leb u s.version then some s else none)
unfolding IsNumbered
at_least-beyond k u [] s h low = refl
at_least-beyond k u (t ∷ rest) s (e, h) low =
    ground (arith, at_least-beyond (suc k) u rest s h (omega arith))

either_way : (c : Bool) (s : Schema) → or_else (if c then some s else none) (some s) ≡ some s
either_way true s = refl
either_way false s = refl

get-loop :
    (u : ℕ) (schemas : List Schema) (s : Schema)
    → u < newest
    → get u (schemas ++ (s ∷ [])) ≡ or_else (at_least u (schemas ++ (s ∷ []))) (some s)
unfolding get
get-loop u [] s h = not_newest u _ _ h
get-loop u (t ∷ rest) s h =
    not_newest u _ _ h ∙ ap (or_else (at_least u (t ∷ rest ++ (s ∷ [])))) (back-append (t ∷ rest) s)

get-append :
    (u : ℕ) (schemas : List Schema) (s : Schema)
    → IsNumbered 1 schemas
    → s.version ≡ length schemas + 1
    → length schemas + 1 < newest
    → 1 ≤ u
    → u ≤ newest
    → get u (schemas ++ (s ∷ [])) ≡ (if ltb (length schemas) u then some s else get u schemas)
get-append u schemas s h e small low high = elim (lt_or_le (length schemas) u) [
  | inl lt ↦ ground (
    arith,
    elim (lt_or_le u newest) as (λ _. get u (schemas ++ (s ∷ [])) ≡ some s) [
      | inl below ↦
          get-loop u schemas s below
          ∙ ap (λ o. or_else o (some s)) (at_least-beyond 1 u schemas s h (omega arith))
          ∙ either_way (leb u s.version) s
      | inr above ↦ ap (λ w. get w (schemas ++ (s ∷ []))) (omega arith) ∙ get-newest schemas s
    ],
  )
  | inr le ↦
      let len : length (schemas ++ (s ∷ [])) ≡ length schemas + 1 =
        length-append schemas (s ∷ []) in
      let all = IsNumbered-append 1 schemas s h e in
      let old =
        get-numbered u (schemas ++ (s ∷ [])) all low (omega arith) (omega arith)
        ∙ get_elem?-append_start schemas s (u - 1) (omega arith)
        ∙ sym (get-numbered u schemas h low le (omega arith)) in
      ground (arith, old)
]

abbrev pub versions : Option (List Schema) → List Schema
versions none = []
versions (some schemas) = schemas

find-directory_add :
    (n key : Name) (version : ℕ) (schema : DataModel) (directory : List (Name × List Schema))
    → find n (directory_add key version schema directory).1 ≡ (
        if same n key
        then some (add version schema (versions (find key directory))).1
        else find n directory)
unfolding find directory_add
find-directory_add n key version schema [] = refl
find-directory_add n key version schema ((k, old) ∷ rest) = elim (Bool-cases (same key k)) [
  | inl s ↦ ground (arith, s, ap (same n) (same-eq key k s))
  | inr s ↦ elim (Bool-cases (same n key)) [
    | inl t ↦ ground (
      arith,
      s,
      t,
      ap (λ x. same x k) (same-eq n key t),
      find-directory_add n key version schema rest,
    )
    | inr t ↦ ground (arith, s, t, find-directory_add n key version schema rest)
  ]
]

directory_add-version :
    (key : Name) (version : ℕ) (schema : DataModel) (directory : List (Name × List Schema))
    → (directory_add key version schema directory).0
      ≡ (add version schema (versions (find key directory))).0
unfolding find directory_add
directory_add-version key version schema [] = refl
directory_add-version key version schema ((k, old) ∷ rest) =
    ground (arith, directory_add-version key version schema rest)

get_in-versions : (u : ℕ) (o : Option (List Schema)) → get u (versions o) ≡ get_in u o
unfolding get
get_in-versions u none = refl
get_in-versions u (some schemas) = refl

look_up :
    (t : Bool) (u : ℕ) (old : List Schema) (s : Schema) (o : Option (List Schema))
    → IsNumbered 1 old
    → s.version ≡ length old + 1
    → length old + 1 < newest
    → 1 ≤ u
    → u ≤ newest
    → (t ≡ true → get u old ≡ get_in u o)
    → get_in u (if t then some (old ++ (s ∷ [])) else o)
      ≡ (if t && ltb (length old) u then some s else get_in u o)
look_up true u old s o h e small low high same_key =
    get-append u old s h e small low high
    ∙ ap (λ x. if ltb (length old) u then some s else x) (same_key refl)
look_up false u old s o h e small low high same_key = refl

-- What is found in the directory after a schema was added.
unfoldable pub Stored :
    Name → Name → ℕ → DataModel → List (Name × List Schema) → ℕ × List (Name × List Schema) → Type 0
Stored key n u schema directory (v, directory') =
    (v ≡ length (versions (find key directory)) + 1)
    × IsNumbered 1 (versions (find key directory'))
    × (directory_get n u directory' ≡ (
        if same n key && ltb (length (versions (find key directory))) u
        then some (record { version = v; schema = schema })
        else directory_get n u directory))

-- A schema that a directory gets without a version is stored under the next version of its name. A
-- look-up under that name finds it for every version, the newest among them, that is above the older
-- ones; any other look-up of a version from 1 on finds what it found before. The versions under the
-- name were all counted so, and fit 32 bits.
pub directory_add-get :
    (key n : Name) (u : ℕ) (schema : DataModel) (directory : List (Name × List Schema))
    → IsNumbered 1 (versions (find key directory))
    → length (versions (find key directory)) + 1 < newest
    → 1 ≤ u
    → u ≤ newest
    → Stored key n u schema directory (directory_add key newest schema directory)
unfolding Stored directory_get add
directory_add-get key n u schema directory h small low high =
    let old = versions (find key directory) in
    let s : Schema = record { version = version_for newest old; schema = schema } in
    let e : s.version ≡ length old + 1 = omega arith in
    let v : (directory_add key newest schema directory).0 ≡ s.version =
      directory_add-version key newest schema directory in
    let new =
      find-directory_add key key newest schema directory
      ∙ ap (λ c. if c then some (old ++ (s ∷ [])) else find key directory) (same_refl key) in
    (
      v ∙ e,
      subst (λ o. IsNumbered 1 (versions o)) (sym new) (IsNumbered-append 1 old s h e),
      ap (get_in u) (find-directory_add n key newest schema directory)
          ∙ look_up (same n key) u old s (find n directory) h e small low high (λ t.
            get_in-versions u (find key directory)
            ∙ ap (λ k. get_in u (find k directory)) (sym (same-eq n key t)))
          ∙ ap
              (λ w.
                if same n key && ltb (length old) u
                then some (record { version = w; schema = schema })
                else directory_get n u directory)
              (sym v),
    )
