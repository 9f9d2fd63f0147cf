-- ===== src/Karma/BucketsOf.antt =====
-- cpp-utils/src/cpp/lib/BucketsOf.hpp: a store that grows by whole buckets, so that what it holds
-- never moves, and that numbers names as they come. A name is its characters. The mutex serialises
-- the calls.
pub mod Laws
use oef_mt_core.Base.{
  ℕ, zero, suc, ◌+◌, ◌*◌, ◌/◌, ◌%◌, Bool, true, false, ◌&&◌, List, [], ◌∷◌, ◌++◌, Option, none,
  some, length, get_elem?, set, replicate, if◌then◌else◌, ◌==◌, leb, is_some,
}

abbrev pub Name : Type 0
Name = List ℕ

pub record BucketsOf (C : Type 0) : Type 0 where
  pub buckets : List (List C)
  pub names : List (Name × ℕ)
  pub size : ℕ

-- `operator==` of std::string.
unfoldable pub same : Name → Name → Bool
same [] [] = true
same (c ∷ cs) (d ∷ ds) = (c == d) && same cs ds
same _ _ = false

-- `std::map::find`
unfoldable pub find : {V : Type 0} → Name → List (Name × V) → Option V
find name [] = none
find name ((key, v) ∷ rest) = let later = find name rest in if same name key then some v else later

unfoldable pub get_elem?_of : {C : Type 0} → Option (List C) → ℕ → Option C
get_elem?_of none j = none
get_elem?_of (some bucket) j = get_elem? bucket j

module _ {C : Type 0} where
  pub empty : BucketsOf C
  empty = record { buckets = []; names = []; size = 0 }

  abbrev pub has : Name → BucketsOf C → Bool
  has name b = is_some (find name b.names)

  -- What the elements are constructed as, and the template's BUCKET_SIZE.
  module _ (blank : C) (bucket_size : ℕ) where
    pub with_bucket : Bool → List (List C) → List (List C)
    with_bucket true buckets = buckets ++ (replicate bucket_size blank ∷ [])
    with_bucket false buckets = buckets

    pub lockless_extend : BucketsOf C → BucketsOf C × ℕ
    lockless_extend b =
        let is_full = leb (bucket_size * length b.buckets) b.size in
        (record b { buckets = with_bucket is_full b.buckets; size = suc b.size }, b.size)

    unfoldable pub numbered : Name → BucketsOf C → Option ℕ → BucketsOf C × ℕ
    numbered name b none =
        let (b', x) = lockless_extend b in (record b' { names = (name, x) ∷ b'.names }, x)
    numbered name b (some x) = (b, x)

    unfoldable pub get : Name → BucketsOf C → BucketsOf C × ℕ
    get name b = numbered name b (find name b.names)

    -- `none` where the source reads past the end.
    unfoldable pub access : ℕ → BucketsOf C → Option C
    access i b = get_elem?_of (get_elem? b.buckets (i / bucket_size)) (i % bucket_size)

    unfoldable pub put_in : Option (List C) → ℕ → C → BucketsOf C → BucketsOf C
    put_in none i c b = b
    put_in (some bucket) i c b = record b {
      buckets = set b.buckets (i / bucket_size) (set bucket (i % bucket_size) c);
    }

    -- A write through the reference that `access` returns.
    unfoldable pub put : ℕ → C → BucketsOf C → BucketsOf C
    put i c b = put_in (get_elem? b.buckets (i / bucket_size)) i c b
