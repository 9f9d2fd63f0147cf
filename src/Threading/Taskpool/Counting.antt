-- ===== src/Threading/Taskpool/Counting.antt =====
-- How often a task stands in the queues of the pool.
use oef_mt_core.Base.{
  ◌<◌, ℕ, ◌+◌, ◌≤◌, ◌≡◌, ◌≢◌, refl, ap, Bool, true, false, List, [], ◌∷◌, ◌++◌, Option, none, some,
  arith, ◌==◌, if◌then◌else◌,
}
use oef_mt_core.Threading.Taskpool.{
  Task, FutureTask, erase_all, contains, insert_set, push_future, of_group, not_of_group, next_due,
  update,
}

abbrev pub one_if : Bool → ℕ
one_if b = if b then 1 else 0

unfoldable pub count : ℕ → List ℕ → ℕ
count t [] = 0
count t (u ∷ us) = one_if (u == t) + count t us

unfoldable pub count_future : ℕ → List FutureTask → ℕ
count_future t [] = 0
count_future t (f ∷ fs) = one_if (f.task == t) + count_future t fs

abbrev pub found_count : ℕ → Option ℕ → ℕ
found_count t none = 0
found_count t (some u) = one_if (u == t)

pub count-cons : (t u : ℕ) (xs : List ℕ) → count t (u ∷ xs) ≡ one_if (u == t) + count t xs
unfolding count
count-cons t u xs = refl

pub count-append : (t : ℕ) (xs ys : List ℕ) → count t (xs ++ ys) ≡ count t xs + count t ys
unfolding count
count-append t [] ys = omega arith
count-append t (x ∷ xs) ys = omega (arith, count-append t xs ys)

pub count-snoc : (t u : ℕ) (xs : List ℕ) → count t (xs ++ (u ∷ [])) ≡ count t xs + one_if (u == t)
unfolding count
count-snoc t u [] = omega arith
count-snoc t u (x ∷ xs) = omega (arith, count-snoc t u xs)

pub count-erase_all :
    (t u : ℕ) (xs : List ℕ) → count t (erase_all u xs) ≡ (if u == t then 0 else count t xs)
unfolding count erase_all
count-erase_all t u [] = ground arith
count-erase_all t u (x ∷ xs) = ground (arith, count-erase_all t u xs)

pub contains-count : (t : ℕ) (xs : List ℕ) → contains t xs ≡ true → 0 < count t xs
unfolding contains count
contains-count t [] h = cc
contains-count t (x ∷ xs) h = ground (arith, contains-count t xs)

pub not_contains-count : (t : ℕ) (xs : List ℕ) → contains t xs ≡ false → count t xs ≡ 0
unfolding contains count
not_contains-count t [] h = refl
not_contains-count t (x ∷ xs) h = ground (arith, not_contains-count t xs)

pub count-insert_set :
    (t u : ℕ) (xs : List ℕ) → count t (insert_set u xs) ≤ count t xs + one_if (u == t)
unfolding count
count-insert_set t u xs = ground arith

same_group : (ts : ℕ → Task) (x t : ℕ) → x ≡ t → (ts x).group_id ≡ (ts t).group_id
same_group ts x t e = ap (λ (k : ℕ). (ts k).group_id) e

pub count-not_of_group :
    (ts : ℕ → Task) (g t : ℕ) (xs : List ℕ)
    → count t (not_of_group ts g xs) ≡ (if (ts t).group_id == g then 0 else count t xs)
unfolding count not_of_group
count-not_of_group ts g t [] = ground arith
count-not_of_group ts g t (x ∷ xs) = ground (arith, same_group ts x t, count-not_of_group ts g t xs)

pub count-of_group :
    (ts : ℕ → Task) (g t : ℕ) (xs : List ℕ)
    → count t (of_group ts g xs) ≡ (if (ts t).group_id == g then count t xs else 0)
unfolding count of_group
count-of_group ts g t [] = ground arith
count-of_group ts g t (x ∷ xs) = ground (arith, same_group ts x t, count-of_group ts g t xs)

pub count_future-push :
    (t : ℕ) (f : FutureTask) (fs : List FutureTask)
    → count_future t (push_future f fs) ≡ one_if (f.task == t) + count_future t fs
unfolding count_future push_future
count_future-push t f [] = refl
count_future-push t f (g ∷ gs) = ground (arith, count_future-push t f gs)

-- The task that is found and those that are left were there before.
pub next_due-count :
    (ts : ℕ → Task) (now t : ℕ) (fs : List FutureTask)
    → found_count t (next_due ts now fs).0 + count_future t (next_due ts now fs).1
      ≤ count_future t fs
unfolding next_due count_future
next_due-count ts now t [] = omega arith
next_due-count ts now t (f ∷ fs) = ground (arith, next_due-count ts now t fs)

pub update_self : (ts : ℕ → Task) (t : ℕ) (f : Task → Task) → update ts t f t ≡ f (ts t)
unfolding update
update_self ts t f = ground arith

pub update_other : (ts : ℕ → Task) (t u : ℕ) (f : Task → Task) → u ≢ t → update ts t f u ≡ ts u
unfolding update
update_other ts t u f ne = ground arith
