-- ===== src/Threading/Taskpool/Groups.antt =====
-- Cancelling: single tasks and groups.
use oef_mt_core.Base.{
  ℕ, ◌+◌, ◌≤◌, ◌≡◌, ◌≢◌, refl, ◌∙◌, true, List, [], ◌∷◌, ◌++◌, arith, ltb, ◌==◌, if◌then◌else◌, sym,
  subst, inl, inr, Bool-cases, ==_iff,
}
use oef_mt_core.Threading.Taskpool.{
  Taskpool, Task, erase_all, update, remove, cancel, of_group, not_of_group, cancel_each,
  cancel_task_group,
}
use oef_mt_core.Threading.Taskpool.Counting.{
  count, count-append, count-erase_all, count-not_of_group, count-of_group,
}

abbrev pub runnable_or_asleep : ℕ → Taskpool → ℕ
runnable_or_asleep t p = count t p.pending_tasks + count t p.suspended_tasks

-- What one cancel does to any task.
cancel-task :
    (t u : ℕ) (p : Taskpool)
    → (((cancel t p).tasks u).is_cancelled ≡ (if u == t then true else (p.tasks u).is_cancelled))
      × (((cancel t p).tasks u).group_id ≡ (p.tasks u).group_id)
      × (((cancel t p).tasks u).has_pool ≡ (p.tasks u).has_pool)
      × (runnable_or_asleep u (cancel t p) ≤ runnable_or_asleep u p)
      × ((cancel t p).future_tasks ≡ p.future_tasks)
unfolding cancel remove update
cancel-task t u p =
    ground (arith, count-erase_all u t p.pending_tasks, count-erase_all u t p.suspended_tasks)

-- A list of cancels marks exactly the tasks of the list.
cancel_each-marks :
    (ts : List ℕ) (u : ℕ) (p : Taskpool)
    → (((cancel_each ts p).tasks u).is_cancelled
        ≡ (if ltb 0 (count u ts) then true else (p.tasks u).is_cancelled))
      × (runnable_or_asleep u (cancel_each ts p) ≤ runnable_or_asleep u p)
      × ((cancel_each ts p).future_tasks ≡ p.future_tasks)
unfolding cancel_each count
cancel_each-marks [] u p = ground arith
cancel_each-marks (t ∷ ts) u p =
    ground (arith, cancel-task t u p, cancel_each-marks ts u (cancel t p))

erase_all-absent : (t : ℕ) (xs : List ℕ) → count t xs ≡ 0 → erase_all t xs ≡ xs
unfolding erase_all count
erase_all-absent t [] h = refl
erase_all-absent t (x ∷ xs) h = ground (arith, erase_all-absent t xs)

-- Tasks that stand in neither queue are cancelled without a change to the queues.
cancel-absent :
    (t : ℕ) (p : Taskpool)
    → runnable_or_asleep t p ≡ 0
    → ((cancel t p).pending_tasks ≡ p.pending_tasks)
      × ((cancel t p).suspended_tasks ≡ p.suspended_tasks)
unfolding cancel remove
cancel-absent t p h =
    ground (arith, erase_all-absent t p.pending_tasks, erase_all-absent t p.suspended_tasks)

-- None of the tasks stands in a queue.
abbrev AllAbsent : List ℕ → List ℕ → List ℕ → Type 0
AllAbsent [] pending suspended = Unit
AllAbsent (t ∷ ts) pending suspended =
    (count t pending + count t suspended ≡ 0) × AllAbsent ts pending suspended

AllAbsent-append :
    (xs ys pending suspended : List ℕ)
    → AllAbsent xs pending suspended
    → AllAbsent ys pending suspended
    → AllAbsent (xs ++ ys) pending suspended
AllAbsent-append [] ys pending suspended hx hy = hy
AllAbsent-append (x ∷ xs) ys pending suspended hx hy =
    (hx.0, AllAbsent-append xs ys pending suspended hx.1 hy)

cancel_each-absent :
    (ts : List ℕ) (p : Taskpool)
    → AllAbsent ts p.pending_tasks p.suspended_tasks
    → ((cancel_each ts p).pending_tasks ≡ p.pending_tasks)
      × ((cancel_each ts p).suspended_tasks ≡ p.suspended_tasks)
unfolding cancel_each
cancel_each-absent [] p h = (refl, refl)
cancel_each-absent (t ∷ ts) p h =
    let (pending, suspended) = cancel-absent t p h.0 in
    let later = cancel_each-absent ts (cancel t p) (
      subst (λ xs. AllAbsent ts xs (cancel t p).suspended_tasks) (sym pending)
        (subst (λ xs. AllAbsent ts p.pending_tasks xs) (sym suspended) h.1)) in
    (later.0 ∙ pending, later.1 ∙ suspended)

of_group-AllAbsent :
    (ts : ℕ → Task) (g : ℕ) (xs ys zs : List ℕ)
    → AllAbsent (of_group ts g xs) (not_of_group ts g ys) (not_of_group ts g zs)
unfolding of_group
of_group-AllAbsent ts g [] ys zs = tt
of_group-AllAbsent ts g (x ∷ xs) ys zs = elim (Bool-cases ((ts x).group_id == g)) [
  | inl t ↦ rw t (
    ground (arith, t, count-not_of_group ts g x ys, count-not_of_group ts g x zs),
    of_group-AllAbsent ts g xs ys zs,
  )
  | inr f ↦ rw f (of_group-AllAbsent ts g xs ys zs)
]

-- The second list is the first without the tasks of the group, in the same order.
pub data IsWithout (g : ℕ) (tasks : ℕ → Task) : List ℕ → List ℕ → Type 0 where
  nil : IsWithout g tasks [] []
  drops :
      {x : ℕ} {xs ys : List ℕ}
      → (tasks x).group_id ≡ g
      → IsWithout g tasks xs ys
      → IsWithout g tasks (x ∷ xs) ys
  keeps :
      {x : ℕ} {xs ys : List ℕ}
      → (tasks x).group_id ≢ g
      → IsWithout g tasks xs ys
      → IsWithout g tasks (x ∷ xs) (x ∷ ys)

not_of_group-IsWithout :
    (ts : ℕ → Task) (g : ℕ) (xs : List ℕ) → IsWithout g ts xs (not_of_group ts g xs)
unfolding not_of_group
not_of_group-IsWithout ts g [] = IsWithout.nil
not_of_group-IsWithout ts g (x ∷ xs) = elim (Bool-cases ((ts x).group_id == g)) [
  | inl t ↦ rw t (IsWithout.drops ((==_iff (ts x).group_id g).0 t) (not_of_group-IsWithout ts g xs))
  | inr f ↦ rw f (IsWithout.keeps (λ e. ground (arith, f, e)) (not_of_group-IsWithout ts g xs))
]

cancel_task_group-queues :
    (g : ℕ) (p : Taskpool)
    → let q = cancel_task_group g p in
      (q.pending_tasks ≡ not_of_group p.tasks g p.pending_tasks)
      × (q.suspended_tasks ≡ not_of_group p.tasks g p.suspended_tasks)
unfolding cancel_task_group
cancel_task_group-queues g p =
    let pending = not_of_group p.tasks g p.pending_tasks in
    let suspended = not_of_group p.tasks g p.suspended_tasks in
    cancel_each-absent (of_group p.tasks g p.pending_tasks ++ of_group p.tasks g p.suspended_tasks)
      (record p { pending_tasks = pending; suspended_tasks = suspended })
      (AllAbsent-append (of_group p.tasks g p.pending_tasks) (of_group p.tasks g p.suspended_tasks)
        pending suspended
        (of_group-AllAbsent p.tasks g p.pending_tasks p.pending_tasks p.suspended_tasks)
        (of_group-AllAbsent p.tasks g p.suspended_tasks p.pending_tasks p.suspended_tasks))

cancel_task_group-marks :
    (g u : ℕ) (p : Taskpool)
    → let q = cancel_task_group g p in
      ((q.tasks u).is_cancelled ≡ (
        if (p.tasks u).group_id == g
        then (if ltb 0 (runnable_or_asleep u p) then true else (p.tasks u).is_cancelled)
        else (p.tasks u).is_cancelled))
      × (q.future_tasks ≡ p.future_tasks)
unfolding cancel_task_group
cancel_task_group-marks g u p =
    let listed = of_group p.tasks g p.pending_tasks ++ of_group p.tasks g p.suspended_tasks in
    let rest = record p {
      pending_tasks = not_of_group p.tasks g p.pending_tasks;
      suspended_tasks = not_of_group p.tasks g p.suspended_tasks;
    } in
    ground (
      arith,
      cancel_each-marks listed u rest,
      count-append u (of_group p.tasks g p.pending_tasks) (of_group p.tasks g p.suspended_tasks),
      count-of_group p.tasks g u p.pending_tasks,
      count-of_group p.tasks g u p.suspended_tasks,
    )

-- Cancelling a group takes exactly the tasks of the group out of the pending and out of the sleeping
-- tasks, and the others stay in their queue in their order. A task is cancelled by it if it is of the
-- group and was in one of the two queues, and the mark of every other task stays as it was. No future
-- task is taken out, of the group or not.
pub cancel_task_group_lem :
    (g u : ℕ) (p : Taskpool)
    → let q = cancel_task_group g p in
      IsWithout g p.tasks p.pending_tasks q.pending_tasks
      × IsWithout g p.tasks p.suspended_tasks q.suspended_tasks
      × ((q.tasks u).is_cancelled ≡ (
          if (p.tasks u).group_id == g
          then (if ltb 0 (runnable_or_asleep u p) then true else (p.tasks u).is_cancelled)
          else (p.tasks u).is_cancelled))
      × (q.future_tasks ≡ p.future_tasks)
cancel_task_group_lem g u p =
    let (pending, suspended) = cancel_task_group-queues g p in
    let (marks, future) = cancel_task_group-marks g u p in
    (
      subst (λ xs. IsWithout g p.tasks p.pending_tasks xs) (sym pending)
          (not_of_group-IsWithout p.tasks g p.pending_tasks),
      subst (λ xs. IsWithout g p.tasks p.suspended_tasks xs) (sym suspended)
          (not_of_group-IsWithout p.tasks g p.suspended_tasks),
      marks,
      future,
    )
