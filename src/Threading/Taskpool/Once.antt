-- ===== src/Threading/Taskpool/Once.antt =====
-- A task waits in one place of the pool at most.
use oef_mt_core.Base.{
  ℕ, ◌+◌, ◌≤◌, ◌≡◌, ◌≢◌, refl, ap, true, false, List, [], ◌∷◌, ◌++◌, ◌∙◌, Option, none, some, arith,
  ◌==◌, inl, inr, Bool-cases,
}
use oef_mt_core.Threading.Taskpool.{
  Taskpool, Task, ExitState, insert_set, complete, defer, cancelled, errored, update, set_pool,
  mark_cancelled, suspend, submit, after, remove, make_runnable, cancel, task_submit,
  task_submit_after, task_make_runnable, set_group_id, cancel_each, cancel_task_group, next_due,
  take_out, next_future_work, next_pending, or_pending, next_task, set_running, begin, settle,
  finish,
}
use oef_mt_core.Threading.Taskpool.Counting.{
  one_if, count, count_future, found_count, count-cons, count-snoc, count-erase_all, contains-count,
  count-insert_set, count-not_of_group, count_future-push, next_due-count,
}

-- In how many places the task waits.
abbrev pub places : ℕ → Taskpool → ℕ
places t p = count t p.pending_tasks + count t p.suspended_tasks + count_future t p.future_tasks

-- One place at most, and none without the pointer to the pool.
abbrev pub IsOnce : Taskpool → Type 0
IsOnce p = (t : ℕ) → places t p ≤ one_if (p.tasks t).has_pool

-- What clients, threads and the tasks themselves do, but for the deferral of a task that was submitted
-- anew while it ran, which sets the pointer again.
pub data Step : Taskpool → Taskpool → Type 0 where
  submits : (t : ℕ) (p : Taskpool) → Step p (task_submit t p)
  submits_after : (now t delay : ℕ) (p : Taskpool) → Step p (task_submit_after now t delay p)
  wakes : (t : ℕ) (p : Taskpool) → Step p (task_make_runnable t p)
  cancels : (t : ℕ) (p : Taskpool) → Step p (cancel t p)
  regroups : (t g : ℕ) (p : Taskpool) → Step p (set_group_id t g p)
  cancels_group : (g : ℕ) (p : Taskpool) → Step p (cancel_task_group g p)
  takes : (now : ℕ) (p : Taskpool) → Step p (next_task now p).1
  begins : (thread_idx t : ℕ) (p : Taskpool) → Step p (begin thread_idx t p)
  ends :
      (thread_idx t : ℕ) (status : ExitState) (p : Taskpool)
      → status ≢ defer
      → Step p (finish thread_idx t status p)
  defers :
      (thread_idx t : ℕ) (p : Taskpool)
      → (p.tasks t).has_pool ≡ false
      → Step p (finish thread_idx t defer p)

pub data Run (p : Taskpool) : Taskpool → Type 0 where
  here : Run p p
  next : {q r : Taskpool} → Run p q → Step q r → Run p r

suspend-IsOnce :
    (t : ℕ) (p : Taskpool)
    → ((u : ℕ)
        → places u p + one_if (t == u) ≤ one_if (update p.tasks t (set_pool true) u).has_pool)
    → IsOnce (suspend t p)
unfolding suspend
suspend-IsOnce t p h u = omega (arith, h u, count-insert_set u t p.suspended_tasks)

-- A task without the pointer to the pool waits nowhere, so there is a place for it.
room_for :
    (t u : ℕ) (p : Taskpool)
    → IsOnce p
    → (p.tasks t).has_pool ≡ false
    → places u p + one_if (t == u) ≤ one_if (update p.tasks t (set_pool true) u).has_pool
unfolding update
room_for t u p once free = ground (arith, once u, same t u)
  where
    same : (a b : ℕ) → a ≡ b → (p.tasks a).has_pool ≡ (p.tasks b).has_pool
    same a b e = ap (λ (k : ℕ). (p.tasks k).has_pool) e

task_submit-IsOnce : (t : ℕ) (p : Taskpool) → IsOnce p → IsOnce (task_submit t p)
unfolding task_submit submit suspend
task_submit-IsOnce t p once u = ground (
  arith,
  once u,
  room_for t u p once,
  count-snoc u t p.pending_tasks,
  count-insert_set u t p.suspended_tasks,
  twice u,
)
  where
    twice :
        (v : ℕ)
        → (update (update p.tasks t (set_pool true)) t (set_pool true) v).has_pool
          ≡ (update p.tasks t (set_pool true) v).has_pool
    twice v = unfold update in ground arith

task_submit_after-IsOnce :
    (now t delay : ℕ) (p : Taskpool) → IsOnce p → IsOnce (task_submit_after now t delay p)
unfolding task_submit_after after
task_submit_after-IsOnce now t delay p once u = ground (
  arith,
  once u,
  room_for t u p once,
  count_future-push u (record { task = t; due = now + delay }) p.future_tasks,
)

make_runnable-IsOnce : (t : ℕ) (p : Taskpool) → IsOnce p → IsOnce (make_runnable t p)
unfolding make_runnable
make_runnable-IsOnce t p once u = ground (
  arith,
  once u,
  count-cons u t p.pending_tasks,
  count-erase_all u t p.suspended_tasks,
  contains-count t p.suspended_tasks,
  same t u,
)
  where
    same : (a b : ℕ) → a ≡ b → count a p.suspended_tasks ≡ count b p.suspended_tasks
    same a b e = ap (λ (k : ℕ). count k p.suspended_tasks) e

remove-IsOnce : (t : ℕ) (p : Taskpool) → IsOnce p → IsOnce (remove t p)
unfolding remove
remove-IsOnce t p once u =
    ground
      (arith, once u, count-erase_all u t p.pending_tasks, count-erase_all u t p.suspended_tasks)

-- Marks other than the pointer to the pool do not matter.
retask-IsOnce :
    (p : Taskpool) (t : ℕ) (f : Task → Task)
    → ((k : Task) → (f k).has_pool ≡ k.has_pool)
    → IsOnce p
    → IsOnce (record p { tasks = update p.tasks t f })
unfolding update
retask-IsOnce p t f keeps once u = ground (arith, once u, keeps (p.tasks u))

cancel-IsOnce : (t : ℕ) (p : Taskpool) → IsOnce p → IsOnce (cancel t p)
unfolding cancel
cancel-IsOnce t p once = elim (Bool-cases (p.tasks t).has_pool) [
  | inl held ↦ rw held (remove-IsOnce t _ marked)
  | inr free ↦ rw free marked
]
  where
    marked : IsOnce (record p { tasks = update p.tasks t mark_cancelled })
    marked = retask-IsOnce p t mark_cancelled (λ k. refl) once

cancel_each-IsOnce : (ts : List ℕ) (p : Taskpool) → IsOnce p → IsOnce (cancel_each ts p)
unfolding cancel_each
cancel_each-IsOnce [] p once = once
cancel_each-IsOnce (t ∷ ts) p once = cancel_each-IsOnce ts (cancel t p) (cancel-IsOnce t p once)

cancel_task_group-IsOnce : (g : ℕ) (p : Taskpool) → IsOnce p → IsOnce (cancel_task_group g p)
unfolding cancel_task_group
cancel_task_group-IsOnce g p once = cancel_each-IsOnce _ _ λ u. ground (
  arith,
  once u,
  count-not_of_group p.tasks g u p.pending_tasks,
  count-not_of_group p.tasks g u p.suspended_tasks,
)

-- A task that is taken out waits nowhere any more.
take_out-IsOnce :
    (o : Option ℕ) (p : Taskpool)
    → ((u : ℕ) → places u p + found_count u o ≤ one_if (p.tasks u).has_pool)
    → IsOnce (take_out o p)
unfolding update
take_out-IsOnce none p h u = omega (arith, h u)
take_out-IsOnce (some t) p h u = ground (arith, h u)

next_future_work-IsOnce : (now : ℕ) (p : Taskpool) → IsOnce p → IsOnce (next_future_work now p).1
unfolding next_future_work
next_future_work-IsOnce now p once =
    take_out-IsOnce (next_due p.tasks now p.future_tasks).0
      (record p { future_tasks = (next_due p.tasks now p.future_tasks).1 })
      λ u. omega (arith, once u, next_due-count p.tasks now u p.future_tasks)

next_pending-IsOnce :
    (us : List ℕ) (p : Taskpool) → p.pending_tasks ≡ us → IsOnce p → IsOnce (next_pending us p).1
unfolding next_pending
next_pending-IsOnce [] p e once = once
next_pending-IsOnce (t ∷ us) p e once =
    take_out-IsOnce (some t) (record p { pending_tasks = us })
      λ u. omega (arith, once u, ap (count u) e, count-cons u t us)

or_pending-IsOnce : (o : Option ℕ) (p : Taskpool) → IsOnce p → IsOnce (or_pending o p).1
unfolding or_pending
or_pending-IsOnce none p once = next_pending-IsOnce p.pending_tasks p refl once
or_pending-IsOnce (some t) p once = once

finish-IsOnce :
    (thread_idx t : ℕ) (status : ExitState) (p : Taskpool)
    → status ≢ defer
    → IsOnce p
    → IsOnce (finish thread_idx t status p)
unfolding finish settle set_running
finish-IsOnce thread_idx t complete p ne once = once
finish-IsOnce thread_idx t defer p ne once = absurd (ne refl)
finish-IsOnce thread_idx t cancelled p ne once = once
finish-IsOnce thread_idx t errored p ne once = once

Step-IsOnce : {p q : Taskpool} → Step p q → IsOnce p → IsOnce q
unfolding task_make_runnable set_group_id next_task begin set_running finish settle
Step-IsOnce (submits t p) once = task_submit-IsOnce t p once
Step-IsOnce (submits_after now t delay p) once = task_submit_after-IsOnce now t delay p once
Step-IsOnce (wakes t p) once = elim (Bool-cases (p.tasks t).has_pool) [
  | inl held ↦ rw held (make_runnable-IsOnce t p once)
  | inr free ↦ rw free once
]
Step-IsOnce (cancels t p) once = cancel-IsOnce t p once
Step-IsOnce (regroups t g p) once = retask-IsOnce p t _ (λ k. refl) once
Step-IsOnce (cancels_group g p) once = cancel_task_group-IsOnce g p once
Step-IsOnce (takes now p) once = or_pending-IsOnce _ _ (next_future_work-IsOnce now p once)
Step-IsOnce (begins thread_idx t p) once = once
Step-IsOnce (ends thread_idx t status p ne) once = finish-IsOnce thread_idx t status p ne once
Step-IsOnce (defers thread_idx t p free) once =
    suspend-IsOnce t (set_running thread_idx none p) (λ u. room_for t u p once free)

-- From a pool in which no task stands twice, and only tasks with the pointer to the pool stand at all,
-- no run of steps makes a task wait in two places or twice in one, provided that no task defers that
-- was submitted anew while a thread ran it: pending, sleeping and future tasks together hold it at most
-- once, and not at all while its pointer is unset, as it is from the moment a thread takes it.
pub Run-IsOnce : {p q : Taskpool} → IsOnce p → Run p q → IsOnce q
Run-IsOnce once here = once
Run-IsOnce once (next r s) = Step-IsOnce s (Run-IsOnce once r)

place_in_suspended : (t : ℕ) (xs : List ℕ) → count t xs ≡ 0 → count t (insert_set t xs) ≡ 1
unfolding count
place_in_suspended t xs h = ground (arith, contains-count t xs)

submitted-places :
    (t : ℕ) (p : Taskpool)
    → (p.tasks t).has_pool ≡ false
    → (p.tasks t).is_runnable ≡ true
    → ((task_submit t p).pending_tasks ≡ p.pending_tasks ++ (t ∷ []))
      × ((task_submit t p).suspended_tasks ≡ p.suspended_tasks)
      × ((task_submit t p).future_tasks ≡ p.future_tasks)
unfolding task_submit submit update
submitted-places t p free runnable = ground (arith, free, runnable)

-- A task that is runnable and waits nowhere, as one that a thread runs, and that is submitted anew and
-- then defers, waits in two places: it is pending and asleep at once.
pub resubmitted-places :
    (thread_idx t : ℕ) (p : Taskpool)
    → IsOnce p
    → (p.tasks t).has_pool ≡ false
    → (p.tasks t).is_runnable ≡ true
    → let q = finish thread_idx t defer (task_submit t p) in
      (count t q.pending_tasks ≡ 1) × (count t q.suspended_tasks ≡ 1)
unfolding finish settle suspend set_running
resubmitted-places thread_idx t p once free runnable =
    let (pending, asleep, later) = submitted-places t p free runnable in
    let nowhere : places t p ≡ 0 = ground (arith, once t, free) in
    (
      ap (count t) pending ∙ omega (arith, nowhere, count-snoc t t p.pending_tasks, self t),
      ap (λ xs. count t (insert_set t xs)) asleep
          ∙ place_in_suspended t p.suspended_tasks (omega (arith, nowhere)),
    )
  where
    self : (u : ℕ) → one_if (u == u) ≡ 1
    self u = ground arith
