-- ===== src/Threading/Taskpool.antt =====
-- threading/src/cpp/lib/Taskpool.cpp and Task.cpp. There is one pool, the default one, and a task is
-- known by its number; `tasks` is the memory of the shared task objects. Each stretch of code under
-- the pool's mutex is one step, and `now` is what `Clock::now()` returned. The set of sleeping tasks
-- is a list without repetition; the queue of future tasks is kept by due time, equal times in the
-- order of arrival (std::priority_queue leaves it open).
pub mod Counting
pub mod Once
pub mod Groups
pub mod Future
pub mod Stop
use oef_mt_core.Base.{
  ℕ, zero, suc, ◌+◌, Bool, true, false, not, ◌&&◌, List, [], ◌∷◌, ◌++◌, Option, none, some, leb,
  ltb, ◌==◌, if◌then◌else◌,
}

-- threading/src/cpp/lib/ExitState.hpp
pub data ExitState : Type 0 where
  complete defer cancelled errored : ExitState

pub record Task : Type 0 where
  pub is_cancelled : Bool
  pub group_id : ℕ
  -- What `isRunnable` answers.
  pub is_runnable : Bool
  -- Whether the pointer to the pool is set.
  pub has_pool : Bool

pub record FutureTask : Type 0 where
  pub task : ℕ
  pub due : ℕ

pub record Taskpool : Type 0 where
  pub quit : Bool
  pub pending_tasks : List ℕ
  -- The task that each thread runs.
  pub running_tasks : ℕ → Option ℕ
  pub suspended_tasks : List ℕ
  pub future_tasks : List FutureTask
  pub tasks : ℕ → Task

pub update : (ℕ → Task) → ℕ → (Task → Task) → ℕ → Task
update ts t f u = if u == t then f (ts u) else ts u

abbrev pub set_pool : Bool → Task → Task
set_pool b t = record t { has_pool = b }

abbrev pub mark_cancelled : Task → Task
mark_cancelled t = record t { is_cancelled = true }

pub erase_all : ℕ → List ℕ → List ℕ
erase_all t [] = []
erase_all t (u ∷ us) = if u == t then erase_all t us else u ∷ erase_all t us

pub contains : ℕ → List ℕ → Bool
contains t [] = false
contains t (u ∷ us) = if u == t then true else contains t us

-- `std::set::insert`
abbrev pub insert_set : ℕ → List ℕ → List ℕ
insert_set t us = if contains t us then us else t ∷ us

-- `future_tasks.push`
pub push_future : FutureTask → List FutureTask → List FutureTask
push_future f [] = f ∷ []
push_future f (g ∷ gs) = if ltb f.due g.due then f ∷ g ∷ gs else g ∷ push_future f gs

pub suspend : ℕ → Taskpool → Taskpool
suspend t p = record p {
  tasks = update p.tasks t (set_pool true);
  suspended_tasks = insert_set t p.suspended_tasks;
}

-- `Taskpool::submit`
pub submit : ℕ → Taskpool → Taskpool
submit t p =
    if (p.tasks t).is_runnable
    then record p { pending_tasks = p.pending_tasks ++ (t ∷ []) }
    else suspend t p

-- `Taskpool::after`
pub after : ℕ → ℕ → ℕ → Taskpool → Taskpool
after now t delay p = record p {
  future_tasks = push_future (record { task = t; due = now + delay }) p.future_tasks;
}

pub remove : ℕ → Taskpool → Taskpool
remove t p = record p {
  pending_tasks = erase_all t p.pending_tasks;
  suspended_tasks = erase_all t p.suspended_tasks;
}

-- A sleeping task goes to the front of the queue.
pub make_runnable : ℕ → Taskpool → Taskpool
make_runnable t p =
    if contains t p.suspended_tasks
    then record p {
      suspended_tasks = erase_all t p.suspended_tasks;
      pending_tasks = t ∷ p.pending_tasks;
    }
    else p

-- `Task::cancel`
pub cancel : ℕ → Taskpool → Taskpool
cancel t p =
    let marked = record p { tasks = update p.tasks t mark_cancelled } in
    if (p.tasks t).has_pool then remove t marked else marked

-- `Task::submit(pool)`: whether it is in the pool already is decided by the pointer.
pub task_submit : ℕ → Taskpool → Taskpool
task_submit t p =
    let taken = record p { tasks = update p.tasks t (set_pool true) } in
    if (p.tasks t).has_pool then p else submit t taken

-- `Task::submit(pool, delay)`
pub task_submit_after : ℕ → ℕ → ℕ → Taskpool → Taskpool
task_submit_after now t delay p =
    let taken = record p { tasks = update p.tasks t (set_pool true) } in
    if (p.tasks t).has_pool then p else after now t delay taken

-- `Task::makeRunnable`
pub task_make_runnable : ℕ → Taskpool → Taskpool
task_make_runnable t p = if (p.tasks t).has_pool then make_runnable t p else p

pub set_group_id : ℕ → ℕ → Taskpool → Taskpool
set_group_id t g p = record p { tasks = update p.tasks t (λ k. record k { group_id = g }) }

-- Tasks of a group, and the others, in order.
pub of_group : (ℕ → Task) → ℕ → List ℕ → List ℕ
of_group ts g [] = []
of_group ts g (t ∷ us) = if (ts t).group_id == g then t ∷ of_group ts g us else of_group ts g us

pub not_of_group : (ℕ → Task) → ℕ → List ℕ → List ℕ
not_of_group ts g [] = []
not_of_group ts g (t ∷ us) =
    if (ts t).group_id == g then not_of_group ts g us else t ∷ not_of_group ts g us

pub cancel_each : List ℕ → Taskpool → Taskpool
cancel_each [] p = p
cancel_each (t ∷ us) p = cancel_each us (cancel t p)

-- `cancelTaskGroup`: the tasks are taken out under the lock, and cancelled after it.
pub cancel_task_group : ℕ → Taskpool → Taskpool
cancel_task_group g p =
    cancel_each (of_group p.tasks g p.pending_tasks ++ of_group p.tasks g p.suspended_tasks)
      (record p {
        pending_tasks = not_of_group p.tasks g p.pending_tasks;
        suspended_tasks = not_of_group p.tasks g p.suspended_tasks;
      })

-- `lockless_getNextWakeTime`
pub next_wake_time : ℕ → ℕ → List FutureTask → ℕ
next_wake_time current_time deflt [] = current_time + deflt
next_wake_time current_time deflt (f ∷ fs) = f.due

-- The loop of `lockless_getNextFutureWork`: the task to run, and the future tasks that are left.
unfoldable pub next_due : (ℕ → Task) → ℕ → List FutureTask → Option ℕ × List FutureTask
next_due ts now [] = (none, [])
next_due ts now (f ∷ fs) =
    let later = next_due ts now fs in
    if leb f.due now
    then (if (ts f.task).is_cancelled then later else (some f.task, fs))
    else (none, f ∷ fs)

abbrev take_out : Option ℕ → Taskpool → Taskpool
take_out none p = p
take_out (some t) p = record p { tasks = update p.tasks t (set_pool false) }

pub next_future_work : ℕ → Taskpool → Option ℕ × Taskpool
next_future_work now p =
    let (found, left) = next_due p.tasks now p.future_tasks in
    (found, take_out found (record p { future_tasks = left }))

next_pending : List ℕ → Taskpool → Option ℕ × Taskpool
next_pending [] p = (none, p)
next_pending (t ∷ us) p =
    (some t, record p { pending_tasks = us; tasks = update p.tasks t (set_pool false) })

or_pending : Option ℕ → Taskpool → Option ℕ × Taskpool
or_pending (some t) p = (some t, p)
or_pending none p = next_pending p.pending_tasks p

-- The choice of work in `run`: a future task that is due, or else the front of the queue.
pub next_task : ℕ → Taskpool → Option ℕ × Taskpool
next_task now p = let (found, p') = next_future_work now p in or_pending found p'

set_running : ℕ → Option ℕ → Taskpool → Taskpool
set_running thread_idx o p = record p {
  running_tasks = λ k. if k == thread_idx then o else p.running_tasks k;
}

-- `running_tasks[thread_idx] = mytask`
pub begin : ℕ → ℕ → Taskpool → Taskpool
begin thread_idx t p = set_running thread_idx (some t) p

-- The status of a task: a cancelled one does not run. `ran` is what `runThunk` returned, with
-- `errored` for an exception.
abbrev pub status_of : ℕ → ExitState → Taskpool → ExitState
status_of t ran p = if (p.tasks t).is_cancelled then cancelled else ran

-- What `run` does with the task afterwards.
pub settle : ExitState → ℕ → Taskpool → Taskpool
settle defer t p = suspend t p
settle complete t p = p
settle cancelled t p = p
settle errored t p = p

pub finish : ℕ → ℕ → ExitState → Taskpool → Taskpool
finish thread_idx t status p = settle status t (set_running thread_idx none p)

-- `Lock lock(mutex)` around a change of the pool: a thread that holds the mutex already waits for it
-- for ever (`none`).
locked : Bool → (Taskpool → Taskpool) → Taskpool → Option Taskpool
locked true change p = none
locked false change p = some (change p)

-- `Task::cancel` in a thread that holds the pool's mutex or does not; `Taskpool::remove` locks it.
cancel_holding : Bool → ℕ → Taskpool → Option Taskpool
cancel_holding holds t p =
    let marked = record p { tasks = update p.tasks t mark_cancelled } in
    if (p.tasks t).has_pool then locked holds (remove t) marked else some marked

-- `stop` holds the mutex where it calls `cancel`.
cancel_locked : ℕ → Taskpool → Option Taskpool
cancel_locked t p = cancel_holding true t p

cancel_all_locked : List ℕ → Taskpool → Option Taskpool
cancel_all_locked [] p = some p
cancel_all_locked (t ∷ us) p = elim (cancel_locked t p) [
  | none ↦ none
  | some p' ↦ cancel_all_locked us p'
]

-- The tasks of the first `n` threads.
pub running_list : ℕ → Taskpool → List ℕ
running_list zero p = []
running_list (suc n) p = elim (p.running_tasks n) [
  | none ↦ running_list n p
  | some t ↦ running_list n p ++ (t ∷ [])
]

stop_running : ℕ → Option Taskpool → Option Taskpool
stop_running threads none = none
stop_running threads (some p) =
    cancel_all_locked (running_list threads p) (record p { pending_tasks = [] })

-- `stop`, of a pool that `threads` threads run.
pub stop : ℕ → Taskpool → Option Taskpool
stop threads p = stop_running threads (cancel_all_locked p.pending_tasks (record p { quit = true }))
