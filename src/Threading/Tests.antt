-- ===== src/Threading/Tests.antt =====
-- Concrete runs of the task pool and the notifications.
use oef_mt_core.Base.{
  ℕ, zero, suc, ◌≡◌, ◌≢◌, refl, true, false, List, [], ◌∷◌, none, some, arith, if◌then◌else◌, ◌==◌,
  ltb, get_elem?,
}
use oef_mt_core.Threading.Taskpool.{
  ExitState, complete, defer, finish, Taskpool, Task, FutureTask, next_due, cancel_task_group, stop,
  task_submit, cancel,
}
use oef_mt_core.Threading.Taskpool.Future.{IsByDue, Answer, next_due-Answer}
use oef_mt_core.Threading.StateMachineTask.{exits, run}
use oef_mt_core.Threading.StateMachineTask.Laws.{Calls, run-Calls}
use oef_mt_core.Threading.Taskpool.Counting.{count, count_future}
use oef_mt_core.Threading.Taskpool.Once.{IsOnce, Step, Run, Run-IsOnce, resubmitted-places}
use oef_mt_core.Threading.Taskpool.Groups.{IsWithout, runnable_or_asleep, cancel_task_group_lem}
use oef_mt_core.Threading.Taskpool.Stop.{Stopped, stop-Stopped}
use oef_mt_core.Threading.Notification.{
  Notification, Callbacks, Waitable, waiting, success, failed, create, attach, called, handler,
  wake,
}
use oef_mt_core.Threading.Notification.Once.{outcomes, callbacks_run_once}
use oef_mt_core.Threading.Notification.Waiting.{is_among, settled, wake_cancel_lem}
use oef_mt_core.Threading.Notification

-- Odd tasks are in group 1 and cancelled; all but task 0 have the pointer to the pool.
abbrev task_table : ℕ → Task
task_table zero = record {
  is_cancelled = false;
  group_id = 0;
  is_runnable = true;
  has_pool = false;
}
task_table (suc zero) = record {
  is_cancelled = true;
  group_id = 1;
  is_runnable = true;
  has_pool = true;
}
task_table t = record { is_cancelled = false; group_id = 0; is_runnable = true; has_pool = true }

abbrev idle_pool : Taskpool
idle_pool = record {
  quit = false;
  pending_tasks = [];
  running_tasks = λ k. none;
  suspended_tasks = [];
  future_tasks = [];
  tasks = task_table;
}

idle_pool-IsOnce : IsOnce idle_pool
unfolding count count_future
idle_pool-IsOnce t = omega arith

abbrev three_steps : Run idle_pool (cancel_task_group 0 (cancel 0 (task_submit 0 idle_pool)))
three_steps =
    Run.next
      (Run.next (Run.next Run.here (Step.submits 0 idle_pool))
        (Step.cancels 0 (task_submit 0 idle_pool)))
      (Step.cancels_group 0 (cancel 0 (task_submit 0 idle_pool)))

Run-IsOnce_example : IsOnce (cancel_task_group 0 (cancel 0 (task_submit 0 idle_pool)))
Run-IsOnce_example = Run-IsOnce idle_pool-IsOnce three_steps

abbrev future_queue : List FutureTask
future_queue =
    record { task = 1; due = 5 } ∷ record { task = 2; due = 7 } ∷ record { task = 3; due = 90 } ∷ []

future_queue-IsByDue : IsByDue future_queue
future_queue-IsByDue = ((omega arith, (omega arith, tt)), ((omega arith, tt), (tt, tt)))

-- The first task is due but cancelled.
second_is_next : (next_due task_table 10 future_queue).0 ≡ some 2
unfolding next_due
second_is_next = refl

next_due-Answer_example : Answer task_table 10 future_queue (next_due task_table 10 future_queue)
next_due-Answer_example = next_due-Answer task_table 10 future_queue future_queue-IsByDue

abbrev busy_pool : Taskpool
busy_pool = record idle_pool { pending_tasks = 2 ∷ 1 ∷ []; suspended_tasks = 3 ∷ [] }

cancel_task_group_lem_example :
    let q = cancel_task_group 1 busy_pool in
    IsWithout 1 task_table (2 ∷ 1 ∷ []) q.pending_tasks
    × IsWithout 1 task_table (3 ∷ []) q.suspended_tasks
    × ((q.tasks 1).is_cancelled ≡ (
        if (task_table 1).group_id == 1
        then (if ltb 0 (runnable_or_asleep 1 busy_pool) then true else (task_table 1).is_cancelled)
        else (task_table 1).is_cancelled))
    × (q.future_tasks ≡ [])
cancel_task_group_lem_example = cancel_task_group_lem 1 1 busy_pool

stop-Stopped_example : Stopped 2 busy_pool (stop 2 busy_pool)
stop-Stopped_example = stop-Stopped 2 busy_pool

-- Task 0 runs on thread 1.
abbrev working_pool : Taskpool
working_pool = record idle_pool { running_tasks = λ k. if k == 1 then some 0 else none }

working_pool-IsOnce : IsOnce working_pool
unfolding count count_future
working_pool-IsOnce t = omega arith

resubmitted-places_example :
    let q = finish 1 0 defer (task_submit 0 working_pool) in
    (count 0 q.pending_tasks ≡ 1) × (count 0 q.suspended_tasks ≡ 1)
resubmitted-places_example = resubmitted-places 1 0 working_pool working_pool-IsOnce refl refl

abbrev callbacks : Callbacks
callbacks = record { on_success = some 1; on_failure = some 2; on_complete = some 3 }

failed_ne_waiting : failed ≢ waiting
failed_ne_waiting = grind arith

callbacks_run_once_example :
    let settled_once = record create { state = failed } in
    (outcomes (failed ∷ success ∷ []) (attach callbacks create).0 ≡ (settled_once, 2 ∷ 3 ∷ []))
    × (attach callbacks (outcomes (failed ∷ success ∷ []) create).0 ≡ (settled_once, 2 ∷ 3 ∷ []))
    × ((outcomes (failed ∷ success ∷ []) create).1 ≡ [])
callbacks_run_once_example = callbacks_run_once failed (success ∷ []) callbacks failed_ne_waiting

abbrev attached_one : Notification
attached_one = record { state = waiting; callbacks = callbacks }

abbrev two_waiters : Waitable
two_waiters = record {
  made = attached_one ∷ create ∷ [];
  waiting_list = 0 ∷ [];
  is_cancelled = false;
}

wake_cancel_lem_example :
    let waited = is_among 0 two_waiters.waiting_list in
    let before = get_elem? two_waiters.made 0 in
    (get_elem? (wake two_waiters).0.made 0 ≡ (if waited then settled success before else before))
    × (get_elem? (Notification.cancel two_waiters).0.made 0
        ≡ (if waited then settled failed before else before))
    × ((wake two_waiters).0.waiting_list ≡ [])
    × ((Notification.cancel two_waiters).0.waiting_list ≡ [])
    × ((Notification.cancel two_waiters).0.is_cancelled ≡ true)
wake_cancel_lem_example = wake_cancel_lem two_waiters 0

-- State 0 goes on with state 1, which is the last.
abbrev two_states : ℕ → ℕ → ℕ × ℕ × ExitState
two_states zero s = (suc s, 1, complete)
two_states (suc k) s = (suc s, 0, complete)

abbrev two_calls :
    Calls two_states
      (record { state = some 0; own = 7 })
      2
      (exits complete (record { state = none; own = 9 }))
two_calls = Calls.goes_on refl (Calls.ends 1 8 9 refl)

run-Calls_example :
    run two_states 5 (record { state = some 0; own = 7 })
    ≡ exits complete (record { state = none; own = 9 })
run-Calls_example =
    run-Calls two_states 5 2 (record { state = some 0; own = 7 })
      (exits complete (record { state = none; own = 9 })) two_calls (omega arith)
