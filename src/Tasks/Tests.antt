-- ===== src/Tasks/Tests.antt =====
-- Concrete runs of a worker: a workload is a number, and the world counts the calls of `process`.
use oef_mt_core.Base.{ℕ, zero, suc, ◌≡◌, refl, List, [], ◌∷◌, some, arith}
use oef_mt_core.Tasks.WorkerTask.{
  WorkloadProcessed, complete, not_complete, not_started, WorkloadState, resume, Worker, defer,
  settle, round, run,
}
use oef_mt_core.Tasks.WorkerTask.Order.{Orders, run-Orders, run-defer}

-- Workload 0 is never done.
abbrev outcome : ℕ → WorkloadProcessed
outcome zero = not_started
outcome (suc n) = complete

abbrev count : ℕ → ℕ → WorkloadState → ℕ × WorkloadProcessed × List ℕ
count calls workload state = (suc calls, outcome workload, [])

abbrev busy : Worker ℕ
busy = record {
  current = some (4, 0);
  last_result = not_complete;
  queue = (5, 1) ∷ (0, 2) ∷ (6, 3) ∷ [];
  made = 4;
}

-- The first two are done and woken; the third could not be started and stays at hand.
busy_woken : (run count 5 0 busy).woken ≡ 0 ∷ 1 ∷ []
unfolding run round settle
busy_woken = refl

-- Its next round resumes it although it has not started.
abbrev note_state :
    List WorkloadState → ℕ → WorkloadState → List WorkloadState × WorkloadProcessed × List ℕ
note_state seen workload state = (state ∷ seen, outcome workload, [])

not_started_resumes : (run note_state 9 [] (run note_state 9 [] busy).worker).world ≡ resume ∷ []
unfolding run round settle
not_started_resumes = refl

run-Orders_example : Orders busy (run count 5 0 busy)
run-Orders_example = run-Orders count 5 0 busy

run-defer_example : (run count 5 0 busy).exit ≡ defer
run-defer_example = run-defer count (λ p workload state. refl) 5 0 busy (omega arith)
