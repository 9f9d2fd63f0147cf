-- ===== src/Tasks/WorkerTask.antt =====
-- mt-core/tasks-base/src/cpp/TWorkerTask.hpp. The waitable of a posted workload is a number, counted
-- up. `process` of the derived class is a parameter over a state of its own; what is posted while it
-- runs, by itself or by other threads, is part of its answer. The wakes are collected in order.
pub mod Order
use oef_mt_core.Base.{
  ℕ, zero, suc, ◌+◌, Bool, true, false, not, List, [], ◌∷◌, ◌++◌, Option, none, some, is_some,
  is_empty,
}

pub data WorkloadProcessed : Type 0 where
  complete not_complete not_started : WorkloadProcessed

pub data WorkloadState : Type 0 where
  start resume : WorkloadState

pub record Worker (W : Type 0) : Type 0 where
  pub current : Option (W × ℕ)
  pub last_result : WorkloadProcessed
  pub queue : List (W × ℕ)
  -- how many waitables were made
  pub made : ℕ

pub data Exit : Type 0 where
  defer : Exit
  -- the model's rounds ran out; it is not a behaviour of the code
  out_of_rounds : Exit

pub record Run (W P : Type 0) : Type 0 where
  pub worker : Worker W
  pub world : P
  pub woken : List ℕ
  pub exit : Exit

module _ {W : Type 0} where
  -- `post` also makes the task runnable, which is the pool's.
  abbrev pub post : W → Worker W → Worker W
  post workload t = record t { queue = t.queue ++ ((workload, t.made) ∷ []); made = suc t.made }

  abbrev pub post_all : List W → Worker W → Worker W
  post_all [] t = t
  post_all (workload ∷ more) t = post_all more (post workload t)

  abbrev pub is_runnable : Worker W → Bool
  is_runnable t = not (is_empty t.queue)

  abbrev pub has_current_task : Worker W → Bool
  has_current_task t = is_some t.current

  -- The workload of a round and how it is to be treated; the test of the last result has no effect,
  -- since the state is set again behind it.
  abbrev pub next_workload :
      Option (W × ℕ) → List (W × ℕ) → Option ((W × ℕ) × WorkloadState × List (W × ℕ))
  next_workload (some entry) queue = some (entry, resume, queue)
  next_workload none [] = none
  next_workload none (entry ∷ rest) = some (entry, start, rest)

  module _ {P : Type 0} (process : P → W → WorkloadState → P × WorkloadProcessed × List W) where
    abbrev pub woke : ℕ → Run W P → Run W P
    woke waitable r = record r { woken = waitable ∷ r.woken }

    -- The switch over the result; `again` is the next round.
    unfoldable pub settle :
        (P → Worker W → Run W P) → P → Worker W → ℕ → WorkloadProcessed → Run W P
    settle again p t waitable complete = woke waitable (again p (record t { current = none }))
    settle again p t waitable not_complete = record {
      worker = t;
      world = p;
      woken = [];
      exit = defer;
    }
    settle again p t waitable not_started = record {
      worker = t;
      world = p;
      woken = [];
      exit = defer;
    }

    unfoldable pub round :
        (P → Worker W → Run W P)
        → P
        → Worker W
        → Option ((W × ℕ) × WorkloadState × List (W × ℕ))
        → Run W P
    round again p t none = record { worker = t; world = p; woken = []; exit = defer }
    round again p t (some (entry, state, queue)) =
        let (p', result, posted) = process p entry.0 state in
        let t' : Worker W = record t {
          current = some entry;
          last_result = result;
          queue = queue;
        } in
        settle again p' (post_all posted t') entry.1 result

    -- `run`, with the number of rounds that are left.
    unfoldable pub run : ℕ → P → Worker W → Run W P
    run zero p t = record { worker = t; world = p; woken = []; exit = out_of_rounds }
    run (suc fuel) p t = round (run fuel) p t (next_workload t.current t.queue)
