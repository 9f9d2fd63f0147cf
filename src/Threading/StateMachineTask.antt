-- ===== src/Threading/StateMachineTask.antt =====
-- threading/src/cpp/lib/StateMachineTask.hpp. The state functions of the subclass are a parameter:
-- `entry k s` is what entry point `k` does to the subclass's own state, with the pair it returns.
-- Entry point 0 is the first to run, and 0 in the answer stands for no further state.
pub mod Laws
use oef_mt_core.Base.{ℕ, zero, suc, Option, none, some, ◌==◌, if◌then◌else◌}
use oef_mt_core.Threading.Taskpool.{ExitState, complete, defer, cancelled, errored}

-- The task: which state is to run next (`none` for the null pointer), and the subclass.
pub record Machine (S : Type 0) : Type 0 where
  pub state : Option ℕ
  pub own : S

pub data Result (S : Type 0) : Type 0 where
  exits : ExitState → Machine S → Result S
  -- A call through the null pointer.
  faults : Machine S → Result S
  -- The model's rounds ran out.
  out_of_rounds : Result S

module _ {S : Type 0} (entry : ℕ → S → S × ℕ × ExitState) where
  -- `state = result.first ? entrypoints[result.first] : 0`
  abbrev pub next_state : ℕ → Option ℕ
  next_state k = if k == 0 then none else some k

  after_call : (Machine S → Result S) → S → ℕ → ExitState → Result S
  after_call again s k complete =
      let more = again (record { state = next_state k; own = s }) in
      if k == 0 then exits complete (record { state = none; own = s }) else more
  after_call again s k defer = exits defer (record { state = next_state k; own = s })
  after_call again s k cancelled = exits cancelled (record { state = next_state k; own = s })
  after_call again s k errored = exits errored (record { state = next_state k; own = s })

  call_state : (Machine S → Result S) → Option ℕ → Machine S → Result S
  call_state again none m = faults m
  call_state again (some k) m = let (s, k', e) = entry k m.own in after_call again s k' e

  -- `run`, with the number of rounds that are left.
  pub run : ℕ → Machine S → Result S
  run zero m = out_of_rounds
  run (suc fuel) m = call_state (run fuel) m.state m
