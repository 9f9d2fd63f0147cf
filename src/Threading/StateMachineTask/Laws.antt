-- ===== src/Threading/StateMachineTask/Laws.antt =====
-- When the loop of a state machine ends, and with what.
use oef_mt_core.Base.{ℕ, zero, suc, ◌≤◌, ◌≡◌, ◌≢◌, refl, ap, ◌∙◌, false, none, some, arith, ◌==◌}
use oef_mt_core.Threading.Taskpool.{ExitState, complete, defer, cancelled, errored}
use oef_mt_core.Threading.StateMachineTask.{
  Machine, Result, exits, faults, next_state, after_call, call_state, run,
}

module _ {S : Type 0} (entry : ℕ → S → S × ℕ × ExitState) where
  -- The state functions that a run calls, each to go on with the next, up to one that ends it.
  pub data Calls : Machine S → ℕ → Result S → Type 0 where
    -- Nothing to call.
    null :
        (own : S)
        → Calls (record { state = none; own = own }) 1 (faults (record { state = none; own = own }))
    -- The last state is complete.
    ends :
        (k : ℕ) (own own' : S)
        → entry k own ≡ (own', 0, complete)
        → Calls
            (record { state = some k; own = own })
            1
            (exits complete (record { state = none; own = own' }))
    -- A state defers, is cancelled or fails.
    leaves :
        (k k' : ℕ) (own own' : S) (e : ExitState)
        → e ≢ complete
        → entry k own ≡ (own', k', e)
        → Calls
            (record { state = some k; own = own })
            1
            (exits e (record { state = next_state entry k'; own = own' }))
    -- A state is complete and names the next.
    goes_on :
        {n k k' : ℕ} {own own' : S} {r : Result S}
        → entry k own ≡ (own', suc k', complete)
        → Calls (record { state = some (suc k'); own = own' }) n r
        → Calls (record { state = some k; own = own }) (suc n) r

  stays_away :
      (again : Machine S → Result S) (s : S) (k : ℕ) (e : ExitState)
      → e ≢ complete
      → after_call entry again s k e ≡ exits e (record { state = next_state entry k; own = s })
  unfolding after_call
  stays_away again s k complete ne = absurd (ne refl)
  stays_away again s k defer ne = refl
  stays_away again s k cancelled ne = refl
  stays_away again s k errored ne = refl

  suc_ne : (k : ℕ) → (suc k == 0) ≡ false
  suc_ne k = ground arith

  goes :
      (again : Machine S → Result S) (s : S) (k : ℕ)
      → after_call entry again s (suc k) complete ≡ again (record { state = some (suc k); own = s })
  unfolding after_call
  goes again s k = rw (suc_ne k) refl

  -- One round that calls a state function.
  called : (again : Machine S → Result S) → S × ℕ × ExitState → Result S
  called again t = after_call entry again t.0 t.1 t.2

  -- A chain of calls that ends is run as such: as many rounds as it has calls are enough, more change
  -- nothing, and the run gives the result of the chain.
  pub run-Calls :
      (fuel n : ℕ) (m : Machine S) (r : Result S) → Calls m n r → n ≤ fuel → run entry fuel m ≡ r
  unfolding run call_state called after_call
  run-Calls zero n m r (Calls.null own) h = absurd (omega arith)
  run-Calls zero n m r (Calls.ends k own own' e) h = absurd (omega arith)
  run-Calls zero n m r (Calls.leaves k k' own own' e ne c) h = absurd (omega arith)
  run-Calls zero n m r (Calls.goes_on c more) h = absurd (omega arith)
  run-Calls (suc fuel) n m r (Calls.null own) h = refl
  run-Calls (suc fuel) n m r (Calls.ends k own own' e) h = ap (called (run entry fuel)) e
  run-Calls (suc fuel) n m r (Calls.leaves k k' own own' e ne c) h =
      ap (called (run entry fuel)) c ∙ stays_away (run entry fuel) own' k' e ne
  run-Calls (suc fuel) n m r (Calls.goes_on {n = n'} {k' = k'} {own' = own'} c more) h =
      ap (called (run entry fuel)) c
      ∙ goes (run entry fuel) own' k'
      ∙ run-Calls fuel n' (record { state = some (suc k'); own = own' }) r more (omega arith)
