-- ===== src/Threading/Notification/Once.antt =====
-- A notification is resolved once, and its callbacks run once, whichever comes first.
use oef_mt_core.Base.{ℕ, ◌≡◌, ◌≢◌, refl, false, List, [], ◌∷◌, ◌++◌, arith, append-nil}
use oef_mt_core.Threading.Notification.{
  Notification, Callbacks, State, waiting, success, failed, timedout, no_callbacks, create,
  is_waiting, called, handler, dispatch_callbacks, update_state, attach,
}

-- A later outcome changes nothing and calls nothing.
pub update_state-settled :
    (s s' : State) (n : Notification)
    → s ≢ waiting
    → update_state s' (update_state s n).0 ≡ ((update_state s n).0, [])
unfolding update_state dispatch_callbacks is_waiting
update_state-settled s s' n ne = ground arith

-- Outcomes that come one after the other, with all that they call.
pub outcomes : List State → Notification → Notification × List ℕ
outcomes [] n = (n, [])
outcomes (s ∷ ss) n =
    let (n', ran) = update_state s n in let (n'', more) = outcomes ss n' in (n'', ran ++ more)

-- No outcome on a notification that is settled and has no callbacks left.
outcomes-settled :
    (ss : List State) (n : Notification) → is_waiting n.state ≡ false → outcomes ss n ≡ (n, [])
unfolding outcomes update_state
outcomes-settled [] n h = refl
outcomes-settled (s ∷ ss) n h = simp (h, outcomes-settled ss n h)

outcomes-done :
    (ss : List State) (s : State)
    → is_waiting s ≡ false
    → outcomes ss (record { state = s; callbacks = no_callbacks })
      ≡ (record { state = s; callbacks = no_callbacks }, [])
outcomes-done ss s h = outcomes-settled ss (record { state = s; callbacks = no_callbacks }) h

-- The callbacks of a fresh notification run exactly once, those of the first outcome: the handler
-- for success or failure, then the one for completion. It does not matter whether the outcome comes
-- before or after the callbacks are attached, nor what outcomes follow.
pub callbacks_run_once :
    (s : State) (later : List State) (c : Callbacks)
    → s ≢ waiting
    → let settled = record create { state = s } in
      let ran = called (handler s c) ++ called c.on_complete in
      (outcomes (s ∷ later) (attach c create).0 ≡ (settled, ran))
      × ((attach c (outcomes (s ∷ later) create).0) ≡ (settled, ran))
      × ((outcomes (s ∷ later) create).1 ≡ [])
unfolding outcomes update_state attach dispatch_callbacks create is_waiting
callbacks_run_once waiting later c ne = absurd (ne refl)
callbacks_run_once success later c ne =
    let quiet = outcomes-done later success refl in
    (rw quiet (rw append-nil refl), rw quiet refl, rw quiet refl)
callbacks_run_once failed later c ne =
    let quiet = outcomes-done later failed refl in
    (rw quiet (rw append-nil refl), rw quiet refl, rw quiet refl)
callbacks_run_once timedout later c ne =
    let quiet = outcomes-done later timedout refl in
    (rw quiet (rw append-nil refl), rw quiet refl, rw quiet refl)
