-- ===== src/Threading/Taskpool/Stop.antt =====
-- Stopping the pool, and the mutex that it holds meanwhile.
use oef_mt_core.Base.{
  ℕ, zero, suc, ◌≡◌, refl, ap, sym, subst, ◌∙◌, Bool, true, false, List, [], ◌∷◌, ◌++◌, Option,
  none, some, arith, ltb, if◌then◌else◌, inl, inr, Bool-cases,
}
use oef_mt_core.Threading.Taskpool.{
  Taskpool, Task, update, mark_cancelled, cancel, locked, cancel_holding, cancel_locked,
  cancel_all_locked, running_list, stop_running, stop,
}
use oef_mt_core.Threading.Taskpool.Counting.{count, count-append}

-- The two versions of `cancel` are one where the mutex is free.
cancel_holding-free : (t : ℕ) (p : Taskpool) → cancel_holding false t p ≡ some (cancel t p)
unfolding cancel_holding cancel locked
cancel_holding-free t p = ground arith

-- One of the tasks has its pointer to the pool set.
unfoldable pub any_held : (ℕ → Task) → List ℕ → Bool
any_held tasks [] = false
any_held tasks (t ∷ ts) = if (tasks t).has_pool then true else any_held tasks ts

any_held-append :
    (ts : ℕ → Task) (xs ys : List ℕ)
    → any_held ts (xs ++ ys) ≡ (if any_held ts xs then true else any_held ts ys)
unfolding any_held
any_held-append ts [] ys = refl
any_held-append ts (x ∷ xs) ys = ground (arith, any_held-append ts xs ys)

any_held-update :
    (ts : ℕ → Task) (t : ℕ) (us : List ℕ)
    → any_held (update ts t mark_cancelled) us ≡ any_held ts us
unfolding any_held update
any_held-update ts t [] = refl
any_held-update ts t (u ∷ us) = ground (arith, any_held-update ts t us)

-- What a list of cancels under the mutex comes to: nothing if a pointer was set, else marks.
unfoldable pub AllCancelled : List ℕ → Taskpool → Option Taskpool → Type 0
AllCancelled us p none = any_held p.tasks us ≡ true
AllCancelled us p (some q) =
    (any_held p.tasks us ≡ false)
    × (q.pending_tasks ≡ p.pending_tasks)
    × (q.running_tasks ≡ p.running_tasks)
    × (q.quit ≡ p.quit)
    × ((ts : List ℕ) → any_held q.tasks ts ≡ any_held p.tasks ts)
    × ((u : ℕ)
        → (q.tasks u).is_cancelled
          ≡ (if ltb 0 (count u us) then true else (p.tasks u).is_cancelled))

mark_first :
    (t u : ℕ) (us : List ℕ) (p : Taskpool) (b : Bool)
    → b ≡ (if ltb 0 (count u us) then true else (update p.tasks t mark_cancelled u).is_cancelled)
    → b ≡ (if ltb 0 (count u (t ∷ us)) then true else (p.tasks u).is_cancelled)
unfolding count update
mark_first t u us p b h = ground (arith, h)

AllCancelled-cons :
    (t : ℕ) (us : List ℕ) (p : Taskpool) (o : Option Taskpool)
    → (p.tasks t).has_pool ≡ false
    → AllCancelled us (record p { tasks = update p.tasks t mark_cancelled }) o
    → AllCancelled (t ∷ us) p o
unfolding AllCancelled any_held
AllCancelled-cons t us p none free h = rw free (sym (any_held-update p.tasks t us) ∙ h)
AllCancelled-cons t us p (some q) free (none_held, pending, running, quits, same, marks) = (
  rw free (sym (any_held-update p.tasks t us) ∙ none_held),
  pending,
  running,
  quits,
  λ ts. same ts ∙ any_held-update p.tasks t ts,
  λ u. mark_first t u us p (q.tasks u).is_cancelled (marks u),
)

cancel_all_locked-held :
    (t : ℕ) (us : List ℕ) (p : Taskpool)
    → (p.tasks t).has_pool ≡ true
    → cancel_all_locked (t ∷ us) p ≡ none
unfolding cancel_all_locked cancel_locked cancel_holding locked
cancel_all_locked-held t us p held = ground (arith, held)

cancel_all_locked-free :
    (t : ℕ) (us : List ℕ) (p : Taskpool)
    → (p.tasks t).has_pool ≡ false
    → cancel_all_locked (t ∷ us) p
      ≡ cancel_all_locked us (record p { tasks = update p.tasks t mark_cancelled })
unfolding cancel_all_locked cancel_locked cancel_holding
cancel_all_locked-free t us p free = ground (arith, free)

held_first :
    (ts : ℕ → Task) (t : ℕ) (us : List ℕ) → (ts t).has_pool ≡ true → any_held ts (t ∷ us) ≡ true
unfolding any_held
held_first ts t us h = ground (arith, h)

cancel_all_locked_lem : (us : List ℕ) (p : Taskpool) → AllCancelled us p (cancel_all_locked us p)
unfolding cancel_all_locked AllCancelled any_held count
cancel_all_locked_lem [] p = (refl, refl, refl, refl, (λ ts. refl), λ u. refl)
cancel_all_locked_lem (t ∷ us) p =
    let marked = record p { tasks = update p.tasks t mark_cancelled } in
    elim (Bool-cases (p.tasks t).has_pool) [
      | inl held ↦
          subst (λ o. AllCancelled (t ∷ us) p o) (sym (cancel_all_locked-held t us p held))
            (held_first p.tasks t us held)
      | inr free ↦
          subst (λ o. AllCancelled (t ∷ us) p o) (sym (cancel_all_locked-free t us p free))
            (AllCancelled-cons t us p (cancel_all_locked us marked) free
              (cancel_all_locked_lem us marked))
    ]

running_list-same :
    (n : ℕ) (p q : Taskpool)
    → q.running_tasks ≡ p.running_tasks
    → running_list n q ≡ running_list n p
unfolding running_list
running_list-same zero p q e = refl
running_list-same (suc n) p q e = ground (arith, ap (λ r. r n) e, running_list-same n p q e)

-- The pending tasks, and those that the threads run.
abbrev pub at_hand : ℕ → Taskpool → List ℕ
at_hand threads p = p.pending_tasks ++ running_list threads p

unfoldable pub Stopped : ℕ → Taskpool → Option Taskpool → Type 0
Stopped threads p none = any_held p.tasks (at_hand threads p) ≡ true
Stopped threads p (some q) =
    (any_held p.tasks (at_hand threads p) ≡ false)
    × (q.quit ≡ true)
    × (q.pending_tasks ≡ [])
    × ((u : ℕ)
        → (q.tasks u).is_cancelled
          ≡ (if ltb 0 (count u (at_hand threads p)) then true else (p.tasks u).is_cancelled))

marked_both :
    (u : ℕ) (xs ys : List ℕ) (a b c : Bool)
    → b ≡ (if ltb 0 (count u xs) then true else a)
    → c ≡ (if ltb 0 (count u ys) then true else b)
    → c ≡ (if ltb 0 (count u (xs ++ ys)) then true else a)
marked_both u xs ys a b c first second = ground (arith, first, second, count-append u xs ys)

stop_running-none :
    (threads : ℕ) (p q : Taskpool)
    → any_held p.tasks p.pending_tasks ≡ false
    → ((ts : List ℕ) → any_held q.tasks ts ≡ any_held p.tasks ts)
    → any_held q.tasks (running_list threads p) ≡ true
    → any_held p.tasks (at_hand threads p) ≡ true
stop_running-none threads p q none_pending same held =
    any_held-append p.tasks p.pending_tasks (running_list threads p)
    ∙ ap (λ b. if b then true else any_held p.tasks (running_list threads p)) none_pending
    ∙ sym (same (running_list threads p))
    ∙ held

stop_running_lem :
    (threads : ℕ) (p q : Taskpool) (o : Option Taskpool)
    → AllCancelled p.pending_tasks (record p { quit = true }) (some q)
    → AllCancelled (running_list threads p) (record q { pending_tasks = [] }) o
    → Stopped threads p o
unfolding AllCancelled Stopped
stop_running_lem threads p q none (free, pending, running, quits, same, marks) held =
    stop_running-none threads p q free same held
stop_running_lem threads p q (some r) (free, pending, running, quits, same, marks)
      (free', pending', running', quits', same', marks') =
    (
      any_held-append p.tasks p.pending_tasks (running_list threads p)
          ∙ ap (λ b. if b then true else any_held p.tasks (running_list threads p)) free
          ∙ sym (same (running_list threads p))
          ∙ free',
      quits' ∙ quits,
      pending',
      λ u.
          marked_both u p.pending_tasks (running_list threads p) (p.tasks u).is_cancelled
            (q.tasks u).is_cancelled (r.tasks u).is_cancelled (marks u) (marks' u),
    )

after_pending :
    (threads : ℕ) (p : Taskpool) (o : Option Taskpool)
    → AllCancelled p.pending_tasks (record p { quit = true }) o
    → Stopped threads p (stop_running threads o)
unfolding AllCancelled Stopped stop_running
after_pending threads p none held =
    any_held-append p.tasks p.pending_tasks (running_list threads p)
    ∙ ap (λ b. if b then true else any_held p.tasks (running_list threads p)) held
after_pending threads p (some q) done =
    let same = running_list-same threads p q done.2 in
    stop_running_lem threads p q
      (cancel_all_locked (running_list threads q) (record q { pending_tasks = [] })) done
      (subst
        (λ ts.
          AllCancelled ts (record q { pending_tasks = [] })
            (cancel_all_locked (running_list threads q) (record q { pending_tasks = [] })))
        same (cancel_all_locked_lem (running_list threads q) (record q { pending_tasks = [] })))

-- `stop` never returns exactly when one of the tasks that are pending or that a thread runs has its
-- pointer to the pool set, as `Task::submit` sets it for every task that it hands to the pool: it waits
-- for the mutex that it holds. Otherwise it returns with the pool told to quit, nothing pending, all of
-- those tasks cancelled and no other.
pub stop-Stopped : (threads : ℕ) (p : Taskpool) → Stopped threads p (stop threads p)
unfolding stop
stop-Stopped threads p =
    after_pending threads p (cancel_all_locked p.pending_tasks (record p { quit = true }))
      (cancel_all_locked_lem p.pending_tasks (record p { quit = true }))
