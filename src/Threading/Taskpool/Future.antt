-- ===== src/Threading/Taskpool/Future.antt =====
-- Delayed tasks.
use oef_mt_core.Base.{
  ℕ, ◌≤◌, ◌<◌, ◌≡◌, refl, ap, true, false, List, [], ◌∷◌, ◌++◌, Option, none, some, arith, inl, inr,
  ◌⊎◌, lt_or_le, lt→leb_false, le→leb, Bool-cases,
}
use oef_mt_core.Threading.Taskpool.{Task, FutureTask, next_wake_time, push_future, next_due}

-- No task of the queue is due before `d`.
abbrev AllFrom : ℕ → List FutureTask → Type 0
AllFrom d [] = Unit
AllFrom d (f ∷ fs) = (d ≤ f.due) × AllFrom d fs

-- Earliest first.
abbrev pub IsByDue : List FutureTask → Type 0
IsByDue [] = Unit
IsByDue (f ∷ fs) = AllFrom f.due fs × IsByDue fs

pub data Among (f : FutureTask) : List FutureTask → Type 0 where
  at_front : {fs : List FutureTask} → Among f (f ∷ fs)
  further : {g : FutureTask} {fs : List FutureTask} → Among f fs → Among f (g ∷ fs)

AllFrom-mono : (d e : ℕ) (fs : List FutureTask) → d ≤ e → AllFrom e fs → AllFrom d fs
AllFrom-mono d e [] h a = tt
AllFrom-mono d e (f ∷ fs) h a = (omega arith, AllFrom-mono d e fs h a.1)

push_future-AllFrom :
    (d : ℕ) (f : FutureTask) (fs : List FutureTask)
    → d ≤ f.due
    → AllFrom d fs
    → AllFrom d (push_future f fs)
unfolding push_future
push_future-AllFrom d f [] h a = (h, tt)
push_future-AllFrom d f (g ∷ gs) h a = ground (arith, push_future-AllFrom d f gs h a.1)

-- The queue stays in the order of the due times.
pub push_future-IsByDue :
    (f : FutureTask) (fs : List FutureTask) → IsByDue fs → IsByDue (push_future f fs)
unfolding push_future
push_future-IsByDue f [] o = (tt, tt)
push_future-IsByDue f (g ∷ gs) o = ground (
  arith,
  push_future-IsByDue f gs o.1,
  push_future-AllFrom g.due f gs,
  AllFrom-mono f.due g.due gs,
)

-- A task of the queue that is due and not cancelled.
abbrev Ready : (ℕ → Task) → ℕ → FutureTask → Type 0
Ready ts now f = (f.due ≤ now) × ((ts f.task).is_cancelled ≡ false)

abbrev NoneReady : (ℕ → Task) → ℕ → List FutureTask → Type 0
NoneReady ts now [] = Unit
NoneReady ts now (f ∷ fs) =
    ((now < f.due) ⊎ ((ts f.task).is_cancelled ≡ true)) × NoneReady ts now fs

none_due :
    (ts : ℕ → Task) (now : ℕ) (fs : List FutureTask) (d : ℕ)
    → now < d
    → AllFrom d fs
    → NoneReady ts now fs
none_due ts now [] d h a = tt
none_due ts now (f ∷ fs) d h a = (inl (omega arith), none_due ts now fs d h a.1)

-- The answer of the loop: nothing is ready at all, or the queue is a run of tasks that are not ready,
-- the task that was found, which is, and the tasks that are left, all due no earlier than it.
abbrev pub Answer : (ℕ → Task) → ℕ → List FutureTask → Option ℕ × List FutureTask → Type 0
Answer ts now fs (none, left) = NoneReady ts now fs
Answer ts now fs (some t, left) =
    (before : List FutureTask) × (f : FutureTask) × (fs ≡ before ++ (f ∷ left))
    × NoneReady ts now before
    × (f.task ≡ t)
    × Ready ts now f
    × AllFrom f.due left

Answer-skip :
    (ts : ℕ → Task) (now : ℕ) (f : FutureTask) (fs : List FutureTask)
    (a : Option ℕ × List FutureTask)
    → (ts f.task).is_cancelled ≡ true
    → Answer ts now fs a
    → Answer ts now (f ∷ fs) a
Answer-skip ts now f fs (none, left) c a = (inr c, a)
Answer-skip ts now f fs (some t, left) c (before, g, e, skipped, same, ready, later) =
    (f ∷ before, g, ap (◌∷◌ f) e, (inr c, skipped), same, ready, later)

-- Of a queue in due order, the work that a thread gets is the earliest task that is due and not
-- cancelled, and it gets none exactly if there is no such task.
pub next_due-Answer :
    (ts : ℕ → Task) (now : ℕ) (fs : List FutureTask)
    → IsByDue fs
    → Answer ts now fs (next_due ts now fs)
unfolding next_due
next_due-Answer ts now [] o = tt
next_due-Answer ts now (f ∷ fs) o = elim (lt_or_le now f.due) [
  | inl early ↦ rw (lt→leb_false f.due now early) (inl early, none_due ts now fs f.due early o.0)
  | inr due ↦ elim (Bool-cases (ts f.task).is_cancelled) [
    | inl dead ↦
        rw (le→leb f.due now due, dead)
          (Answer-skip ts now f fs (next_due ts now fs) dead (next_due-Answer ts now fs o.1))
    | inr live ↦ rw (le→leb f.due now due, live) ([], f, refl, tt, refl, (due, live), o.0)
  ]
]

AllFrom-Among :
    (d : ℕ) (fs : List FutureTask) → AllFrom d fs → (f : FutureTask) → Among f fs → d ≤ f.due
AllFrom-Among d [] h f a = elim a [ ]
AllFrom-Among d (f ∷ fs) h g (Among.at_front) = h.0
AllFrom-Among d (f ∷ fs) h g (Among.further a) = AllFrom-Among d fs h.1 g a

-- In due order, no delayed task is due before the time until which a thread sleeps.
pub next_wake_time-le :
    (current_time deflt : ℕ) (f : FutureTask) (fs : List FutureTask)
    → IsByDue fs
    → Among f fs
    → next_wake_time current_time deflt fs ≤ f.due
unfolding next_wake_time
next_wake_time-le current_time deflt f [] h a = elim a [ ]
next_wake_time-le current_time deflt f (g ∷ fs) h (Among.at_front) = omega arith
next_wake_time-le current_time deflt f (g ∷ fs) h (Among.further a) = AllFrom-Among g.due fs h.0 f a
