-- ===== src/Tasks/WorkerTask/Order.antt =====
-- The order in which a task of mt-core/tasks-base/src/cpp/TWorkerTask.hpp wakes those who wait for its
-- workloads, and that a run ends.
use oef_mt_core.Base.{
  ℕ, zero, suc, ◌+◌, ◌<◌, ◌≡◌, ◌≢◌, refl, ap, sym, subst, ◌∙◌, ◌⊎◌, inl, inr, List, [], ◌∷◌, ◌++◌,
  append_assoc, append-nil, Option, none, some, arith, length,
}
use oef_mt_core.Tasks.WorkerTask.{
  WorkloadProcessed, complete, not_complete, not_started, WorkloadState, Worker, defer,
  out_of_rounds, Run, post, post_all, next_workload, settle, round, run,
}

module _ {W : Type 0} where
  -- The waitables that nobody woke yet, in the order of their workloads.
  abbrev pub waitables : List (W × ℕ) → List ℕ
  waitables [] = []
  waitables ((workload, waitable) ∷ rest) = waitable ∷ waitables rest

  abbrev pub held : Option (W × ℕ) → List ℕ
  held none = []
  held (some (workload, waitable)) = waitable ∷ []

  abbrev pub pending : Worker W → List ℕ
  pending t = held t.current ++ waitables t.queue

  waitables-append : (xs ys : List (W × ℕ)) → waitables (xs ++ ys) ≡ waitables xs ++ waitables ys
  waitables-append [] ys = refl
  waitables-append ((w, n) ∷ xs) ys = ap (◌∷◌ n) (waitables-append xs ys)

-- The numbers from `k` up to below `m`.
abbrev pub from_to : ℕ → ℕ → List ℕ
from_to k zero = []
from_to k (suc n) = k ∷ from_to (suc k) n

from_to-append : (k m n : ℕ) → from_to k m ++ from_to (k + m) n ≡ from_to k (m + n)
from_to-append k zero n =
    let none_on : k + 0 ≡ k = omega arith in
    let none_more : n ≡ 0 + n = omega arith in
    ap (λ (i : ℕ). from_to i n) none_on ∙ ap (from_to k) none_more
from_to-append k (suc m) n =
    let one_on : k + suc m ≡ suc k + m = omega arith in
    let one_more : suc (m + n) ≡ suc m + n = omega arith in
    ap (λ (i : ℕ). k ∷ (from_to (suc k) m ++ from_to i n)) one_on
    ∙ ap (◌∷◌ k) (from_to-append (suc k) m n)
    ∙ ap (from_to k) one_more

-- Why a run that is deferred stopped: there is no work left, or the workload at hand is not done.
abbrev pub Rests : {W : Type 0} → Worker W → Type 0
Rests {W = W} t =
    ((t.current ≡ none) × (t.queue ≡ []))
    ⊎ ((entry : W × ℕ) × (t.current ≡ some entry) × (t.last_result ≢ complete))

pub record Orders {W P : Type 0} (t : Worker W) (r : Run W P) : Type 0 where
  pub posted : ℕ
  pub made : r.worker.made ≡ t.made + posted
  pub order : r.woken ++ pending r.worker ≡ pending t ++ from_to t.made posted
  pub rests : (r.exit ≡ out_of_rounds) ⊎ Rests r.worker

module _ {W : Type 0} where
  pending-post :
      (workload : W) (t : Worker W) → pending (post workload t) ≡ pending t ++ from_to t.made 1
  pending-post workload t =
      ap (◌++◌ (held t.current)) (waitables-append t.queue ((workload, t.made) ∷ []))
      ∙ sym (append_assoc (held t.current) (waitables t.queue) (t.made ∷ []))

  post_all-pending :
      (ps : List W) (t : Worker W)
      → (pending (post_all ps t) ≡ pending t ++ from_to t.made (length ps))
        × ((post_all ps t).made ≡ t.made + length ps)
        × ((post_all ps t).current ≡ t.current)
        × ((post_all ps t).last_result ≡ t.last_result)
  post_all-pending [] t = (sym (append-nil (pending t)), omega arith, refl, refl)
  post_all-pending (p ∷ ps) t =
      let (queued, made, current, last) = post_all-pending ps (post p t) in
      (
        queued
            ∙ ap (λ l. l ++ from_to (suc t.made) (length ps)) (pending-post p t)
            ∙ append_assoc (pending t) (t.made ∷ []) (from_to (suc t.made) (length ps)),
        omega arith,
        current,
        last,
      )

  fewer :
      (fuel : ℕ) (u : Worker W) (queue : List (W × ℕ))
      → u.current ≡ none
      → u.queue ≡ queue
      → length (waitables queue) < fuel
      → length (pending u) < fuel
  fewer fuel u queue e f h =
      subst (λ (l : List ℕ). length l < fuel)
        (sym (ap (λ o. held o ++ waitables u.queue) e ∙ ap waitables f)) h

  module _ {P : Type 0} (process : P → W → WorkloadState → P × WorkloadProcessed × List W) where
    -- What a round does once `process` has answered, for the waitables that were pending before it.
    settle-Orders :
        (again : P → Worker W → Run W P) (p : P) (t t' : Worker W) (entry : W × ℕ)
        (result : WorkloadProcessed) (n : ℕ)
        → ((p' : P) (u : Worker W) → Orders u (again p' u))
        → t'.current ≡ some entry
        → t'.last_result ≡ result
        → t'.made ≡ t.made + n
        → pending t' ≡ pending t ++ from_to t.made n
        → Orders t (settle process again p t' entry.1 result)
    unfolding settle
    settle-Orders again p t t' entry not_complete n next current last made queued = record {
      posted = n;
      made = made;
      order = queued;
      rests = inr (inr (entry, current, λ done. grind arith));
    }
    settle-Orders again p t t' entry not_started n next current last made queued = record {
      posted = n;
      made = made;
      order = queued;
      rests = inr (inr (entry, current, λ done. grind arith));
    }
    settle-Orders again p t t' entry complete n next current last made queued =
        let later = next p (record t' { current = none }) in
        record {
          posted = n + later.posted;
          made = omega (arith, later.made);
          order =
              ap (◌∷◌ entry.1) later.order
              ∙ ap (λ o. (held o ++ waitables t'.queue) ++ from_to t'.made later.posted)
                  (sym current)
              ∙ ap (λ l. l ++ from_to t'.made later.posted) queued
              ∙ append_assoc (pending t) (from_to t.made n) (from_to t'.made later.posted)
              ∙ ap (λ (i : ℕ). pending t ++ (from_to t.made n ++ from_to i later.posted)) made
              ∙ ap (◌++◌ (pending t)) (from_to-append t.made n later.posted);
          rests = later.rests;
        }

    taken-Orders :
        (again : P → Worker W → Run W P) (p : P) (t : Worker W) (entry : W × ℕ)
        (state : WorkloadState) (rest : List (W × ℕ))
        → ((p' : P) (u : Worker W) → Orders u (again p' u))
        → held (some entry) ++ waitables rest ≡ pending t
        → Orders t (round process again p t (some (entry, state, rest)))
    unfolding round
    taken-Orders again p t entry state rest next same =
        let (p', result, posted) = process p entry.0 state in
        let taken : Worker W = record t {
          current = some entry;
          last_result = result;
          queue = rest;
        } in
        let (queued, made, current, last) = post_all-pending posted taken in
        settle-Orders again p' t (post_all posted taken) entry result (length posted) next current
          last made (queued ∙ ap (λ l. l ++ from_to t.made (length posted)) same)

    round-Orders :
        (again : P → Worker W → Run W P) (p : P) (t : Worker W) (current : Option (W × ℕ))
        (queue : List (W × ℕ))
        → ((p' : P) (u : Worker W) → Orders u (again p' u))
        → t.current ≡ current
        → t.queue ≡ queue
        → Orders t (round process again p t (next_workload current queue))
    unfolding round
    round-Orders again p t none [] next e f = record {
      posted = 0;
      made = omega arith;
      order = sym (append-nil (pending t));
      rests = inr (inl (e, f));
    }
    round-Orders again p t none (entry ∷ queue) next e f =
        taken-Orders again p t entry _ queue next
          (sym (ap (λ o. held o ++ waitables t.queue) e ∙ ap waitables f))
    round-Orders again p t (some entry) queue next e f = taken-Orders again p t entry _ queue next (
        sym
          (ap (λ o. held o ++ waitables t.queue) e ∙ ap (λ q. held (some entry) ++ waitables q) f))

    -- Whatever `process` does and posts, a run wakes the waitables of workloads in the order in which
    -- these were posted, each once: those woken, then the one at hand and those in the queue are, in this
    -- order, those that were pending before and the new ones, numbered on. A run that is deferred has no
    -- work left, or the workload at hand is not complete.
    pub run-Orders : (fuel : ℕ) (p : P) (t : Worker W) → Orders t (run process fuel p t)
    unfolding run
    run-Orders zero p t = record {
      posted = 0;
      made = omega arith;
      order = sym (append-nil (pending t));
      rests = inl refl;
    }
    run-Orders (suc fuel) p t =
        round-Orders (run process fuel) p t t.current t.queue (run-Orders fuel) refl refl

    module _
        (quiet : (p : P) (workload : W) (state : WorkloadState)
          → (process p workload state).2 ≡ []) where
      settle-defer :
          (again : P → Worker W → Run W P) (p : P) (t : Worker W) (waitable : ℕ)
          (result : WorkloadProcessed)
          → ((again p (record t { current = none })).exit ≡ defer)
          → (settle process again p t waitable result).exit ≡ defer
      unfolding settle
      settle-defer again p t waitable complete h = h
      settle-defer again p t waitable not_complete h = refl
      settle-defer again p t waitable not_started h = refl

      taken-defer :
          (again : P → Worker W → Run W P) (p : P) (t : Worker W) (entry : W × ℕ)
          (state : WorkloadState) (rest : List (W × ℕ))
          → ((p' : P) (u : Worker W)
              → u.current ≡ none
              → u.queue ≡ rest
              → (again p' u).exit ≡ defer)
          → (round process again p t (some (entry, state, rest))).exit ≡ defer
      unfolding round
      taken-defer again p t entry state rest next =
          let (p', result, posted) = process p entry.0 state in
          let taken : Worker W = record t {
            current = some entry;
            last_result = result;
            queue = rest;
          } in
          subst (λ ps. (settle process again p' (post_all ps taken) entry.1 result).exit ≡ defer)
            (sym (quiet p entry.0 state))
            (settle-defer again p' taken entry.1 result
              (next p' (record taken { current = none }) refl refl))

      round-defer :
          (fuel : ℕ) (p : P) (t : Worker W) (current : Option (W × ℕ)) (queue : List (W × ℕ))
          → ((p' : P) (u : Worker W)
              → length (pending u) < fuel
              → (run process fuel p' u).exit ≡ defer)
          → length (held current ++ waitables queue) < suc fuel
          → (round process (run process fuel) p t (next_workload current queue)).exit ≡ defer
      unfolding round
      round-defer fuel p t none [] next enough = refl
      round-defer fuel p t none (entry ∷ queue) next enough =
          taken-defer (run process fuel) p t entry _ queue
            (λ p' u none_now left. next p' u (fewer fuel u queue none_now left (omega arith)))
      round-defer fuel p t (some entry) queue next enough =
          taken-defer (run process fuel) p t entry _ queue
            (λ p' u none_now left. next p' u (fewer fuel u queue none_now left (omega arith)))

      -- While nothing is posted a run ends: it is deferred, in as many rounds as there are workloads and
      -- one more.
      pub run-defer :
          (fuel : ℕ) (p : P) (t : Worker W)
          → length (pending t) < fuel
          → (run process fuel p t).exit ≡ defer
      unfolding run
      run-defer zero p t enough = absurd (omega arith)
      run-defer (suc fuel) p t enough =
          round-defer fuel p t t.current t.queue (run-defer fuel) enough
