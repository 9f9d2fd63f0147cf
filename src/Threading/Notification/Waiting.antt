-- ===== src/Threading/Notification/Waiting.antt =====
-- What a Waitable's wake and cancel do to the notifications that it handed out.
use oef_mt_core.Base.{
  ℕ, zero, suc, ◌∙◌, ◌≡◌, ◌≢◌, refl, sym, ap, Bool, true, false, ◌||◌, List, [], ◌∷◌, Option, none,
  some, arith, if◌then◌else◌, ◌==◌, get_elem?,
}
use oef_mt_core.Threading.Notification.{
  Notification, State, waiting, success, failed, update_state, update_at, update_each, Waitable,
  wake, cancel,
}
use oef_mt_core.Threading.Notification.Once.{update_state-settled}

pub is_among : ℕ → List ℕ → Bool
is_among i [] = false
is_among i (j ∷ js) = (i == j) || is_among i js

-- What an outcome makes of a notification that may not exist.
pub settled : State → Option Notification → Option Notification
settled s none = none
settled s (some n) = some (update_state s n).0

settled_if : Bool → State → Option Notification → Option Notification
settled_if b s o = if b then settled s o else o

settled-settled :
    (s : State) (o : Option Notification) → s ≢ waiting → settled s (settled s o) ≡ settled s o
unfolding settled
settled-settled s none ne = refl
settled-settled s (some n) ne =
    ap (λ (r : Notification × List ℕ). some r.0) (update_state-settled s s n ne)

settled_if-settled_if :
    (a b : Bool) (s : State) (o : Option Notification)
    → s ≢ waiting
    → settled_if b s (settled_if a s o) ≡ settled_if (a || b) s o
unfolding settled_if
settled_if-settled_if false b s o ne = refl
settled_if-settled_if true false s o ne = refl
settled_if-settled_if true true s o ne = settled-settled s o ne

suc_eq_zero : (i : ℕ) → false ≡ (suc i == 0)
suc_eq_zero i = ground arith

zero_eq_suc : (j : ℕ) → false ≡ (0 == suc j)
zero_eq_suc j = ground arith

suc_eq_suc : (i j : ℕ) → (i == j) ≡ (suc i == suc j)
suc_eq_suc i j = ground arith

settled_if-none : (b : Bool) (s : State) → settled_if b s none ≡ none
unfolding settled_if settled
settled_if-none false s = refl
settled_if-none true s = refl

update_at-cons :
    (s : State) (j : ℕ) (n : Notification) (made : List Notification) (o : Option Notification)
    (i : ℕ)
    → get_elem? (update_at s (suc j) (n ∷ made) o).0 i ≡ get_elem? (n ∷ (update_at s j made o).0) i
unfolding update_at
update_at-cons s j n made none i = refl
update_at-cons s j n made (some m) i = refl

update_at-get_elem? :
    (s : State) (j : ℕ) (made : List Notification) (i : ℕ)
    → get_elem? (update_at s j made (get_elem? made j)).0 i
      ≡ settled_if (i == j) s (get_elem? made i)
unfolding update_at settled_if settled
update_at-get_elem? s j [] i = sym (settled_if-none (i == j) s)
update_at-get_elem? s zero (n ∷ made) zero = refl
update_at-get_elem? s zero (n ∷ made) (suc i) =
    ap (λ (b : Bool). settled_if b s (get_elem? made i)) (suc_eq_zero i)
update_at-get_elem? s (suc j) (n ∷ made) zero =
    update_at-cons s j n made (get_elem? made j) zero
    ∙ ap (λ (b : Bool). settled_if b s (some n)) (zero_eq_suc j)
update_at-get_elem? s (suc j) (n ∷ made) (suc i) =
    update_at-cons s j n made (get_elem? made j) (suc i)
    ∙ update_at-get_elem? s j made i
    ∙ ap (λ (b : Bool). settled_if b s (get_elem? made i)) (suc_eq_suc i j)

update_each-get_elem? :
    (s : State)
    → s ≢ waiting
    → (is : List ℕ) (made : List Notification) (i : ℕ)
    → get_elem? (update_each s is made).0 i ≡ settled_if (is_among i is) s (get_elem? made i)
unfolding update_each is_among settled_if
update_each-get_elem? s ne [] made i = refl
update_each-get_elem? s ne (j ∷ is) made i =
    update_each-get_elem? s ne is (update_at s j made (get_elem? made j)).0 i
    ∙ ap (settled_if (is_among i is) s) (update_at-get_elem? s j made i)
    ∙ settled_if-settled_if (i == j) (is_among i is) s (get_elem? made i) ne

-- After `wake` the Waitable has no waiters, each notification that waited in it has succeeded if it
-- was still open, and every other notification is as it was; `cancel` does the same with failure, and
-- marks the Waitable as cancelled.
pub wake_cancel_lem :
    (w : Waitable) (i : ℕ)
    → let waited = is_among i w.waiting_list in
      let before = get_elem? w.made i in
      (get_elem? (wake w).0.made i ≡ (if waited then settled success before else before))
      × (get_elem? (cancel w).0.made i ≡ (if waited then settled failed before else before))
      × ((wake w).0.waiting_list ≡ [])
      × ((cancel w).0.waiting_list ≡ [])
      × ((cancel w).0.is_cancelled ≡ true)
unfolding wake cancel settled_if
wake_cancel_lem w i = (
  update_each-get_elem? success (grind arith) w.waiting_list w.made i,
  update_each-get_elem? failed (grind arith) w.waiting_list w.made i,
  refl,
  refl,
  refl,
)
