-- ===== src/BasicComms/Window.antt =====
-- The bytes of a block read round its end: `n` of them from position `h` on.
use native.Mathlib.Nat.{mod-eq_of_lt, mod-eq-sub-mod, mod-add-mod}
use oef_mt_core.Base.{
  ℕ, zero, suc, ◌+◌, ◌-◌, ◌≤◌, ◌<◌, ◌%◌, ◌≡◌, ◌≢◌, subst, refl, ap, sym, ◌∙◌, inl, inr, List, [],
  ◌∷◌, ◌++◌, arith, length, drop, lt_or_le,
}
use oef_mt_core.BasicComms.Memory.{Memory, store, read_range}

unfoldable pub window : Memory → ℕ → ℕ → ℕ → List ℕ
window m s h zero = []
window m s h (suc n) = m (h % s) ∷ window m s (suc h) n

-- A sequence of writes from a position on.
unfoldable pub poke : Memory → ℕ → ℕ → List ℕ → Memory
poke m s h [] = m
poke m s h (x ∷ xs) = poke (store m (h % s) x) s (suc h) xs

pub length-window : (m : Memory) (s h n : ℕ) → length (window m s h n) ≡ n
unfolding window
length-window m s h zero = refl
length-window m s h (suc n) = ap suc (length-window m s (suc h) n)

pub window-read_range : (m : Memory) (s h n : ℕ) → h + n ≤ s → window m s h n ≡ read_range m h n
unfolding window read_range
window-read_range m s h zero le = refl
window-read_range m s h (suc n) le =
    rw (mod-eq_of_lt {n = h} {m = s} (omega arith), window-read_range m s (suc h) n (omega arith))

pub window-add :
    (m : Memory) (s h a b : ℕ) → window m s h (a + b) ≡ window m s h a ++ window m s (h + a) b
unfolding window
window-add m s h zero b =
    ap (λ (k : ℕ). window m s h k) {x = 0 + b} {y = b} (omega arith)
    ∙ ap (λ (k : ℕ). window m s k b) (omega arith)
window-add m s h (suc a) b =
    ap (λ (k : ℕ). window m s h k) {x = suc a + b} {y = suc (a + b)} (omega arith)
    ∙ ap (◌∷◌ (m (h % s))) (
        window-add m s (suc h) a b
        ∙ ap (λ (k : ℕ). window m s (suc h) a ++ window m s k b) (omega arith))

suc-mod : (s h h' : ℕ) → h % s ≡ h' % s → suc h % s ≡ suc h' % s
suc-mod s h h' e =
    ap (λ (k : ℕ). k % s) {x = suc h} {y = h + 1} (omega arith)
    ∙ sym (mod-add-mod h s 1)
    ∙ ap (λ (k : ℕ). (k + 1) % s) e
    ∙ mod-add-mod h' s 1
    ∙ ap (λ (k : ℕ). k % s) {x = h' + 1} {y = suc h'} (omega arith)

-- Only the position within the block counts.
pub window-mod : (m : Memory) (s h h' n : ℕ) → h % s ≡ h' % s → window m s h n ≡ window m s h' n
unfolding window
window-mod m s h h' zero e = refl
window-mod m s h h' (suc n) e = rw (e, window-mod m s (suc h) (suc h') n (suc-mod s h h' e))

pub poke-mod :
    (m : Memory) (s h h' : ℕ) (xs : List ℕ) → h % s ≡ h' % s → poke m s h xs ≡ poke m s h' xs
unfolding poke
poke-mod m s h h' [] e = refl
poke-mod m s h h' (x ∷ xs) e =
    rw e (poke-mod (store m (h' % s) x) s (suc h) (suc h') xs (suc-mod s h h' e))

pub drop-window :
    (m : Memory) (s h n k : ℕ) → n ≤ k → drop n (window m s h k) ≡ window m s (h + n) (k - n)
unfolding window
drop-window m s h zero k le =
    ap (λ (j : ℕ). window m s j k) {x = h} {y = h + 0} (omega arith)
    ∙ ap (λ (j : ℕ). window m s (h + 0) j) {x = k} {y = k - 0} (omega arith)
drop-window m s h (suc n) zero le = absurd (omega arith)
drop-window m s h (suc n) (suc k) le =
    drop-window m s (suc h) n k (omega arith)
    ∙ ap (λ (j : ℕ). window m s j (k - n)) {x = suc h + n} {y = h + suc n} (omega arith)
    ∙ ap (λ (j : ℕ). window m s (h + suc n) j) {x = k - n} {y = suc k - suc n} (omega arith)

-- Fewer steps than the block is long do not come back to where they began.
pub add-mod-ne : (s a d : ℕ) → 0 < d → d < s → (a + d) % s ≢ a % s
add-mod-ne s a d pos lt e = elim (lt_or_le (a % s + d) s) [
  | inl below ↦ omega (arith, around, mod-eq_of_lt below)
  | inr above ↦ omega (
    arith,
    around,
    mod-eq-sub-mod {n = a % s + d} {m = s} above,
    mod-eq_of_lt {n = a % s + d - s} {m = s} (omega arith),
  )
]
  where
    around : (a % s + d) % s ≡ a % s
    around = mod-add-mod a s d ∙ e

poke_other :
    (m : Memory) (s h x : ℕ) (xs : List ℕ)
    → ((k : ℕ) → k < length xs → x ≢ (h + k) % s)
    → poke m s h xs x ≡ m x
unfolding poke store
poke_other m s h x [] apart = refl
poke_other m s h x (y ∷ ys) apart =
    poke_other (store m (h % s) y) s (suc h) x ys
      (λ k lt e. apart (suc k) (omega arith) (e ∙ ap (λ (j : ℕ). j % s) (omega arith)))
    ∙ ground (arith, first)
  where
    first : x ≢ h % s
    first e = apart 0 (omega arith) (e ∙ ap (λ (j : ℕ). j % s) (omega arith))

-- What was written is read back.
pub window-poke :
    (m : Memory) (s h : ℕ) (xs : List ℕ)
    → length xs ≤ s
    → window (poke m s h xs) s h (length xs) ≡ xs
unfolding window poke
window-poke m s h [] le = refl
window-poke m s h (x ∷ xs) le =
    λ i. head i ∷ window-poke (store m (h % s) x) s (suc h) xs (omega arith) i
  where
    kept : poke (store m (h % s) x) s (suc h) xs (h % s) ≡ store m (h % s) x (h % s)
    kept = poke_other (store m (h % s) x) s (suc h) (h % s) xs λ k lt e.
        add-mod-ne s h (suc k) (omega arith) (omega arith)
          (ap (λ (j : ℕ). j % s) (omega arith) ∙ sym e)

    head : poke (store m (h % s) x) s (suc h) xs (h % s) ≡ x
    head = kept ∙ unfold store in ground arith

window_ext :
    (m m' : Memory) (s h n : ℕ)
    → ((k : ℕ) → k < n → m ((h + k) % s) ≡ m' ((h + k) % s))
    → window m s h n ≡ window m' s h n
unfolding window
window_ext m m' s h zero same = refl
window_ext m m' s h (suc n) same = λ i. first i ∷ window_ext m m' s (suc h) n later i
  where
    at_start : (h + 0) % s ≡ h % s
    at_start = ap (λ (j : ℕ). j % s) (omega arith)

    first : m (h % s) ≡ m' (h % s)
    first = subst (λ a. m a ≡ m' a) at_start (same 0 (omega arith))

    later : (k : ℕ) → k < n → m ((suc h + k) % s) ≡ m' ((suc h + k) % s)
    later k lt =
        subst (λ a. m a ≡ m' a) (ap (λ (j : ℕ). j % s) {x = h + suc k} (omega arith))
          (same (suc k) (omega arith))

-- Bytes written behind a window leave it as it was, if both fit into the block.
pub window-poke_behind :
    (m : Memory) (s h n : ℕ) (xs : List ℕ)
    → n + length xs ≤ s
    → window (poke m s (h + n) xs) s h n ≡ window m s h n
window-poke_behind m s h n xs le = window_ext (poke m s (h + n) xs) m s h n λ k lt.
    poke_other m s (h + n) ((h + k) % s) xs λ j lt' e.
      add-mod-ne s (h + k) (n + j - k) (omega arith) (omega arith)
        (ap (λ (i : ℕ). i % s) (omega arith) ∙ sym e)

pub poke-append :
    (m : Memory) (s h : ℕ) (xs ys : List ℕ)
    → poke m s h (xs ++ ys) ≡ poke (poke m s h xs) s (h + length xs) ys
unfolding poke
poke-append m s h [] ys = ap (λ (k : ℕ). poke m s k ys) (omega arith)
poke-append m s h (x ∷ xs) ys =
    poke-append (store m (h % s) x) s (suc h) xs ys
    ∙ ap (λ (k : ℕ). poke (poke (store m (h % s) x) s (suc h) xs) s k ys) (omega arith)
