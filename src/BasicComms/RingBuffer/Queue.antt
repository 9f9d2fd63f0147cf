-- ===== src/BasicComms/RingBuffer/Queue.antt =====
-- The ring as a queue of bytes, oldest first.
use native.Mathlib.Nat.{mod-eq_of_lt, mod-eq-sub-mod, add-mod_left}
use oef_mt_core.Base.{
  ℕ, not, ltb, ◌==◌, ◌+◌, ◌-◌, ◌≤◌, ◌<◌, ◌%◌, ◌≡◌, ap, sym, ◌∙◌, inl, inr, some, List, [], ◌∷◌,
  ◌++◌, arith, add_size, sub_size, min, length, drop, lt_or_le, lt→ltb, le→ltb_false, append-nil,
}
use oef_mt_core.BasicComms.Memory.{Memory, total_size, locate, contents, read_range}
use oef_mt_core.BasicComms.Window.{
  window, poke, length-window, window-read_range, window-add, window-mod, window-poke, poke-mod,
  drop-window, window-poke_behind,
}
use oef_mt_core.BasicComms.RingBuffer.{
  RingBuffer, is_empty, has_free_space, has_data_available, wrapped, get_free_space,
  get_space_buffers, get_data_buffers, mark_space_used, mark_data_used,
}
use oef_mt_core.BasicComms.RingBuffer.Bounds.{IsValid, get_data_available_lem}

abbrev pub used : RingBuffer → ℕ
used r = r.size - r.free_space

unfoldable pub held : RingBuffer → List ℕ
held r = window r.store r.size r.readp (used r)

-- A region that starts in the block and is no longer than it.
record IsRegion (r : RingBuffer) (start amount : ℕ) : Type 0 where
  small : r.size ≤ 9223372036854775808
  start_in : start < r.size
  amount_in : amount ≤ r.size

-- A region within the block is one buffer; one that goes round its end is two.
wrapped_whole :
    (r : RingBuffer) (start amount : ℕ)
    → IsRegion r start amount
    → start + amount ≤ r.size
    → wrapped r start amount ≡ record { address = start; size = amount } ∷ []
wrapped_whole r start amount g h =
    let first : sub_size (min (add_size start amount) r.size) start ≡ amount = omega arith in
    let second : sub_size amount amount ≡ 0 = omega arith in rw (first, second)

wrapped_split :
    (r : RingBuffer) (start amount : ℕ)
    → IsRegion r start amount
    → r.size < start + amount
    → wrapped r start amount
      ≡ record { address = start; size = r.size - start }
        ∷ record { address = 0; size = amount - (r.size - start) }
        ∷ []
wrapped_split r start amount g h =
    let first : sub_size (min (add_size start amount) r.size) start ≡ r.size - start =
      omega arith in
    let second : sub_size amount (r.size - start) ≡ amount - (r.size - start) = omega arith in
    rw (first, second) (ground arith)

contents-wrapped :
    (m : Memory) (r : RingBuffer) (start amount : ℕ)
    → IsRegion r start amount
    → contents m (wrapped r start amount) ≡ window m r.size start amount
unfolding contents
contents-wrapped m r start amount g = elim (lt_or_le r.size (start + amount)) [
  | inr whole ↦
      ap (contents m) (wrapped_whole r start amount g whole)
      ∙ append-nil (read_range m start amount)
      ∙ sym (window-read_range m r.size start amount whole)
  | inl split ↦
      ap (contents m) (wrapped_split r start amount g split)
      ∙ ap (◌++◌ (read_range m start first)) (append-nil (read_range m 0 second))
      ∙ sym (round split)
]
  where
    first : ℕ
    first = r.size - start

    second : ℕ
    second = amount - first

    round :
        r.size < start + amount
        → window m r.size start amount ≡ read_range m start first ++ read_range m 0 second
    round split =
        ap (λ (k : ℕ). window m r.size start k) {y = first + second} (omega arith)
        ∙ window-add m r.size start first second
        ∙ ap (λ l. l ++ window m r.size (start + first) second)
            (window-read_range m r.size start first (omega arith))
        ∙ ap (◌++◌ (read_range m start first)) (
            ap (λ (k : ℕ). window m r.size k second) {y = r.size + 0} (omega arith)
            ∙ window-mod m r.size (r.size + 0) 0 second (add-mod_left r.size 0)
            ∙ window-read_range m r.size 0 second (omega arith))

locate-wrapped :
    (r : RingBuffer) (start amount k : ℕ)
    → IsRegion r start amount
    → k < amount
    → locate (wrapped r start amount) k ≡ some ((start + k) % r.size)
unfolding locate
locate-wrapped r start amount k g lt = elim (lt_or_le r.size (start + amount)) [
  | inr whole ↦
      ap (λ bs. locate bs k) (wrapped_whole r start amount g whole)
      ∙ ground (arith, mod-eq_of_lt {n = start + k} {m = r.size} (omega arith))
  | inl split ↦ ap (λ bs. locate bs k) (wrapped_split r start amount g split) ∙ found split
]
  where
    found :
        r.size < start + amount
        → locate
            (record { address = start; size = r.size - start }
              ∷ record { address = 0; size = amount - (r.size - start) }
              ∷ [])
            k
          ≡ some ((start + k) % r.size)
    found split = elim (lt_or_le (start + k) r.size) [
      | inl low ↦ ground (arith, mod-eq_of_lt low)
      | inr high ↦ ground (
        arith,
        mod-eq-sub-mod {n = start + k} {m = r.size} high,
        mod-eq_of_lt {n = start + k - r.size} {m = r.size} (omega arith),
      )
    ]

total_size-wrapped :
    (r : RingBuffer) (start amount : ℕ)
    → IsRegion r start amount
    → total_size (wrapped r start amount) ≡ amount
unfolding total_size
total_size-wrapped r start amount g = elim (lt_or_le r.size (start + amount)) [
  | inr whole ↦ ap total_size (wrapped_whole r start amount g whole) ∙ omega arith
  | inl split ↦ ap total_size (wrapped_split r start amount g split) ∙ omega arith
]

data-IsRegion : (r : RingBuffer) → IsValid r → IsRegion r r.readp (used r)
data-IsRegion r v = omega arith

space-IsRegion : (r : RingBuffer) → IsValid r → IsRegion r r.writep r.free_space
space-IsRegion r v = omega arith

-- While the ring has free space, what a reader of the data buffers sees is the queue.
pub get_data_buffers-held :
    (r : RingBuffer) → IsValid r → 0 < r.free_space → contents r.store (get_data_buffers r) ≡ held r
unfolding get_data_buffers held
get_data_buffers-held r v h =
    rw (get_data_available_lem r v, lt→ltb (used r) r.size (omega arith))
      (contents-wrapped r.store r r.readp (used r) (data-IsRegion r v))

-- A full ring shows no data at all, though it holds as many bytes as it can.
pub get_data_buffers-full :
    (r : RingBuffer)
    → IsValid r
    → r.free_space ≡ 0
    → (get_data_buffers r ≡ []) × (length (held r) ≡ r.size)
unfolding get_data_buffers held
get_data_buffers-full r v h = (
  rw (get_data_available_lem r v, le→ltb_false (used r) r.size (omega arith)),
  length-window r.store r.size r.readp (used r) ∙ omega arith,
)

pub get_space_buffers-layout :
    (r : RingBuffer)
    → IsValid r
    → (total_size (get_space_buffers r) ≡ r.free_space)
      × ((k : ℕ)
          → k < r.free_space
          → locate (get_space_buffers r) k ≡ some ((r.writep + k) % r.size))
unfolding get_space_buffers get_free_space
get_space_buffers-layout r v = elim (lt_or_le 0 r.free_space) [
  | inl some_free ↦ rw (lt→ltb 0 r.free_space some_free) (
    total_size-wrapped r r.writep r.free_space (space-IsRegion r v),
    λ k lt. locate-wrapped r r.writep r.free_space k (space-IsRegion r v) lt,
  )
  | inr no_free ↦
      rw (le→ltb_false 0 r.free_space no_free)
        (unfold total_size in omega arith, λ k lt. absurd (omega arith))
]

full_eq : (f s : ℕ) → f ≤ s → (f == s) ≡ (s - f == 0)
full_eq f s h = ground arith

some_used : (f s : ℕ) → f ≤ s → ltb 0 (s - f) ≡ not (f == s)
some_used f s h = ground arith

some_free : (f s : ℕ) → f ≤ s → 0 < s → ltb 0 f ≡ ltb (s - f) s
some_free f s h k = ground arith

-- What the tests of a valid ring answer: it is empty exactly if the queue is, it has data exactly if it
-- is not empty, and it has free space exactly if the queue is shorter than the ring.
pub ring_tests_lem :
    (r : RingBuffer)
    → IsValid r
    → (is_empty r ≡ (length (held r) == 0))
      × (has_data_available r ≡ not (is_empty r))
      × (has_free_space r ≡ ltb (length (held r)) r.size)
unfolding is_empty has_data_available has_free_space get_free_space held
ring_tests_lem r v =
    let size : length (held r) ≡ r.size - r.free_space =
      length-window r.store r.size r.readp (used r) in
    (
      rw size (full_eq r.free_space r.size v.free_in),
      rw (get_data_available_lem r v) (some_used r.free_space r.size v.free_in),
      rw size (some_free r.free_space r.size v.free_in (omega arith)),
    )

-- The space buffers cover exactly the free space, and their position `k` is the `k`-th free byte from
-- the write position on, round the end.
pub get_space_buffers-places :
    (r : RingBuffer) (k : ℕ)
    → IsValid r
    → k < r.free_space
    → (total_size (get_space_buffers r) ≡ r.free_space)
      × (locate (get_space_buffers r) k ≡ some ((r.writep + k) % r.size))
get_space_buffers-places r k v lt =
    let (sizes, places) = get_space_buffers-layout r v in (sizes, places k lt)

-- Marking data as used drops that many bytes from the front.
pub mark_data_used-held :
    (r : RingBuffer) (n : ℕ)
    → IsValid r
    → n + r.free_space ≤ r.size
    → held (mark_data_used r n).0 ≡ drop n (held r)
unfolding mark_data_used held
mark_data_used-held r n v h =
    let here : add_size r.readp n % r.size % r.size ≡ (r.readp + n) % r.size =
      mod-eq_of_lt (omega arith) ∙ ap (λ (k : ℕ). k % r.size) (omega arith) in
    window-mod r.store r.size (add_size r.readp n % r.size) (r.readp + n) _ here
    ∙ ap (window r.store r.size (r.readp + n)) (omega arith)
    ∙ sym (drop-window r.store r.size r.readp n (used r) (omega arith))

-- Bytes written from the write position on and marked as used join the queue at its end.
pub mark_space_used-held :
    (r : RingBuffer) (xs : List ℕ)
    → IsValid r
    → length xs ≤ r.free_space
    → held (mark_space_used (record r { store = poke r.store r.size r.writep xs }) (length xs)).0
      ≡ held r ++ xs
unfolding mark_space_used held
mark_space_used-held r xs v h =
    let end = r.readp + used r in
    let m = poke r.store r.size end xs in
    let there : r.writep % r.size ≡ end % r.size = mod-eq_of_lt v.write_in ∙ v.write_at in
    ap (λ m'. window m' r.size r.readp (r.size - sub_size r.free_space (length xs)))
      (poke-mod r.store r.size r.writep end xs there)
    ∙ ap (window m r.size r.readp) (omega arith)
    ∙ window-add m r.size r.readp (used r) (length xs)
    ∙ ap (λ l. l ++ window m r.size end (length xs))
        (window-poke_behind r.store r.size r.readp (used r) xs (omega arith))
    ∙ ap (◌++◌ (window r.store r.size r.readp (used r)))
        (window-poke r.store r.size end xs (omega arith))
