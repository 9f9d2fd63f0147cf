-- ===== src/BasicComms/ConstCharArrayBuffer/Laws.antt =====
-- A stream seen as the list of bytes that are left to read.
use oef_mt_core.Base.{
  ℕ, zero, suc, ◌+◌, ◌-◌, ◌≤◌, ◌<◌, ◌^◌, ◌≡◌, refl, ap, sym, ◌∙◌, List, [], ◌∷◌, none, some, arith,
  length, get_elem?, take, drop, length-take, length-drop, subst, inl, inr, Bool-cases, leb,
  take-take, take_of_le, drop-take, nil_of_length, byte0, byte1, byte2, byte3, word_of-bytes,
  get_elem?-take, drop-get_elem?, drop-drop,
}
use oef_mt_core.Base.Int.{pos, sub_ℕ_of_le}
use oef_mt_core.BasicComms.Memory.{
  Memory, Buffer, total_size, contents, length-contents, locate-get_elem?, locate_total,
}
use oef_mt_core.BasicComms.ConstCharArrayBuffer.{
  open_stream, limited_to, remaining_data, CharStream, get_char_at, char_or_eof, uflow, advance,
  next_four, read_u32, read_little_endian, read_chars, read_string, copy_rounds, copy_out,
}

-- The position stands within the limit, and the limit within the buffers.
pub record IsPlaced (c : CharStream) : Type 0 where
  pub within : c.current ≤ c.size
  pub backed : c.size ≤ total_size c.buffers

unfoldable pub rest : CharStream → List ℕ
rest c = drop c.current (take c.size (contents c.memory c.buffers))

pub length-rest : (c : CharStream) → IsPlaced c → length (rest c) ≡ c.size - c.current
unfolding rest
length-rest c p = omega (
  arith,
  length-drop c.current (take c.size (contents c.memory c.buffers)),
  length-take c.size (contents c.memory c.buffers),
  length-contents c.memory c.buffers,
)

-- A position before the limit has its byte.
get_char_at-get_elem? :
    (c : CharStream) (k : ℕ)
    → IsPlaced c
    → k < c.size
    → get_elem? (take c.size (contents c.memory c.buffers)) k ≡ some (get_char_at c k)
unfolding get_char_at char_or_eof
get_char_at-get_elem? c k p h =
    let found = locate_total c.buffers k (omega arith) in
    ground (
      arith,
      found.1,
      locate-get_elem? c.memory c.buffers k found.0 found.1,
      get_elem?-take c.size k (contents c.memory c.buffers) h,
    )

pub rest-cons :
    (c : CharStream)
    → IsPlaced c
    → c.current < c.size
    → rest c ≡ get_char_at c c.current ∷ rest (advance c 1)
unfolding rest
rest-cons c p h =
    drop-get_elem? c.current (take c.size (contents c.memory c.buffers))
      (get_char_at-get_elem? c c.current p h)
    ∙ ap (λ (k : ℕ). get_char_at c c.current ∷ drop k (take c.size (contents c.memory c.buffers)))
        {x = suc c.current} (omega arith)

pub rest-advance : (c : CharStream) (n : ℕ) → rest (advance c n) ≡ drop n (rest c)
unfolding rest
rest-advance c n = sym (drop-drop n c.current (take c.size (contents c.memory c.buffers)))

pub advance-IsPlaced :
    (c : CharStream) (n : ℕ) → IsPlaced c → n ≤ length (rest c) → IsPlaced (advance c n)
advance-IsPlaced c n p h = record { within = omega (arith, length-rest c p); backed = p.backed }

-- While bytes are left `uflow` returns the next one and steps over it.
pub uflow-cons :
    (c : CharStream) {x : ℕ} {xs : List ℕ}
    → IsPlaced c
    → rest c ≡ x ∷ xs
    → (uflow c ≡ (some x, advance c 1)) × (rest (advance c 1) ≡ xs) × IsPlaced (advance c 1)
unfolding uflow
uflow-cons c {x} {xs} p e =
    let room : c.current < c.size = omega (arith, length-rest c p, ap length e) in
    ground (arith, rest-cons c p room)

-- At the end it returns eof and stays.
pub uflow-nil : (c : CharStream) → IsPlaced c → rest c ≡ [] → uflow c ≡ (none, c)
unfolding uflow
uflow-nil c p e =
    let full : c.size ≤ c.current = omega (arith, length-rest c p, ap length e) in ground arith

-- The four bytes at the front, in the order in which they stand.
next_four-cons :
    (c : CharStream) (a b d e : ℕ) (xs : List ℕ)
    → IsPlaced c
    → rest c ≡ a ∷ b ∷ d ∷ e ∷ xs
    → ((next_four c).0 ≡ (a, b, d, e))
      × ((next_four c).1 ≡ advance c 4)
      × (rest (advance c 4) ≡ xs)
      × IsPlaced (advance c 4)
unfolding next_four
next_four-cons c a b d e xs p h =
    let s1 = uflow-cons c p h in
    let s2 = uflow-cons (advance c 1) s1.2 s1.1 in
    let s3 = uflow-cons (advance (advance c 1) 1) s2.2 s2.1 in
    let s4 = uflow-cons (advance (advance (advance c 1) 1) 1) s3.2 s3.1 in
    let four : advance (advance (advance (advance c 1) 1) 1) 1 ≡ advance c 4 =
      ap (λ (k : ℕ). record c { current = k }) (omega arith) in
    (
      rw (s1.0, s2.0, s3.0, s4.0),
      rw (s1.0, s2.0, s3.0, s4.0) four,
      ap rest (sym four) ∙ s4.1,
      subst IsPlaced four s4.2,
    )

-- `read` takes the first byte for the most significant one, and steps over the four bytes.
pub read_u32-cons :
    (c : CharStream) (n : ℕ) (xs : List ℕ)
    → IsPlaced c
    → n < 2 ^ 32
    → rest c ≡ byte3 n ∷ byte2 n ∷ byte1 n ∷ byte0 n ∷ xs
    → (read_u32 c ≡ (n, advance c 4)) × (rest (advance c 4) ≡ xs) × IsPlaced (advance c 4)
unfolding read_u32
read_u32-cons c n xs p lt h =
    let four = next_four-cons c (byte3 n) (byte2 n) (byte1 n) (byte0 n) xs p h in
    (rw (four.0, four.1) (ap (λ k. (k, advance c 4)) (word_of-bytes n lt)), four.2, four.3)

-- `read_little_endian` takes it for the least significant one.
pub read_little_endian-cons :
    (c : CharStream) (n : ℕ) (xs : List ℕ)
    → IsPlaced c
    → n < 2 ^ 32
    → rest c ≡ byte0 n ∷ byte1 n ∷ byte2 n ∷ byte3 n ∷ xs
    → (read_little_endian c ≡ (n, advance c 4)) × (rest (advance c 4) ≡ xs) × IsPlaced (advance c 4)
unfolding read_little_endian
read_little_endian-cons c n xs p lt h =
    let four = next_four-cons c (byte0 n) (byte1 n) (byte2 n) (byte3 n) xs p h in
    (rw (four.0, four.1) (ap (λ k. (k, advance c 4)) (word_of-bytes n lt)), four.2, four.3)

read_chars-rest :
    (n : ℕ) (c : CharStream)
    → IsPlaced c
    → n ≤ length (rest c)
    → read_chars n c ≡ (take n (rest c), advance c n)
unfolding read_chars
read_chars-rest zero c p h = ap (λ (k : ℕ). ([], record c { current = k })) (omega arith)
read_chars-rest (suc n) c p h =
    let room : c.current < c.size = omega (arith, length-rest c p) in
    let first = uflow-cons c p (rest-cons c p room) in
    let more =
      read_chars-rest n (advance c 1) first.2 (omega (arith, ap length (rest-cons c p room))) in
    let far : advance (advance c 1) n ≡ advance c (suc n) =
      ap (λ (k : ℕ). record c { current = k }) (omega arith) in
    rw (first.0, more, far, rest-cons c p room)

-- `read` of a string takes `n` characters and drops one more.
pub read_string-rest :
    (c : CharStream) (n : ℕ) (x : ℕ) (xs : List ℕ)
    → IsPlaced c
    → drop n (rest c) ≡ x ∷ xs
    → (read_string c n ≡ (take n (rest c), advance c (n + 1))) × (rest (advance c (n + 1)) ≡ xs)
unfolding read_string
read_string-rest c n x xs p h =
    let long : n ≤ length (rest c) = omega (arith, ap length h, length-drop n (rest c)) in
    let there = advance-IsPlaced c n p long in
    let last = uflow-cons (advance c n) there (rest-advance c n ∙ h) in
    let far : advance (advance c n) 1 ≡ advance c (n + 1) =
      ap (λ (k : ℕ). record c { current = k }) (omega arith) in
    (
      rw (read_chars-rest n c p long, last.0) (ap (λ c'. (take n (rest c), c')) far),
      ap rest (sym far) ∙ last.1,
    )

copy_rounds-rest :
    (n : ℕ) (c : CharStream)
    → IsPlaced c
    → n ≡ c.size - c.current
    → copy_rounds n c ≡ (rest c, advance c n)
unfolding copy_rounds
copy_rounds-rest zero c p e =
    let done = nil_of_length (rest c) (omega (arith, length-rest c p)) in
    rw done (ap (λ (k : ℕ). ([], record c { current = k })) (omega arith))
copy_rounds-rest (suc n) c p e =
    let room : c.current < c.size = omega arith in
    let first = uflow-cons c p (rest-cons c p room) in
    let far : advance (advance c 1) n ≡ advance c (suc n) =
      ap (λ (k : ℕ). record c { current = k }) (omega arith) in
    rw (copy_rounds-rest n (advance c 1) first.2 (omega arith), far, rest-cons c p room)

-- `copyOut` returns all that is left, and leaves nothing.
pub copy_out-rest :
    (c : CharStream) → IsPlaced c → copy_out c ≡ (rest c, record c { current = c.size })
unfolding copy_out
copy_out-rest c p =
    copy_rounds-rest (c.size - c.current) c p refl
    ∙ ap (λ (k : ℕ). (rest c, record c { current = k })) (omega arith)

-- A stream just opened has all the bytes of its buffers before it.
pub open_stream-rest :
    (m : Memory) (bs : List Buffer)
    → (rest (open_stream m bs) ≡ contents m bs) × IsPlaced (open_stream m bs)
unfolding open_stream rest
open_stream-rest m bs =
    (take_of_le (total_size bs) (contents m bs) (omega (arith, length-contents m bs)), omega arith)

-- The limited copy sees the next bytes only.
pub rest-limited_to :
    (c : CharStream) (n : ℕ)
    → IsPlaced c
    → n ≤ length (rest c)
    → IsPlaced (limited_to c (c.current + n))
      × (rest (limited_to c (c.current + n)) ≡ take n (rest c))
unfolding rest
rest-limited_to c n p h =
    let all = contents c.memory c.buffers in
    let room : c.current + n ≤ c.size = omega (arith, length-rest c p) in
    (
      omega arith,
      drop-take c.current n all
          ∙ sym (take-take n (c.size - c.current) (drop c.current all) (omega arith))
          ∙ ap (take n) (sym (drop-take c.current (c.size - c.current) all))
          ∙ ap (λ (k : ℕ). take n (drop c.current (take k all)))
              {x = c.current + (c.size - c.current)} (omega arith),
    )

-- What is left, as the signed number that the code compares.
pub remaining_data-rest : (c : CharStream) → IsPlaced c → remaining_data c ≡ pos (length (rest c))
unfolding remaining_data
remaining_data-rest c p = sub_ℕ_of_le c.size c.current p.within ∙ ap pos (sym (length-rest c p))

-- What reading leaves alone, and how far it goes at most.
pub record Moves (n : ℕ) (c c' : CharStream) : Type 0 where
  pub same_buffers : c'.buffers ≡ c.buffers
  pub same_size : c'.size ≡ c.size
  pub forward : c.current ≤ c'.current
  pub inside : c.current ≤ c.size → c'.current ≤ c.size
  pub steps : c.current + n ≤ c.size → c'.current ≡ c.current + n

uflow-Moves : (c : CharStream) → Moves 1 c (uflow c).1
unfolding uflow
uflow-Moves c = elim (Bool-cases (leb c.size c.current)) [
  | inl e ↦ rw e (ground arith)
  | inr e ↦ rw e (ground arith)
]

Moves-trans : {m n : ℕ} {c d e : CharStream} → Moves m c d → Moves n d e → Moves (m + n) c e
Moves-trans p q = ground arith

next_four-Moves : (c : CharStream) → Moves 4 c (next_four c).1
unfolding next_four
next_four-Moves c =
    let c1 = (uflow c).1 in
    let c2 = (uflow c1).1 in
    let c3 = (uflow c2).1 in
    Moves-trans {m = 1} {n = 3} (uflow-Moves c) (
      Moves-trans {m = 1} {n = 2} (uflow-Moves c1)
        (Moves-trans {m = 1} {n = 1} (uflow-Moves c2) (uflow-Moves c3)))

pub read_u32-Moves : (c : CharStream) → Moves 4 c (read_u32 c).1
unfolding read_u32
read_u32-Moves c = next_four-Moves c

pub read_little_endian-Moves : (c : CharStream) → Moves 4 c (read_little_endian c).1
unfolding read_little_endian
read_little_endian-Moves c = next_four-Moves c

pub remaining_data-sub :
    (c : CharStream) → c.current ≤ c.size → remaining_data c ≡ pos (c.size - c.current)
unfolding remaining_data
remaining_data-sub c h = sub_ℕ_of_le c.size c.current h
