-- ===== src/BasicComms/Memory.antt =====
-- The bytes that boost::asio buffers point at. A `mutable_buffer` or `const_buffer` is an address
-- and a length; the memory of a ring is a function from the offset in its block to the byte there.
use oef_mt_core.Base.{
  ℕ, zero, suc, ◌+◌, ◌-◌, ◌≤◌, ◌<◌, ◌≡◌, refl, ap, ◌∙◌, inl, inr, List, [], ◌∷◌, ◌++◌, Option, none,
  some, arith, leb, ◌==◌, if◌then◌else◌, length, get_elem?, length-append, Bool-cases,
}

abbrev pub Memory : Type 0
Memory = ℕ → ℕ

unfoldable pub store : Memory → ℕ → ℕ → Memory
store m a v x = if x == a then v else m x

pub record Buffer : Type 0 where
  pub address : ℕ
  pub size : ℕ

-- `size += buffer_size(b)` over all buffers, as both stream constructors do.
unfoldable pub total_size : List Buffer → ℕ
total_size [] = 0
total_size (b ∷ bs) = b.size + total_size bs

-- The walk over the buffers in `put_char_at` and `get_char_at`: the address of a position.
unfoldable pub locate : List Buffer → ℕ → Option ℕ
locate [] pos = none
locate (b ∷ bs) pos = if leb b.size pos then locate bs (pos - b.size) else some (b.address + pos)

-- The bytes from an address on.
unfoldable pub read_range : Memory → ℕ → ℕ → List ℕ
read_range m a zero = []
read_range m a (suc n) = m a ∷ read_range m (suc a) n

-- All that the buffers hold, in order.
unfoldable pub contents : Memory → List Buffer → List ℕ
contents m [] = []
contents m (b ∷ bs) = read_range m b.address b.size ++ contents m bs

pub length-read_range : (m : Memory) (a n : ℕ) → length (read_range m a n) ≡ n
unfolding read_range
length-read_range m a zero = refl
length-read_range m a (suc n) = ap suc (length-read_range m (suc a) n)

pub length-contents : (m : Memory) (bs : List Buffer) → length (contents m bs) ≡ total_size bs
unfolding contents total_size
length-contents m [] = refl
length-contents m (b ∷ bs) = omega (
  arith,
  length-append (read_range m b.address b.size) (contents m bs),
  length-read_range m b.address b.size,
  length-contents m bs,
)

get_elem?-read_range :
    (m : Memory) (a n k : ℕ) (rest : List ℕ)
    → k < n
    → get_elem? (read_range m a n ++ rest) k ≡ some (m (a + k))
unfolding read_range
get_elem?-read_range m a zero k rest h = absurd (omega arith)
get_elem?-read_range m a (suc n) zero rest h = ap (λ x. some (m x)) (omega arith)
get_elem?-read_range m a (suc n) (suc k) rest h =
    get_elem?-read_range m (suc a) n k rest (omega arith) ∙ ap (λ x. some (m x)) (omega arith)

get_elem?-read_range_past :
    (m : Memory) (a n k : ℕ) (rest : List ℕ)
    → n ≤ k
    → get_elem? (read_range m a n ++ rest) k ≡ get_elem? rest (k - n)
unfolding read_range
get_elem?-read_range_past m a zero k rest h = ap (get_elem? rest) (omega arith)
get_elem?-read_range_past m a (suc n) zero rest h = absurd (omega arith)
get_elem?-read_range_past m a (suc n) (suc k) rest h =
    get_elem?-read_range_past m (suc a) n k rest (omega arith) ∙ ap (get_elem? rest) (omega arith)

-- The walk finds the byte that stands at the position in the contents.
pub locate-get_elem? :
    (m : Memory) (bs : List Buffer) (pos a : ℕ)
    → locate bs pos ≡ some a
    → get_elem? (contents m bs) pos ≡ some (m a)
unfolding locate contents
locate-get_elem? m [] pos a h = absurd (ground arith)
locate-get_elem? m (b ∷ bs) pos a h = ground (
  arith,
  get_elem?-read_range m b.address b.size pos (contents m bs),
  get_elem?-read_range_past m b.address b.size pos (contents m bs),
  locate-get_elem? m bs (pos - b.size) a,
)

-- It ends inside a buffer for each position below the total size.
pub locate_total :
    (bs : List Buffer) (pos : ℕ) → pos < total_size bs → (a : ℕ) × (locate bs pos ≡ some a)
unfolding locate total_size
locate_total [] pos h = absurd (omega arith)
locate_total (b ∷ bs) pos h = elim (Bool-cases (leb b.size pos)) [
  | inl past ↦ rw past (locate_total bs (pos - b.size) (ground arith))
  | inr inside ↦ (b.address + pos, rw inside)
]
