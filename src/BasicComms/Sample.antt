-- ===== src/BasicComms/Sample.antt =====
-- A memory that holds given bytes, and the one buffer over them, for concrete runs.
use oef_mt_core.Base.{ℕ, zero, suc, ◌≡◌, refl, ap, sym, ◌∙◌, List, [], ◌∷◌, append-nil, length}
use oef_mt_core.BasicComms.Memory.{Memory, Buffer, contents, read_range}

abbrev pub byte_at : List ℕ → Memory
byte_at [] a = 0
byte_at (x ∷ xs) zero = x
byte_at (x ∷ xs) (suc a) = byte_at xs a

abbrev pub all_of : List ℕ → List Buffer
all_of xs = record { address = 0; size = length xs } ∷ []

read_range-shift : (m : Memory) (a n : ℕ) → read_range (λ k. m (suc k)) a n ≡ read_range m (suc a) n
unfolding read_range
read_range-shift m a zero = refl
read_range-shift m a (suc n) = ap (λ xs. m (suc a) ∷ xs) (read_range-shift m (suc a) n)

read_range-byte_at : (xs : List ℕ) → read_range (byte_at xs) 0 (length xs) ≡ xs
unfolding read_range
read_range-byte_at [] = refl
read_range-byte_at (x ∷ xs) =
    ap (λ ys. x ∷ ys)
      (sym (read_range-shift (byte_at (x ∷ xs)) 0 (length xs)) ∙ read_range-byte_at xs)

pub contents-byte_at : (xs : List ℕ) → contents (byte_at xs) (all_of xs) ≡ xs
unfolding contents
contents-byte_at xs = append-nil (read_range (byte_at xs) 0 (length xs)) ∙ read_range-byte_at xs
