-- ===== src/BasicComms/RingBuffer/Bounds.antt =====
-- The representation invariant of the ring, and that no operation wraps or leaves the block.
use oef_mt_core.Base.{ℕ, ◌+◌, ◌-◌, ◌≤◌, ◌<◌, ◌%◌, ◌^◌, ◌≡◌, ap, sym, ◌∙◌, arith, add_size, sub_size}
use native.Mathlib.Nat.{mod-add-mod}
use oef_mt_core.BasicComms.Memory.{Memory}
use oef_mt_core.BasicComms.RingBuffer.{
  RingBuffer, clear, new_ring, get_data_available, mark_space_used, mark_data_used,
}

-- Half the address space bounds a block, so that no sum of two positions wraps.
pub record IsValid (r : RingBuffer) : Type 0 where
  pub small : r.size ≤ 2 ^ 63
  pub read_in : r.readp < r.size
  pub write_in : r.writep < r.size
  pub free_in : r.free_space ≤ r.size
  pub write_at : r.writep ≡ (r.readp + (r.size - r.free_space)) % r.size

pub new_ring-IsValid :
    (size : ℕ) (block : Memory) → 0 < size → size ≤ 2 ^ 63 → IsValid (new_ring size block)
unfolding new_ring clear
new_ring-IsValid size block h k = grind arith

pub get_data_available_lem :
    (r : RingBuffer) → IsValid r → get_data_available r ≡ r.size - r.free_space
unfolding get_data_available
get_data_available_lem r v = omega arith

-- Marking no more space as used than is free keeps the ring valid and takes that much off the free
-- space.
pub mark_space_used-IsValid :
    (r : RingBuffer) (n : ℕ)
    → IsValid r
    → n ≤ r.free_space
    → IsValid (mark_space_used r n).0 × ((mark_space_used r n).0.free_space + n ≡ r.free_space)
unfolding mark_space_used
mark_space_used-IsValid r n v h =
    let plain : add_size r.writep n ≡ r.writep + n = omega arith in
    let free : sub_size r.free_space n ≡ r.free_space - n = omega arith in
    let place : add_size r.writep n % r.size
        ≡ (r.readp + (r.size - sub_size r.free_space n)) % r.size =
      ap (λ (k : ℕ). k % r.size) plain
      ∙ ap (λ (k : ℕ). (k + n) % r.size) v.write_at
      ∙ mod-add-mod (r.readp + (r.size - r.free_space)) r.size n
      ∙ ap (λ (k : ℕ). k % r.size) (omega arith) in
    (
      record {
        small = v.small;
        read_in = v.read_in;
        write_in = omega arith;
        free_in = omega arith;
        write_at = place;
      },
      omega arith,
    )

-- Marking no more data as used than there is keeps the ring valid and adds that much to the free space.
pub mark_data_used-IsValid :
    (r : RingBuffer) (n : ℕ)
    → IsValid r
    → n + r.free_space ≤ r.size
    → IsValid (mark_data_used r n).0 × ((mark_data_used r n).0.free_space ≡ r.free_space + n)
unfolding mark_data_used
mark_data_used-IsValid r n v h =
    let plain : add_size r.readp n ≡ r.readp + n = omega arith in
    let place : r.writep
        ≡ (add_size r.readp n % r.size + (r.size - add_size r.free_space n)) % r.size =
      v.write_at
      ∙ ap (λ (k : ℕ). k % r.size) (omega arith)
      ∙ sym (mod-add-mod (r.readp + n) r.size (r.size - add_size r.free_space n))
      ∙ ap (λ (k : ℕ). (k % r.size + (r.size - add_size r.free_space n)) % r.size) (sym plain) in
    (
      record {
        small = v.small;
        read_in = omega arith;
        write_in = v.write_in;
        free_in = omega arith;
        write_at = place;
      },
      omega arith,
    )
