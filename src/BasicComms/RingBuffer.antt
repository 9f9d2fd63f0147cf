-- ===== src/BasicComms/RingBuffer.antt =====
-- basic_comms/src/cpp/RingBuffer.hpp. The lock makes each operation one step. `store` is what the
-- allocated block holds; the two signals do nothing, and an operation reports whether it raised one.
-- getSpaceBuffer and getDataBuffer take the mutex and then call getFreeSpace, which takes it again:
-- they are called nowhere and are not modelled.
pub mod Bounds
pub mod Queue
use oef_mt_core.Base.{
  ℕ, ◌+◌, ◌-◌, ◌%◌, Bool, true, false, not, List, [], ◌∷◌, ltb, ◌==◌, if◌then◌else◌, add_size,
  sub_size, min,
}
use oef_mt_core.BasicComms.Memory.{Memory, Buffer}

pub record RingBuffer : Type 0 where
  pub size : ℕ
  pub free_space : ℕ
  pub readp : ℕ
  pub writep : ℕ
  pub store : Memory

pub clear : RingBuffer → RingBuffer
clear r = record r { free_space = r.size; writep = 0; readp = 0 }

-- The constructor, over the block that malloc returns.
pub new_ring : ℕ → Memory → RingBuffer
unfolding clear
new_ring size block =
    clear (record { size = size; free_space = 0; readp = 0; writep = 0; store = block })

unfoldable pub get_free_space : RingBuffer → ℕ
get_free_space r = r.free_space

unfoldable pub get_data_available : RingBuffer → ℕ
get_data_available r = sub_size r.size r.free_space

pub is_empty : RingBuffer → Bool
unfolding get_free_space
is_empty r = get_free_space r == r.size

pub has_free_space : RingBuffer → Bool
unfolding get_free_space
has_free_space r = ltb 0 (get_free_space r)

pub has_data_available : RingBuffer → Bool
unfolding get_data_available
has_data_available r = ltb 0 (get_data_available r)

-- One buffer from `start` to the end of the block at most, and the remainder from its beginning.
abbrev pub wrapped : RingBuffer → ℕ → ℕ → List Buffer
wrapped r start amount =
    let buffer1size = sub_size (min (add_size start amount) r.size) start in
    let buffer2size = sub_size amount buffer1size in
    record { address = start; size = buffer1size }
    ∷ (if buffer2size == 0 then [] else record { address = 0; size = buffer2size } ∷ [])

pub get_space_buffers : RingBuffer → List Buffer
unfolding get_free_space
get_space_buffers r = if ltb 0 (get_free_space r) then wrapped r r.writep (get_free_space r) else []

-- The test is `lockless_getDataAvailable() < size`.
unfoldable pub get_data_buffers : RingBuffer → List Buffer
unfolding get_data_available
get_data_buffers r =
    if ltb (get_data_available r) r.size then wrapped r r.readp (get_data_available r) else []

-- With the new ring, whether `signalDataReady` was called.
pub mark_space_used : RingBuffer → ℕ → RingBuffer × Bool
unfolding get_data_available
mark_space_used r amount = (
  record r {
    writep = add_size r.writep amount % r.size;
    free_space = sub_size r.free_space amount;
  },
  get_data_available r == 0,
)

-- With the new ring, whether `signalSpaceReady` was called.
pub mark_data_used : RingBuffer → ℕ → RingBuffer × Bool
unfolding get_free_space
mark_data_used r amount = (
  record r { readp = add_size r.readp amount % r.size; free_space = add_size r.free_space amount },
  get_free_space r == 0,
)
