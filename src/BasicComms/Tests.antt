-- ===== src/BasicComms/Tests.antt =====
-- Concrete runs of the ring buffer, the streams and the endpoint.
use oef_mt_core.Base.{
  zero, suc, ℕ, ◌+◌, ◌≤◌, ◌≡◌, refl, true, false, List, [], ◌∷◌, ◌++◌, Option, some, arith, length,
  drop,
}
use oef_mt_core.BasicComms.RingBuffer.{
  RingBuffer, get_free_space, get_data_available, get_space_buffers, get_data_buffers,
  mark_space_used, mark_data_used,
}
use oef_mt_core.BasicComms.RingBuffer.Queue.{
  held, get_data_buffers-held, get_data_buffers-full, get_space_buffers-places, mark_data_used-held,
  mark_space_used-held,
}
use oef_mt_core.BasicComms.Memory.{Memory, Buffer, total_size, locate, contents, read_range}
use oef_mt_core.BasicComms.Window.{poke}
use oef_mt_core.BasicComms.RingBuffer.Bounds.{IsValid, mark_space_used-IsValid}
use oef_mt_core.BasicComms.ConstCharArrayBuffer.{CharStream, open_stream}
use oef_mt_core.BasicComms.ConstCharArrayBuffer.Laws.{IsPlaced, open_stream-rest}
use oef_mt_core.BasicComms.EndpointBase.{
  State, Endpoint, Call, ErrorCode, other_error, goes, completes_reading, history, is_dead,
}
use oef_mt_core.BasicComms.EndpointBase.Rule.{ConnectsOnlyIf}
use oef_mt_core.BasicComms.EndpointBase.Notices.{notices, notices_at_most_once}
use oef_mt_core.BasicComms.EndpointBase.Life.{transfers, dead_for_good}

abbrev block : Memory
block = λ a. a + 10

-- Three bytes, the last two of them round the end.
abbrev wrapped_ring : RingBuffer
wrapped_ring = record { size = 4; free_space = 1; readp = 3; writep = 2; store = block }

wrapped_ring-IsValid : IsValid wrapped_ring
wrapped_ring-IsValid = record {
  small = omega arith;
  read_in = omega arith;
  write_in = omega arith;
  free_in = omega arith;
  write_at = refl;
}

abbrev full_ring : RingBuffer
full_ring = record { size = 4; free_space = 0; readp = 1; writep = 1; store = block }

full_ring-IsValid : IsValid full_ring
full_ring-IsValid = record {
  small = omega arith;
  read_in = omega arith;
  write_in = omega arith;
  free_in = omega arith;
  write_at = refl;
}

wrapped_data : contents block (get_data_buffers wrapped_ring) ≡ 13 ∷ 10 ∷ 11 ∷ []
unfolding get_data_buffers get_free_space get_data_available contents read_range
wrapped_data = refl

get_data_buffers-held_example : contents block (get_data_buffers wrapped_ring) ≡ held wrapped_ring
get_data_buffers-held_example =
    get_data_buffers-held wrapped_ring wrapped_ring-IsValid (omega arith)

get_data_buffers-full_example : (get_data_buffers full_ring ≡ []) × (length (held full_ring) ≡ 4)
get_data_buffers-full_example = get_data_buffers-full full_ring full_ring-IsValid refl

get_space_buffers-places_example :
    (total_size (get_space_buffers wrapped_ring) ≡ 1)
    × (locate (get_space_buffers wrapped_ring) 0 ≡ some 2)
get_space_buffers-places_example =
    get_space_buffers-places wrapped_ring 0 wrapped_ring-IsValid (omega arith)

mark_data_used-held_example : held (mark_data_used wrapped_ring 2).0 ≡ drop 2 (held wrapped_ring)
mark_data_used-held_example = mark_data_used-held wrapped_ring 2 wrapped_ring-IsValid (omega arith)

mark_space_used-held_example :
    held (mark_space_used (record wrapped_ring { store = poke block 4 2 (7 ∷ []) }) 1).0
    ≡ held wrapped_ring ++ (7 ∷ [])
mark_space_used-held_example =
    mark_space_used-held wrapped_ring (7 ∷ []) wrapped_ring-IsValid (omega arith)

mark_space_used-IsValid_example :
    IsValid (mark_space_used wrapped_ring 1).0
    × ((mark_space_used wrapped_ring 1).0.free_space + 1 ≡ 1)
mark_space_used-IsValid_example =
    mark_space_used-IsValid wrapped_ring 1 wrapped_ring-IsValid (omega arith)

abbrev pieces : List Buffer
pieces = record { address = 3; size = 1 } ∷ record { address = 0; size = 3 } ∷ []

abbrev pieces_stream : CharStream
pieces_stream = record { memory = block; buffers = pieces; current = 0; size = 4 }

pieces_stream-IsPlaced : IsPlaced pieces_stream
unfolding open_stream total_size
pieces_stream-IsPlaced = (open_stream-rest block pieces).1

abbrev silent_writer : ℕ → Memory → List Buffer → List ℕ → Memory × List ℕ × Option ℕ
silent_writer = λ c m bs txq. (m, txq, some 0)

abbrev hungry_reader : ℕ → Memory → List Buffer → ℕ × Option (ℕ × ℕ)
hungry_reader = λ c m bs. (c, some (0, 4))

abbrev endpoint_with : RingBuffer → State → Endpoint ℕ ℕ
endpoint_with r s = record {
  send_buffer = wrapped_ring;
  read_buffer = r;
  read_needed = 2;
  asio_sending = false;
  asio_reading = false;
  state = s;
  handlers = record { on_error = true; on_eof = true; on_start = true; on_proto_error = true };
  txq = 5 ∷ [];
  waiting = 0;
  codec = 0;
  log = [];
}

abbrev running_state : State
running_state = record { running = true; closed = false; at_eof = false; errored = false }

abbrev closed_state : State
closed_state = record { running = true; closed = true; at_eof = false; errored = false }

abbrev calls : List (Call ℕ)
calls =
    goes true
    ∷ completes_reading ErrorCode.eof_code 0 block
    ∷ completes_reading (other_error 3) 0 block
    ∷ []

notices_at_most_once_example :
    notices
      (history silent_writer hungry_reader calls (endpoint_with wrapped_ring running_state)).log
    ≤ 1
notices_at_most_once_example =
    notices_at_most_once silent_writer hungry_reader calls
      (endpoint_with wrapped_ring running_state) refl

calls-ConnectsOnlyIf : ConnectsOnlyIf ⊥ calls
unfolding ConnectsOnlyIf
calls-ConnectsOnlyIf = tt

dead_for_good_example :
    (is_dead
        (history silent_writer hungry_reader calls (endpoint_with wrapped_ring closed_state)).state
      ≡ true)
    × (transfers
          (history silent_writer hungry_reader calls (endpoint_with wrapped_ring closed_state)).log
        ≡ transfers [])
unfolding is_dead
dead_for_good_example =
    dead_for_good silent_writer hungry_reader calls (endpoint_with wrapped_ring closed_state)
      calls-ConnectsOnlyIf refl

-- Four bytes that stand for -2, and one more.
abbrev signed_bytes : Memory
signed_bytes zero = 255
signed_bytes (suc zero) = 255
signed_bytes (suc (suc zero)) = 255
signed_bytes a = 254

abbrev signed_pieces : List Buffer
signed_pieces = record { address = 0; size = 5 } ∷ []

abbrev signed_stream : CharStream
signed_stream = record { memory = signed_bytes; buffers = signed_pieces; current = 0; size = 5 }

signed_stream-IsPlaced : IsPlaced signed_stream
unfolding open_stream total_size
signed_stream-IsPlaced = (open_stream-rest signed_bytes signed_pieces).1
