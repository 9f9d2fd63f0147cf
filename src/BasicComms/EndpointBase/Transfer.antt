-- ===== src/BasicComms/EndpointBase/Transfer.antt =====
-- The reading side: failures and the full buffer.
use oef_mt_core.Base.{ℕ, ◌<◌, ◌≡◌, ap, true, false, List, ◌∷◌, Option, arith}
use oef_mt_core.BasicComms.Memory.{Memory, Buffer}
use oef_mt_core.BasicComms.RingBuffer.{RingBuffer, get_free_space}
use oef_mt_core.BasicComms.EndpointBase.{
  Endpoint, other_error, closed_socket, close, error, run_reading, is_running, is_dead,
  complete_reading, received,
}

module _ {TX Codec : Type 0} where
  run_reading-busy : (e : Endpoint TX Codec) → e.asio_reading ≡ true → run_reading e ≡ e
  unfolding run_reading
  run_reading-busy e busy = simp busy

  run_reading-no_room :
      (e : Endpoint TX Codec)
      → is_running e.state ≡ true
      → e.asio_reading ≡ false
      → 0 < e.read_needed
      → get_free_space e.read_buffer ≡ 0
      → run_reading e ≡ record e { read_needed = 0; asio_reading = true }
  unfolding run_reading
  run_reading-no_room e on idle needed full = ground arith

  -- With no room left it starts no read but counts as reading, so that it starts none later either:
  -- however much room there is and however many bytes are needed then, a call changes nothing.
  pub run_reading-stalls :
      (e : Endpoint TX Codec) (n : ℕ) (later : RingBuffer)
      → is_running e.state ≡ true
      → e.asio_reading ≡ false
      → 0 < e.read_needed
      → get_free_space e.read_buffer ≡ 0
      → let stalled = record (run_reading e) { read_needed = n; read_buffer = later } in
        ((run_reading e).log ≡ e.log) × (run_reading stalled ≡ stalled)
  run_reading-stalls e n later on idle needed full =
      let stops = run_reading-no_room e on idle needed full in
      (
        ap (λ x. x.log) stops,
        run_reading-busy (record (run_reading e) { read_needed = n; read_buffer = later })
            (ap (λ x. x.asio_reading) stops),
      )

  -- A read that fails with an error other than the end of file closes the endpoint and marks it as
  -- failed, but no handler is called, and all of them stay: the completion sets the error bit before
  -- it calls `error`, which takes the bit for a sign that the error was reported.
  pub complete_reading-silent_error :
      (check_for_space : Codec → Memory → List Buffer → List TX → Memory × List TX × Option ℕ)
      (check_for_message : Codec → Memory → List Buffer → Codec × Option (ℕ × ℕ)) (k bytes : ℕ)
      (arrived : Memory) (e : Endpoint TX Codec)
      → is_dead e.state ≡ false
      → let e' =
          complete_reading check_for_space check_for_message (other_error k) bytes arrived e in
        (e'.log ≡ closed_socket ∷ e.log)
        × (e'.handlers ≡ e.handlers)
        × (e'.state.errored ≡ true)
        × (e'.state.closed ≡ true)
  unfolding complete_reading received error close
  complete_reading-silent_error write read k bytes arrived e live = ground arith
