-- ===== src/BasicComms/EndpointBase.antt =====
-- basic_comms/src/cpp/EndpointBase.cpp and EndpointBase.hpp, over the asynchronous calls of
-- Endpoint.cpp. Each handler is one step: the code holds its mutex, and the strand of the socket runs
-- one completion at a time. What goes out of the endpoint (transfers started, handlers called, the
-- socket closed) is written to a log, newest first. Reader and writer are the interfaces
-- IMessageReader and IMessageWriter, over a state that they share; `none` stands for a throw.
pub mod Rule
pub mod Life
pub mod Notices
pub mod Transfer
use oef_mt_core.Base.{
  ℕ, zero, suc, ◌+◌, Bool, true, false, not, ◌&&◌, ◌||◌, List, [], ◌∷◌, ◌++◌, Option, none, some,
  ltb, leb, ◌==◌, if◌then◌else◌, length,
}
use oef_mt_core.BasicComms.Memory.{Memory, Buffer}
use oef_mt_core.BasicComms.RingBuffer.{
  RingBuffer, get_free_space, get_data_available, get_space_buffers, get_data_buffers,
  mark_space_used, mark_data_used,
}

-- The bits of `state`: RUNNING_ENDPOINT is 1, CLOSED_ENDPOINT 2, EOF_ENDPOINT 4, ERRORED_ENDPOINT 8.
pub record State : Type 0 where
  pub running : Bool
  pub closed : Bool
  pub at_eof : Bool
  pub errored : Bool

-- `*state > RUNNING_ENDPOINT`: some other bit is set.
unfoldable pub is_dead : State → Bool
is_dead s = s.closed || (s.at_eof || s.errored)

-- `*state == RUNNING_ENDPOINT`
unfoldable pub is_running : State → Bool
unfolding is_dead
is_running s = s.running && not (is_dead s)

-- The `boost::system::error_code` of a completion: none, end of file, operation_aborted, another.
pub data ErrorCode : Type 0 where
  success eof_code aborted : ErrorCode
  other_error : ℕ → ErrorCode

pub data Action : Type 0 where
  started_write : List Buffer → Action
  started_read : List Buffer → ℕ → Action
  called_eof called_proto_error called_start closed_socket : Action
  called_error : ErrorCode → Action

-- A handler is there or has been set to 0.
pub record Handlers : Type 0 where
  pub on_error : Bool
  pub on_eof : Bool
  pub on_start : Bool
  pub on_proto_error : Bool

pub record Endpoint (TX Codec : Type 0) : Type 0 where
  pub send_buffer : RingBuffer
  pub read_buffer : RingBuffer
  pub read_needed : ℕ
  pub asio_sending : Bool
  pub asio_reading : Bool
  pub state : State
  pub handlers : Handlers
  pub txq : List TX
  -- How many notifications wait for room in the queue.
  pub waiting : ℕ
  pub codec : Codec
  pub log : List Action

-- A handler of the code returns, or an exception leaves it.
pub data Exit {ℓ} (A : Type ℓ) : Type ℓ where
  returned : A → Exit A
  threw : A → Exit A

abbrev pub buffer_size_limit : ℕ
buffer_size_limit = 50

abbrev pub no_handlers : Handlers → Handlers
no_handlers h = record h { on_eof = false; on_error = false; on_proto_error = false }

-- What the resolver and the socket come to: an exception leaves them, nothing was resolved, or the
-- socket is connected.
pub data Resolved : Type 0 where
  throws unresolved connects_to : Resolved

-- The calls that reach an endpoint.
pub data Call (TX : Type 0) : Type 0 where
  connects : Resolved → Call TX
  goes : Bool → Call TX
  sends : TX → Call TX
  runs_sending runs_reading closes : Call TX
  completes_sending : ErrorCode → ℕ → Call TX
  completes_reading : ErrorCode → ℕ → Memory → Call TX

module _ {TX Codec : Type 0} where
  abbrev pub note : Action → Endpoint TX Codec → Endpoint TX Codec
  note a e = record e { log = a ∷ e.log }

  -- With the endpoint, what `connect` answers. `*state = RUNNING_ENDPOINT` takes all other bits away.
  -- The error code that it tests is never set: `socket().connect` throws instead.
  unfoldable pub connect : Resolved → Endpoint TX Codec → Exit (Endpoint TX Codec × Bool)
  connect throws e = threw (e, false)
  connect unresolved e = returned (e, false)
  connect connects_to e = returned (
    record e { state = record { running = true; closed = false; at_eof = false; errored = false } },
    true,
  )

  abbrev pub connected : Exit (Endpoint TX Codec × Bool) → Endpoint TX Codec
  connected (returned (e, b)) = e
  connected (threw (e, b)) = e

  pub close : Endpoint TX Codec → Endpoint TX Codec
  close e = note closed_socket (record e { state = record (e.state) { closed = true } })

  -- The common end of `eof`, `error` and `proto_error`: the socket is closed, all three handlers are
  -- dropped, and then the one that was asked for is called if it was there.
  abbrev pub finish : Bool → Action → State → Endpoint TX Codec → Endpoint TX Codec
  finish present call s e =
      let quiet = record e {
        state = s;
        handlers = no_handlers e.handlers;
        log = closed_socket ∷ e.log;
      } in
      if present then note call quiet else quiet

  pub eof : Endpoint TX Codec → Endpoint TX Codec
  eof e =
      if e.state.at_eof
      then e
      else finish e.handlers.on_eof called_eof (record (e.state) { at_eof = true; closed = true }) e

  pub error : ErrorCode → Endpoint TX Codec → Endpoint TX Codec
  error ec e =
      if e.state.errored
      then e
      else finish e.handlers.on_error (called_error ec)
          (record (e.state) { errored = true; closed = true }) e

  pub proto_error : Endpoint TX Codec → Endpoint TX Codec
  proto_error e =
      if e.state.errored
      then e
      else finish e.handlers.on_proto_error called_proto_error
          (record (e.state) { errored = true; closed = true }) e

  -- With the endpoint, whether a notification to wait for was made.
  pub send : TX → Endpoint TX Codec → Endpoint TX Codec × Bool
  send s e =
      if ltb (length e.txq) buffer_size_limit
      then (record e { txq = e.txq ++ (s ∷ []) }, false)
      else (record e { waiting = e.waiting + 1 }, true)

  -- A short read buffer cuts the request; with none left no read is started.
  pub run_reading : Endpoint TX Codec → Endpoint TX Codec
  run_reading e =
      let free = get_free_space e.read_buffer in
      let read_needed_local = if ltb free e.read_needed then free else e.read_needed in
      let busy = record e { read_needed = 0; asio_reading = true } in
      if e.asio_reading || not (is_running e.state)
      then e
      else if e.read_needed == 0
      then e
      else if read_needed_local == 0
      then busy
      else note (started_read (get_space_buffers e.read_buffer) read_needed_local) busy

  -- The start handler, called once; `start_throws` tells whether it throws. Then the endpoint runs and
  -- needs a byte more.
  pub start : Bool → Endpoint TX Codec → Endpoint TX Codec
  start start_throws e =
      let called =
        note called_start (record e { handlers = record (e.handlers) { on_start = false } }) in
      let failed =
        note closed_socket
          (record called { state = record (called.state) { errored = true; closed = true } }) in
      let started = if e.handlers.on_start then (if start_throws then failed else called) else e in
      record started {
        state = record (started.state) { running = true };
        read_needed = started.read_needed + 1;
      }

  pub go : Bool → Endpoint TX Codec → Endpoint TX Codec
  go start_throws e = run_reading (start start_throws e)

  module _ (check_for_space : Codec → Memory → List Buffer → List TX → Memory × List TX × Option ℕ)
      (check_for_message : Codec → Memory → List Buffer → Codec × Option (ℕ × ℕ)) where
    -- What the writer put into the space stays there also if it throws.
    unfoldable pub space_written :
        Endpoint TX Codec → Memory → List TX → Option ℕ → Exit (Endpoint TX Codec)
    space_written e m q none =
        threw (record e { send_buffer = record (e.send_buffer) { store = m }; txq = q })
    space_written e m q (some consumed) = returned (record e {
      send_buffer = (mark_space_used (record (e.send_buffer) { store = m }) consumed).0;
      txq = q;
    })

    unfoldable pub create_messages : Endpoint TX Codec → Exit (Endpoint TX Codec)
    create_messages e =
        let (m, q, result) =
          check_for_space e.codec e.send_buffer.store (get_space_buffers e.send_buffer) e.txq in
        space_written e m q result

    -- The second half of `run_sending`: the data, if there is some, is given to the socket.
    abbrev pub start_write : Endpoint TX Codec → Endpoint TX Codec
    start_write e =
        if get_data_available e.send_buffer == 0
        then e
        else note (started_write (get_data_buffers e.send_buffer))
            (record e { asio_sending = true })

    abbrev pub write_filled : Exit (Endpoint TX Codec) → Exit (Endpoint TX Codec)
    write_filled (threw e) = threw e
    write_filled (returned e) = returned (start_write e)

    pub run_sending : Endpoint TX Codec → Exit (Endpoint TX Codec)
    run_sending e =
        let filled =
          if get_data_available e.send_buffer == 0 then create_messages e else returned e in
        if e.asio_sending || not (is_running e.state) then returned e else write_filled filled

    -- `catch(std::exception &ex) { close(); }`
    abbrev pub or_close : Exit (Endpoint TX Codec) → Endpoint TX Codec
    or_close (returned e) = e
    or_close (threw e) = close e

    abbrev pub send_more : Exit (Endpoint TX Codec) → Exit (Endpoint TX Codec)
    send_more (threw e) = threw e
    send_more (returned e) = run_sending (record e { asio_sending = false })

    sent : ErrorCode → ℕ → Endpoint TX Codec → Endpoint TX Codec
    sent success bytes e = or_close (
        send_more
          (create_messages (record e { send_buffer = (mark_data_used e.send_buffer bytes).0 })))
    sent eof_code bytes e = eof (record e { state = record (e.state) { closed = true } })
    sent aborted bytes e = eof (record e { state = record (e.state) { closed = true } })
    sent (other_error n) bytes e = error (other_error n) e

    pub complete_sending : ErrorCode → ℕ → Endpoint TX Codec → Endpoint TX Codec
    complete_sending ec bytes e = if is_dead e.state then e else sent ec bytes e

    -- What the reader answered: a throw, or what it consumed and what it needs.
    messages_read : Option (ℕ × ℕ) → Endpoint TX Codec → Endpoint TX Codec
    messages_read none e = proto_error e
    messages_read (some (consumed, needed)) e = run_reading (record e {
      read_buffer = (mark_data_used e.read_buffer consumed).0;
      read_needed = needed;
      asio_reading = false;
    })

    received : ErrorCode → ℕ → Endpoint TX Codec → Endpoint TX Codec
    received success bytes e =
        let filled = (mark_space_used e.read_buffer bytes).0 in
        let (c, answer) = check_for_message e.codec filled.store (get_data_buffers filled) in
        messages_read answer (record e { read_buffer = filled; codec = c })
    received eof_code bytes e = eof (record e { state = record (e.state) { closed = true } })
    received aborted bytes e = eof (record e { state = record (e.state) { closed = true } })
    received (other_error n) bytes e =
        close (error (other_error n) (record e { state = record (e.state) { errored = true } }))

    -- The bytes that asio put into the space buffers are in the store of `arrived` already.
    pub complete_reading : ErrorCode → ℕ → Memory → Endpoint TX Codec → Endpoint TX Codec
    complete_reading ec bytes arrived e =
        let filled = record e { read_buffer = record (e.read_buffer) { store = arrived } } in
        if is_dead e.state then e else received ec bytes filled

    -- Where an exception leaves `run_sending`, the caller gets it and the state stays as it is.
    abbrev pub left_as_is : Exit (Endpoint TX Codec) → Endpoint TX Codec
    left_as_is (returned e) = e
    left_as_is (threw e) = e

    pub call : Call TX → Endpoint TX Codec → Endpoint TX Codec
    call (connects resolved) e = connected (connect resolved e)
    call (goes start_throws) e = go start_throws e
    call (sends s) e = (send s e).0
    call runs_sending e = left_as_is (run_sending e)
    call runs_reading e = run_reading e
    call closes e = close e
    call (completes_sending ec bytes) e = complete_sending ec bytes e
    call (completes_reading ec bytes arrived) e = complete_reading ec bytes arrived e

    pub history : List (Call TX) → Endpoint TX Codec → Endpoint TX Codec
    history [] e = e
    history (k ∷ ks) e = history ks (call k e)
