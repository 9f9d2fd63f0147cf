-- ===== src/BasicComms/EndpointBase/Notices.antt =====
-- How often the owner of an endpoint hears of its end.
use oef_mt_core.Base.{
  ℕ, ◌+◌, ◌≤◌, ◌≡◌, Bool, true, false, ◌||◌, List, [], ◌∷◌, Option, arith, if◌then◌else◌,
}
use oef_mt_core.BasicComms.Memory.{Memory, Buffer}
use oef_mt_core.BasicComms.EndpointBase.Rule.{IsInvariant, always_may, history-keeps}
use oef_mt_core.BasicComms.EndpointBase.{
  Endpoint, Handlers, Action, ErrorCode, Call, Resolved, connect, connected, called_eof,
  called_error, called_proto_error, close, eof, error, proto_error, run_reading, start, history,
}

-- Calls of the handlers for the end of file, an error or a protocol error.
abbrev pub is_notice : Action → Bool
is_notice called_eof = true
is_notice (called_error ec) = true
is_notice called_proto_error = true
is_notice _ = false

abbrev pub notices : List Action → ℕ
notices [] = 0
notices (a ∷ more) = (if is_notice a then 1 else 0) + notices more

-- A notice that could still be given.
abbrev left : Handlers → ℕ
left h = if h.on_eof || (h.on_error || h.on_proto_error) then 1 else 0

abbrev given_or_left : {TX Codec : Type 0} → Endpoint TX Codec → ℕ
given_or_left e = notices e.log + left e.handlers

module _ {TX Codec : Type 0} where
  close-notices : (e : Endpoint TX Codec) → given_or_left (close e) ≤ given_or_left e
  unfolding close
  close-notices e = omega arith

  connect-notices :
      (r : Resolved) (e : Endpoint TX Codec)
      → given_or_left (connected (connect r e)) ≤ given_or_left e
  unfolding connect
  connect-notices r e = ground arith

  eof-notices : (e : Endpoint TX Codec) → given_or_left (eof e) ≤ given_or_left e
  unfolding eof
  eof-notices e = ground arith

  error-notices :
      (ec : ErrorCode) (e : Endpoint TX Codec) → given_or_left (error ec e) ≤ given_or_left e
  unfolding error
  error-notices ec e = ground arith

  proto_error-notices : (e : Endpoint TX Codec) → given_or_left (proto_error e) ≤ given_or_left e
  unfolding proto_error
  proto_error-notices e = ground arith

  run_reading-notices : (e : Endpoint TX Codec) → given_or_left (run_reading e) ≤ given_or_left e
  unfolding run_reading
  run_reading-notices e = ground arith

  start-notices : (t : Bool) (e : Endpoint TX Codec) → given_or_left (start t e) ≤ given_or_left e
  unfolding start
  start-notices t e = ground arith

  -- At most `n` notices were given or can still be given.
  abbrev Within : ℕ → Endpoint TX Codec → Type 0
  Within n e = given_or_left e ≤ n

  notices-invariant : (n : ℕ) → IsInvariant Unit (Within n)
  notices-invariant n = record {
    connecting = λ r e may p. omega (arith, connect-notices r e, p);
    silent = λ e e' q p. rw (q.same_log, q.same_handlers) p;
    closing = λ e p. omega (arith, close-notices e);
    marked_closed = λ e p. p;
    marked_errored = λ e p. p;
    ending = λ e p. omega (arith, eof-notices e);
    failing = λ ec e p. omega (arith, error-notices ec e);
    proto_failing = λ e p. omega (arith, proto_error-notices e);
    reading = λ e p. omega (arith, run_reading-notices e);
    writing = λ e bs on p. omega arith;
    going = λ t e p. omega (arith, start-notices t e);
  }

  -- Whatever calls and completions come, in whatever order, and whatever reader and writer do: the
  -- owner of an endpoint hears of its end at most once, by one of the handlers for the end of file,
  -- for an error and for a protocol error.
  pub notices_at_most_once :
      (check_for_space : Codec → Memory → List Buffer → List TX → Memory × List TX × Option ℕ)
      (check_for_message : Codec → Memory → List Buffer → Codec × Option (ℕ × ℕ))
      (ks : List (Call TX)) (e : Endpoint TX Codec)
      → notices e.log ≡ 0
      → notices (history check_for_space check_for_message ks e).log ≤ 1
  notices_at_most_once write read ks e none_yet =
      let kept =
        history-keeps Unit (Within 1) (notices-invariant 1) write read ks e (always_may ks)
          (ground arith) in
      omega (arith, kept)
