-- ===== src/BasicComms/EndpointBase/Rule.antt =====
-- An invariant of the endpoint need be proved for its primitive moves only.
use oef_mt_core.Base.{
  ℕ, ◌≡◌, refl, sym, subst, Bool, true, false, ◌||◌, not, List, [], ◌∷◌, Option, none, some, arith,
  inl, inr, if◌then◌else◌, ◌==◌, Bool-cases,
}
use oef_mt_core.BasicComms.Memory.{Memory, Buffer}
use oef_mt_core.BasicComms.RingBuffer.{get_data_available, get_data_buffers, mark_data_used}
use oef_mt_core.BasicComms.EndpointBase.{
  Endpoint, ErrorCode, Exit, Call, Resolved, connects, connect, connected, success, eof_code,
  aborted, other_error, returned, threw, goes, sends, runs_sending, runs_reading, closes,
  completes_sending, completes_reading, close, eof, error, proto_error, send, run_reading, go,
  create_messages, space_written, run_sending, sent, complete_sending, messages_read, received,
  complete_reading, call, start, history, or_close, send_more, start_write, write_filled,
  left_as_is, is_running, is_dead, started_write, note,
}

-- Only buffers, the queue, the codec and the two busy marks may differ.
pub record IsSilent {TX Codec : Type 0} (e e' : Endpoint TX Codec) : Type 0 where
  pub same_state : e'.state ≡ e.state
  pub same_handlers : e'.handlers ≡ e.handlers
  pub same_log : e'.log ≡ e.log

-- Whether `connect` may be among the calls is for the proposition `Allowed` to say.
pub record IsInvariant {TX Codec : Type 0} (Allowed : Type 0) (P : Endpoint TX Codec → Type 0)
    : Type 0 where
  pub connecting :
      (r : Resolved) (e : Endpoint TX Codec) → Allowed → P e → P (connected (connect r e))
  pub silent : (e e' : Endpoint TX Codec) → IsSilent e e' → P e → P e'
  pub closing : (e : Endpoint TX Codec) → P e → P (close e)
  pub marked_closed :
      (e : Endpoint TX Codec) → P e → P (record e { state = record (e.state) { closed = true } })
  pub marked_errored :
      (e : Endpoint TX Codec) → P e → P (record e { state = record (e.state) { errored = true } })
  pub ending : (e : Endpoint TX Codec) → P e → P (eof e)
  pub failing : (ec : ErrorCode) (e : Endpoint TX Codec) → P e → P (error ec e)
  pub proto_failing : (e : Endpoint TX Codec) → P e → P (proto_error e)
  pub reading : (e : Endpoint TX Codec) → P e → P (run_reading e)
  pub writing :
      (e : Endpoint TX Codec) (data_buffers : List Buffer)
      → is_running e.state ≡ true
      → P e
      → P (note (started_write data_buffers) (record e { asio_sending = true }))
  pub going : (t : Bool) (e : Endpoint TX Codec) → P e → P (start t e)

-- No call of the history is `connect`, unless it is allowed.
unfoldable pub ConnectsOnlyIf : {TX : Type 0} → Type 0 → List (Call TX) → Type 0
ConnectsOnlyIf Allowed [] = Unit
ConnectsOnlyIf Allowed (connects r ∷ ks) = Allowed × ConnectsOnlyIf Allowed ks
ConnectsOnlyIf Allowed (_ ∷ ks) = ConnectsOnlyIf Allowed ks

module _ {TX Codec : Type 0} (Allowed : Type 0) (P : Endpoint TX Codec → Type 0)
    (inv : IsInvariant Allowed P)
    (check_for_space : Codec → Memory → List Buffer → List TX → Memory × List TX × Option ℕ)
    (check_for_message : Codec → Memory → List Buffer → Codec × Option (ℕ × ℕ)) where
  abbrev InExit : Exit (Endpoint TX Codec) → Type 0
  InExit (returned e) = P e
  InExit (threw e) = P e

  -- A call of the writer changes buffers and queue only.
  abbrev SilentExit : Endpoint TX Codec → Exit (Endpoint TX Codec) → Type 0
  SilentExit e (returned e') = IsSilent e e'
  SilentExit e (threw e') = IsSilent e e'

  space_written-silent :
      (e : Endpoint TX Codec) (m : Memory) (q : List TX) (o : Option ℕ)
      → SilentExit e (space_written check_for_space check_for_message e m q o)
  unfolding space_written
  space_written-silent e m q none = ground arith
  space_written-silent e m q (some n) = ground arith

  create_messages-silent :
      (e : Endpoint TX Codec) → SilentExit e (create_messages check_for_space check_for_message e)
  unfolding create_messages
  create_messages-silent e = space_written-silent e _ _ _

  start_write-keeps :
      (e : Endpoint TX Codec)
      → is_running e.state ≡ true
      → P e
      → P (start_write check_for_space check_for_message e)
  start_write-keeps e on p = elim (Bool-cases (get_data_available e.send_buffer == 0)) [
    | inl nothing ↦ rw nothing p
    | inr some_data ↦ rw some_data (inv.writing e (get_data_buffers e.send_buffer) on p)
  ]

  write_filled-keeps :
      (e : Endpoint TX Codec) (x : Exit (Endpoint TX Codec))
      → is_running e.state ≡ true
      → P e
      → SilentExit e x
      → InExit (write_filled check_for_space check_for_message x)
  write_filled-keeps e (threw e') on p q = inv.silent e e' q p
  write_filled-keeps e (returned e') on p q =
      start_write-keeps e' (subst (λ s. is_running s ≡ true) (sym q.same_state) on)
        (inv.silent e e' q p)

  silent-keeps :
      (e : Endpoint TX Codec) (x : Exit (Endpoint TX Codec)) → SilentExit e x → P e → InExit x
  silent-keeps e (returned e') q p = inv.silent e e' q p
  silent-keeps e (threw e') q p = inv.silent e e' q p

  or_close-keeps :
      (x : Exit (Endpoint TX Codec)) → InExit x → P (or_close check_for_space check_for_message x)
  or_close-keeps (returned e) p = p
  or_close-keeps (threw e) p = inv.closing e p

  left_as_is-keeps :
      (x : Exit (Endpoint TX Codec)) → InExit x → P (left_as_is check_for_space check_for_message x)
  left_as_is-keeps (returned e) p = p
  left_as_is-keeps (threw e) p = p

  filled-silent :
      (e : Endpoint TX Codec) (b : Bool)
      → SilentExit e (if b then create_messages check_for_space check_for_message e else returned e)
  filled-silent e true = create_messages-silent e
  filled-silent e false = record { same_state = refl; same_handlers = refl; same_log = refl }

  run_sending-keeps :
      (e : Endpoint TX Codec) → P e → InExit (run_sending check_for_space check_for_message e)
  unfolding run_sending
  run_sending-keeps e p = elim (Bool-cases (e.asio_sending || not (is_running e.state))) [
    | inl early ↦ rw early p
    | inr free ↦ rw free (
        write_filled-keeps e _ (ground arith) p
          (filled-silent e (get_data_available e.send_buffer == 0)))
  ]

  send_more-keeps :
      (x : Exit (Endpoint TX Codec))
      → InExit x
      → P (
          or_close check_for_space check_for_message
            (send_more check_for_space check_for_message x))
  send_more-keeps (threw e) p = inv.closing e p
  send_more-keeps (returned e) p =
      or_close-keeps _ (run_sending-keeps _ (inv.silent e _ (ground arith) p))

  sent-keeps :
      (ec : ErrorCode) (n : ℕ) (e : Endpoint TX Codec)
      → P e
      → P (sent check_for_space check_for_message ec n e)
  unfolding sent
  sent-keeps success n e p =
      let used = record e { send_buffer = (mark_data_used e.send_buffer n).0 } in
      send_more-keeps _
        (silent-keeps used _ (create_messages-silent used) (inv.silent e used (ground arith) p))
  sent-keeps eof_code n e p = inv.ending _ (inv.marked_closed e p)
  sent-keeps aborted n e p = inv.ending _ (inv.marked_closed e p)
  sent-keeps (other_error k) n e p = inv.failing (other_error k) e p

  messages_read-keeps :
      (o : Option (ℕ × ℕ)) (e : Endpoint TX Codec)
      → P e
      → P (messages_read check_for_space check_for_message o e)
  unfolding messages_read
  messages_read-keeps none e p = inv.proto_failing e p
  messages_read-keeps (some (consumed, needed)) e p =
      inv.reading _ (inv.silent e _ (ground arith) p)

  received-keeps :
      (ec : ErrorCode) (n : ℕ) (e : Endpoint TX Codec)
      → P e
      → P (received check_for_space check_for_message ec n e)
  unfolding received
  received-keeps success n e p = messages_read-keeps _ _ (inv.silent e _ (ground arith) p)
  received-keeps eof_code n e p = inv.ending _ (inv.marked_closed e p)
  received-keeps aborted n e p = inv.ending _ (inv.marked_closed e p)
  received-keeps (other_error k) n e p =
      inv.closing _ (inv.failing (other_error k) _ (inv.marked_errored e p))

  pub call-keeps :
      (k : Call TX) (e : Endpoint TX Codec)
      → ConnectsOnlyIf Allowed (k ∷ [])
      → P e
      → P (call check_for_space check_for_message k e)
  unfolding call complete_sending complete_reading send go ConnectsOnlyIf
  call-keeps (connects r) e may p = inv.connecting r e may.0 p
  call-keeps (goes t) e may p = inv.reading _ (inv.going t e p)
  call-keeps (sends s) e may p = inv.silent e _ (ground arith) p
  call-keeps runs_sending e may p = left_as_is-keeps _ (run_sending-keeps e p)
  call-keeps runs_reading e may p = inv.reading e p
  call-keeps closes e may p = inv.closing e p
  call-keeps (completes_sending ec n) e may p = elim (Bool-cases (is_dead e.state)) [
    | inl dead ↦ rw dead p
    | inr live ↦ rw live (sent-keeps ec n e p)
  ]
  call-keeps (completes_reading ec n m) e may p = elim (Bool-cases (is_dead e.state)) [
    | inl dead ↦ rw dead p
    | inr live ↦ rw live (received-keeps ec n _ (inv.silent e _ (ground arith) p))
  ]

  first_may :
      (k : Call TX) (ks : List (Call TX))
      → ConnectsOnlyIf Allowed (k ∷ ks)
      → ConnectsOnlyIf Allowed (k ∷ [])
  unfolding ConnectsOnlyIf
  first_may (connects r) ks h = (h.0, tt)
  first_may (goes t) ks h = tt
  first_may (sends s) ks h = tt
  first_may runs_sending ks h = tt
  first_may runs_reading ks h = tt
  first_may closes ks h = tt
  first_may (completes_sending ec n) ks h = tt
  first_may (completes_reading ec n m) ks h = tt

  later_may :
      (k : Call TX) (ks : List (Call TX))
      → ConnectsOnlyIf Allowed (k ∷ ks)
      → ConnectsOnlyIf Allowed ks
  unfolding ConnectsOnlyIf
  later_may (connects r) ks h = h.1
  later_may (goes t) ks h = h
  later_may (sends s) ks h = h
  later_may runs_sending ks h = h
  later_may runs_reading ks h = h
  later_may closes ks h = h
  later_may (completes_sending ec n) ks h = h
  later_may (completes_reading ec n m) ks h = h

  -- Whatever calls come, an invariant is kept.
  pub history-keeps :
      (ks : List (Call TX)) (e : Endpoint TX Codec)
      → ConnectsOnlyIf Allowed ks
      → P e
      → P (history check_for_space check_for_message ks e)
  unfolding history
  history-keeps [] e may p = p
  history-keeps (k ∷ ks) e may p =
      history-keeps ks _ (later_may k ks may) (call-keeps k e (first_may k ks may) p)

pub always_may : {TX : Type 0} (ks : List (Call TX)) → ConnectsOnlyIf Unit ks
unfolding ConnectsOnlyIf
always_may [] = tt
always_may (connects r ∷ ks) = (tt, always_may ks)
always_may (goes t ∷ ks) = always_may ks
always_may (sends s ∷ ks) = always_may ks
always_may (runs_sending ∷ ks) = always_may ks
always_may (runs_reading ∷ ks) = always_may ks
always_may (closes ∷ ks) = always_may ks
always_may (completes_sending ec n ∷ ks) = always_may ks
always_may (completes_reading ec n m ∷ ks) = always_may ks
