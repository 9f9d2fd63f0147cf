-- ===== src/BasicComms/EndpointBase/Life.antt =====
-- What a closed or failed endpoint still does.
use oef_mt_core.Base.{ℕ, suc, ◌≡◌, refl, ap, ◌∙◌, true, List, [], ◌∷◌, Option, arith}
use oef_mt_core.BasicComms.Memory.{Memory, Buffer}
use oef_mt_core.BasicComms.EndpointBase.{
  Endpoint, Action, Call, started_write, started_read, close, eof, error, proto_error, run_reading,
  start, history, is_running, is_dead,
}
use oef_mt_core.BasicComms.EndpointBase.Rule.{IsInvariant, ConnectsOnlyIf, history-keeps}

-- The transfers that were started, in either direction.
abbrev pub transfers : List Action → ℕ
transfers [] = 0
transfers (started_write bs ∷ more) = suc (transfers more)
transfers (started_read bs n ∷ more) = suc (transfers more)
transfers (_ ∷ more) = transfers more

abbrev IsOver : {TX Codec : Type 0} → ℕ → Endpoint TX Codec → Type 0
IsOver n e = (is_dead e.state ≡ true) × (transfers e.log ≡ n)

module _ {TX Codec : Type 0} where
  IsOver-invariant : (n : ℕ) → IsInvariant {TX = TX} {Codec = Codec} ⊥ (IsOver n)
  unfolding close eof error proto_error run_reading start is_dead is_running
  IsOver-invariant n = record {
    connecting = λ r e may p. absurd may;
    silent = λ e e' q p. (ap is_dead q.same_state ∙ p.0, ap transfers q.same_log ∙ p.1);
    closing = λ e p. ground arith;
    marked_closed = λ e p. ground arith;
    marked_errored = λ e p. ground arith;
    ending = λ e p. ground arith;
    failing = λ ec e p. ground arith;
    proto_failing = λ e p. ground arith;
    reading = λ e p. ground arith;
    writing = λ e bs on p. ground arith;
    going = λ t e p. ground arith;
  }

  -- An endpoint that was closed, came to the end of file or failed stays so, and starts no read or
  -- write ever again, whatever calls but `connect` and whatever completions still come.
  pub dead_for_good :
      (check_for_space : Codec → Memory → List Buffer → List TX → Memory × List TX × Option ℕ)
      (check_for_message : Codec → Memory → List Buffer → Codec × Option (ℕ × ℕ))
      (ks : List (Call TX)) (e : Endpoint TX Codec)
      → ConnectsOnlyIf ⊥ ks
      → is_dead e.state ≡ true
      → (is_dead (history check_for_space check_for_message ks e).state ≡ true)
        × (transfers (history check_for_space check_for_message ks e).log ≡ transfers e.log)
  dead_for_good write read ks e no_connect dead =
      history-keeps ⊥ (IsOver (transfers e.log)) (IsOver-invariant (transfers e.log)) write read ks
        e no_connect (dead, refl)
