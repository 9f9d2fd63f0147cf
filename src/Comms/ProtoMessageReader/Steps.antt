-- ===== src/Comms/ProtoMessageReader/Steps.antt =====
-- One pass of the loop, by what is left to read.
use oef_mt_core.Base.{ℕ, suc, ◌+◌, ◌-◌, ◌≤◌, ◌<◌, ◌≡◌, arith, lt→ltb, le→ltb_false}
use oef_mt_core.Base.Int.{pos, ◌-ℤ◌, to_size}
use oef_mt_core.BasicComms.ConstCharArrayBuffer.{CharStream, limited_to, remaining_data, advance}
use oef_mt_core.Comms.ProtoMessageReader.{
  Reader, Check, size_of, consumed_needed, threw, refuses_incoming, head_size, deliver, stop,
  after_delivery, read_header, with_body, rounds,
}

pub missing_size : (n k : ℕ) → k ≤ n → to_size (pos n -ℤ pos k) ≡ n - k
unfolding ◌-ℤ◌
missing_size n k h = ground arith

module _ (r : Reader) (c : CharStream) (consumed k : ℕ) (left : remaining_data c ≡ pos k) where
  pub rounds-short :
      (fuel : ℕ)
      → k < 4
      → rounds (suc fuel) r c consumed ≡ stop r (consumed_needed consumed (4 - k))
  unfolding rounds
  rounds-short fuel h = rw (left, lt→ltb (k + 0) 4 (omega arith), missing_size 4 k (omega arith))

  pub rounds-long :
      (fuel : ℕ)
      → 4 ≤ k
      → rounds (suc fuel) r c consumed
        ≡ with_body (rounds fuel) consumed (read_header r r.endianness c)
  unfolding rounds
  rounds-long fuel h = rw (left, le→ltb_false (k + 0) 4 (omega arith))

  pub with_body-short :
      (again : Reader → CharStream → ℕ → Check) (n : ℕ)
      → n ≤ 10000
      → k < n
      → with_body again consumed (size_of n c r) ≡ stop r (consumed_needed consumed (n - k))
  unfolding with_body
  with_body-short again n small h =
      rw (left, le→ltb_false 10000 n small, lt→ltb k n h, missing_size n k (omega arith))

  pub with_body-whole :
      (again : Reader → CharStream → ℕ → Check) (n : ℕ)
      → n ≤ 10000
      → n ≤ k
      → with_body again consumed (size_of n c r)
        ≡ after_delivery
            (deliver r (limited_to c (c.current + n)))
            (again r (advance c n) (consumed + head_size + n))
  unfolding with_body
  with_body-whole again n small h = rw (left, le→ltb_false 10000 n small, le→ltb_false k n h)

pub with_body-refused :
    (again : Reader → CharStream → ℕ → Check) (r : Reader) (c : CharStream) (consumed n : ℕ)
    → 10000 < n
    → with_body again consumed (size_of n c r) ≡ stop r (threw (refuses_incoming n))
unfolding with_body
with_body-refused again r c consumed n h = rw (lt→ltb 10000 n h)
