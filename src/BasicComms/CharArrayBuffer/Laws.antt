-- ===== src/BasicComms/CharArrayBuffer/Laws.antt =====
-- Writing over buffers that cover a region of a block.
use oef_mt_core.Base.{
  ℕ, suc, ◌+◌, ◌-◌, ◌≤◌, ◌<◌, ◌%◌, ◌≡◌, ap, sym, ◌∙◌, some, true, List, [], ◌∷◌, ◌++◌, arith,
  length, length-append, lt→leb_false,
}
use oef_mt_core.Base.Int.{pos, sub_ℕ_of_le}
use oef_mt_core.BasicComms.Memory.{store, locate}
use oef_mt_core.BasicComms.Window.{poke, poke-append}
use oef_mt_core.BasicComms.ConstCharArrayBuffer.{CharStream}
use oef_mt_core.BasicComms.CharArrayBuffer.{
  put_char_at, put_at, oflow, write_bytes, xsputn, remaining_space,
}

-- The positions of the stream are those of a block of `s` bytes, counted from `h` and going round.
abbrev pub Covers : CharStream → ℕ → ℕ → Type 0
Covers c s h = (k : ℕ) → k < c.size → locate c.buffers k ≡ some ((h + k) % s)

-- The stream after a run of bytes was put.
abbrev pub after : CharStream → ℕ → ℕ → List ℕ → CharStream
after c s h xs = record c {
  memory = poke c.memory s (h + c.current) xs;
  current = c.current + length xs;
}

module _ (s h : ℕ) where
  put_char_at-Covers :
      (c : CharStream) (k x : ℕ)
      → Covers c s h
      → k < c.size
      → put_char_at c k x ≡ (true, record c { memory = store c.memory ((h + k) % s) x })
  unfolding put_char_at put_at
  put_char_at-Covers c k x cover lt =
      rw (lt→leb_false c.size k lt) (ap (λ a. put_at c a x) (cover k lt))

  after-cons :
      (c : CharStream) (x : ℕ) (xs : List ℕ)
      → after
          (record c { memory = store c.memory ((h + c.current) % s) x; current = c.current + 1 })
          s
          h
          xs
        ≡ after c s h (x ∷ xs)
  unfolding poke
  after-cons c x xs = λ i. record c {
    memory = poke (store c.memory ((h + c.current) % s) x) s (one_on i) xs;
    current = far i;
  }
    where
      one_on : h + (c.current + 1) ≡ suc (h + c.current)
      one_on = omega arith

      far : c.current + 1 + length xs ≡ c.current + length (x ∷ xs)
      far = omega arith

  -- Bytes that fit are all put, in order.
  pub write_bytes-Covers :
      (c : CharStream) (xs : List ℕ)
      → Covers c s h
      → c.current + length xs ≤ c.size
      → write_bytes c xs ≡ after c s h xs
  unfolding write_bytes oflow poke
  write_bytes-Covers c [] cover fits = ap (λ (k : ℕ). record c { current = k }) (omega arith)
  write_bytes-Covers c (x ∷ xs) cover fits =
      rw
        (
          lt→leb_false c.size c.current (omega arith),
          put_char_at-Covers c c.current x cover (omega arith),
        )
        (write_bytes-Covers
            (record c { memory = store c.memory ((h + c.current) % s) x; current = c.current + 1 })
            xs cover (omega arith)
          ∙ after-cons c x xs)

  pub xsputn-Covers :
      (c : CharStream) (xs : List ℕ)
      → Covers c s h
      → c.current + length xs ≤ c.size
      → xsputn c xs ≡ after c s h xs
  unfolding xsputn poke
  xsputn-Covers c [] cover fits = ap (λ (k : ℕ). record c { current = k }) (omega arith)
  xsputn-Covers c (x ∷ xs) cover fits = rw (put_char_at-Covers c c.current x cover (omega arith)) (
      xsputn-Covers
        (record c { memory = store c.memory ((h + c.current) % s) x; current = c.current + 1 }) xs
        cover (omega arith)
      ∙ after-cons c x xs)

pub after-append :
    (c : CharStream) (s h : ℕ) (xs ys : List ℕ)
    → after (after c s h xs) s h ys ≡ after c s h (xs ++ ys)
after-append c s h xs ys = λ i. record c { memory = bytes i; current = far i }
  where
    far : c.current + length xs + length ys ≡ c.current + length (xs ++ ys)
    far = omega (arith, length-append xs ys)

    bytes :
        poke (poke c.memory s (h + c.current) xs) s (h + (c.current + length xs)) ys
        ≡ poke c.memory s (h + c.current) (xs ++ ys)
    bytes =
        ap (λ (k : ℕ). poke (poke c.memory s (h + c.current) xs) s k ys) (omega arith)
        ∙ sym (poke-append c.memory s (h + c.current) xs ys)

pub remaining_space_lem :
    (c : CharStream) → c.current ≤ c.size → remaining_space c ≡ pos (c.size - c.current)
unfolding remaining_space
remaining_space_lem c h = sub_ℕ_of_le c.size c.current h
