-- ===== src/Nct/Sources.antt =====
-- motherboard/nct_linux.c: the temperature sources that the decoder has seen.
use libhwsense.Prelude.{
  ℕ, zero, suc, ◌+◌, ◌%◌, ◌≤◌, ◌<◌, ◌≡◌, refl, sym, Bool, false, Bool-cases, inl, inr, Option, none,
  some, ltb, ◌==◌, ◌||◌, if◌then◌else◌, arith,
}
use libhwsense.Prelude.Int.{ℤ}
use libhwsense.Prelude.Word.{
  test_bit, set_bit, test_bit-set_bit_self, test_bit-set_bit_ne, test_bit_zero,
}
use libhwsense.Slots.{Slots, push, push?, scan}
use libhwsense.Superio.{max_temps}
use libhwsense.Nct.{temp_value, on_temp, on_value, on_source, temp_at, temp_rounds}

-- how many of the bits below `n` are set
unfoldable pub bits_below : ℕ → ℕ → ℕ
bits_below zero x = 0
bits_below (suc n) x = (if test_bit x n then 1 else 0) + bits_below n x

bits_above : (n i x : ℕ) → n ≤ i → bits_below n (set_bit x i) ≡ bits_below n x
unfolding bits_below
bits_above zero i x h = refl
bits_above (suc n) i x h =
    rw (test_bit-set_bit_ne x i n (omega arith)) (omega (arith, bits_above n i x (omega arith)))

bits_set :
    (n i x : ℕ) → i < n → test_bit x i ≡ false → bits_below n (set_bit x i) ≡ bits_below n x + 1
unfolding bits_below
bits_set zero i x lt h = elim lt [ ]
bits_set (suc n) i x lt h = elim (Bool-cases (i == n)) [
  | inl e ↦ at_top (ground arith)
  | inr e ↦
      rw (test_bit-set_bit_ne x i n (ground arith)) (omega (arith, bits_set n i x (ground arith) h))
]
  where
    at_top :
        i ≡ n
        → (if test_bit (set_bit x i) n then 1 else 0) + bits_below n (set_bit x i)
          ≡ (if test_bit x n then 1 else 0) + bits_below n x + 1
    at_top e =
        rw (sym e, h, test_bit-set_bit_self x i) (omega (arith, bits_above i i x (omega arith)))

no_bits : (n : ℕ) → bits_below n 0 ≡ 0
unfolding bits_below
no_bits zero = refl
no_bits (suc n) = rw (test_bit_zero n) (omega (arith, no_bits n))

-- whether a round gave a temperature, as a number
abbrev given : Option ℤ → ℕ
given none = 0
given (some t) = 1

module _ {S : Type 0} (rd : S → ℕ → Option ℕ × S) where
  on_temp_bits :
      (src seen : ℕ) (o : Option ℤ) (s : S)
      → src < 32
      → test_bit seen src ≡ false
      → let (t, (seen', s')) = on_temp rd src seen o s in
        bits_below 32 seen' ≡ bits_below 32 seen + given t
  unfolding on_temp
  on_temp_bits src seen none s lt h = omega arith
  on_temp_bits src seen (some t) s lt h = bits_set 32 src seen lt h

  on_value_bits :
      (reg src seen : ℕ) (o : Option ℕ) (s : S)
      → src < 32
      → test_bit seen src ≡ false
      → let (t, (seen', s')) = on_value rd reg src seen (o, s) in
        bits_below 32 seen' ≡ bits_below 32 seen + given t
  unfolding on_value
  on_value_bits reg src seen none s lt h = omega arith
  on_value_bits reg src seen (some v) s lt h = on_temp_bits src seen (temp_value reg v) s lt h

  on_source_bits :
      (reg seen : ℕ) (o : Option ℕ) (s : S)
      → let (t, (seen', s')) = on_source rd reg seen (o, s) in
        bits_below 32 seen' ≡ bits_below 32 seen + given t
  unfolding on_source
  on_source_bits reg seen none s = omega arith
  on_source_bits reg seen (some v) s = elim (Bool-cases (v % 32 == 0 || test_bit seen (v % 32))) [
    | inl e ↦ rw e (omega arith)
    | inr e ↦ rw e (on_value_bits reg (v % 32) seen _ _ (omega arith) (ground arith))
  ]

  temp_at_bits :
      (second : Bool) (i : ℕ) (s : ℕ × S)
      → let (t, (seen', s')) = temp_at rd second i s in
        bits_below 32 seen' ≡ bits_below 32 s.0 + given t
  unfolding temp_at
  temp_at_bits second i (seen, s) = on_source_bits _ seen _ _

  count_push : (a : Slots ℤ) (o : Option ℤ) → (push? a o).count ≡ a.count + given o
  unfolding push? push
  count_push a none = omega arith
  count_push a (some t) = refl

  scan_bits :
      (second : Bool) (n i : ℕ) (s : ℕ × S) (a : Slots ℤ)
      → let ((seen', s'), a') = scan max_temps (temp_at rd second) n i s a in
        bits_below 32 seen' + a.count ≡ bits_below 32 s.0 + a'.count
  unfolding scan
  scan_bits second zero i s a = refl
  scan_bits second (suc n) i s a = elim (Bool-cases (ltb a.count max_temps)) [
    | inl e ↦
        rw (e, scan)
          (omega (
            arith,
            scan_bits second n (i + 1) (temp_at rd second i s).1
                (push? a (temp_at rd second i s).0),
            count_push a (temp_at rd second i s).0,
            temp_at_bits second i s,
          ))
    | inr e ↦ rw (e, scan) refl
  ]

  -- The loop over the temperature registers, from no source seen on, adds exactly as many temperatures
  -- as it has seen different sources: each source that is reported is reported once, however many
  -- registers select it.
  pub sources_lem :
      (second : Bool) (s : S) (a : Slots ℤ)
      → let ((seen', s'), a') =
          scan max_temps (temp_at rd second) (temp_rounds second) 0 (0, s) a in
        a'.count ≡ a.count + bits_below 32 seen'
  sources_lem second s a =
      omega (arith, scan_bits second (temp_rounds second) 0 (0, s) a, no_bits 32)
