-- ===== src/Ite/Hw/Simulation.antt =====
-- motherboard/ite_decode.c: the decoder over two kinds of callbacks that agree.
use libhwsense.Prelude.{
  ℕ, zero, suc, ◌+◌, ◌≡◌, refl, ap, Bool, Bool-cases, inl, inr, Option, none, some, ltb, get_or,
  length, ◌==◌,
}
use libhwsense.Slots.{Slots, scan, push?}
use libhwsense.Superio.{SuperioResult, max_temps, max_fans, max_voltages}
use libhwsense.Ite.{
  IteChip, find_chip, ite_reg_bank, ite_vin, ite_fan_lo, ite_fan_hi, bank_bits, bank_zero,
  decode_temp, decode_voltage, temp_at, fan_at, voltage_at, read_inputs, finish,
  decode_in_bank_zero, decode_bank, decode_found, decode,
}

-- Equal results, and states that are related.
abbrev pub Agree : {S T A : Type 0} (R : S → T → Type 0) → A × S → A × T → Type 0
Agree R (a, s) (b, t) = (a ≡ b) × R s t

-- Equal results of the decoder, and states that are related.
abbrev pub Agrees :
    {S T : Type 0} (R : S → T → Type 0)
    → Bool × S × SuperioResult
    → Bool × T × SuperioResult
    → Type 0
Agrees R (ok, s, r) (ok', t, r') = (ok ≡ ok') × R s t × (r ≡ r')

module _ {S T A : Type 0} (R : S → T → Type 0) (max : ℕ) (f : ℕ → S → Option A × S)
    (g : ℕ → T → Option A × T) (h : (i : ℕ) (s : S) (t : T) → R s t → Agree R (f i s) (g i t)) where
  scan_agrees :
      (n i : ℕ) (s : S) (t : T) (a : Slots A)
      → R s t
      → let (s', a') = scan max f n i s a in
        let (t', b') = scan max g n i t a in R s' t' × (a' ≡ b')
  unfolding scan
  scan_agrees zero i s t a r = (r, refl)
  scan_agrees (suc n) i s t a r =
      let (e, r') = h i s t r in
      elim (Bool-cases (ltb a.count max)) [
        | inl l ↦ rw (l, e, scan) (scan_agrees n (i + 1) _ _ (push? a (g i t).0) r')
        | inr l ↦ rw (l, scan) (r, refl)
      ]

module _ {S T : Type 0} (rd : S → ℕ → Option ℕ × S) (wr : S → ℕ → ℕ → S)
    (rd' : T → ℕ → Option ℕ × T) (wr' : T → ℕ → ℕ → T) (R : S → T → Type 0)
    (reads : (s : S) (t : T) (reg : ℕ) → R s t → Agree R (rd s reg) (rd' t reg))
    (writes : (s : S) (t : T) (reg v : ℕ) → R s t → R (wr s reg v) (wr' t reg v)) where
  temp_agrees : (i : ℕ) (s : S) (t : T) → R s t → Agree R (temp_at rd wr i s) (temp_at rd' wr' i t)
  unfolding temp_at
  temp_agrees i s t r = let (e, r') = reads s t (0x29 + i) r in (ap decode_temp e, r')

  fan_agrees : (i : ℕ) (s : S) (t : T) → R s t → Agree R (fan_at rd wr i s) (fan_at rd' wr' i t)
  unfolding fan_at
  fan_agrees i s t r =
      let (e, r₁) = reads s t (get_or ite_fan_lo i 0) r in
      let (e', r₂) = reads _ _ (get_or ite_fan_hi i 0) r₁ in (rw (e, e') refl, r₂)

  voltage_agrees :
      (lsb i : ℕ) (s : S) (t : T)
      → R s t
      → Agree R (voltage_at rd wr lsb i s) (voltage_at rd' wr' lsb i t)
  unfolding voltage_at
  voltage_agrees lsb i s t r =
      let (e, r') = reads s t (get_or ite_vin i 0) r in (ap (decode_voltage lsb i) e, r')

  inputs_agree :
      (chip : IteChip) (s : S) (t : T) (r : SuperioResult)
      → R s t
      → let (s', r₁) = read_inputs rd wr chip s r in
        let (t', r₂) = read_inputs rd' wr' chip t r in R s' t' × (r₁ ≡ r₂)
  unfolding read_inputs
  inputs_agree chip s t r h =
      let (h₁, e₁) =
        scan_agrees R max_temps (temp_at rd wr) (temp_at rd' wr') temp_agrees chip.temps 0 s t
          r.temps h in
      let (h₂, e₂) =
        scan_agrees R max_fans (fan_at rd wr) (fan_at rd' wr') fan_agrees chip.fans 0 _ _ r.fans
          h₁ in
      let (h₃, e₃) =
        scan_agrees R max_voltages (voltage_at rd wr chip.adc_lsb_x10)
          (voltage_at rd' wr' chip.adc_lsb_x10) (voltage_agrees chip.adc_lsb_x10) (length ite_vin) 0
          _ _ r.voltages h₂ in
      (h₃, λ i. record r { temps = e₁ i; fans = e₂ i; voltages = e₃ i })

  in_bank_zero_agrees :
      (id : ℕ) (chip : IteChip) (b : ℕ) (s : S) (t : T) (r : SuperioResult)
      → R s t
      → let (s', r₁) = decode_in_bank_zero rd wr id chip b s r in
        let (t', r₂) = decode_in_bank_zero rd' wr' id chip b t r in R s' t' × (r₁ ≡ r₂)
  unfolding decode_in_bank_zero
  in_bank_zero_agrees id chip b s t r h = elim (Bool-cases (bank_bits b == 0)) [
    | inl e ↦ let (h', e') = inputs_agree chip s t r h in rw e (h', ap (finish id chip) e')
    | inr e ↦
        let (h', e') = inputs_agree chip _ _ r (writes s t ite_reg_bank (bank_zero b) h) in
        rw e (writes _ _ ite_reg_bank b h', ap (finish id chip) e')
  ]

  bank-Agrees :
      (id : ℕ) (chip : IteChip) (o o' : Option ℕ) (s : S) (t : T) (r : SuperioResult)
      → o ≡ o'
      → R s t
      → Agrees R (decode_bank rd wr id chip (o, s) r) (decode_bank rd' wr' id chip (o', t) r)
  unfolding decode_bank
  bank-Agrees id chip o none s t r e h = rw e (refl, h, refl)
  bank-Agrees id chip o (some b) s t r e h =
      let (h', e') = in_bank_zero_agrees id chip b s t r h in rw e (ap (λ r. r.ok) e', h', e')

  found-Agrees :
      (id : ℕ) (c : Option IteChip) (s : S) (t : T) (r : SuperioResult)
      → R s t
      → Agrees R (decode_found rd wr id c s r) (decode_found rd' wr' id c t r)
  unfolding decode_found
  found-Agrees id none s t r h = (refl, h, refl)
  found-Agrees id (some chip) s t r h =
      let (e, h') = reads s t ite_reg_bank h in bank-Agrees id chip _ _ _ _ r e h'

  -- Over callbacks that agree the decoder gives the same result, and leaves related states.
  pub decode-Agrees :
      (id : ℕ) (s : S) (t : T) (r : SuperioResult)
      → R s t
      → Agrees R (decode rd wr id s r) (decode rd' wr' id t r)
  unfolding decode
  decode-Agrees id s t r h = found-Agrees id (find_chip id) s t r h
