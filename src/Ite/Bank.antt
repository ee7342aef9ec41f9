-- ===== src/Ite/Bank.antt =====
-- motherboard/ite_decode.c: the register bank, which another driver can have left anywhere.
use libhwsense.Prelude.{
  ℕ, ◌<◌, ◌≡◌, refl, ap, Option, none, some, Bool-cases, inl, inr, length, arith, ◌==◌, ◌++◌, ◌-◌,
  ◌+◌, take, get_or,
}
use libhwsense.Slots.{readings}
use libhwsense.Slots.Laws.{scan_lem, yields}
use libhwsense.Superio.{SuperioResult, FitsArrays, max_temps, max_fans, max_voltages}
use libhwsense.Ite.{
  IteChip, find_chip, ite_reg_bank, ite_vin, ite_fan_lo, ite_fan_hi, bank_bits, bank_zero,
  decode_temp, decode_fan, decode_voltage, temp_at, fan_at, voltage_at, read_inputs, finish,
  decode_in_bank_zero, decode_bank, decode_found, decode,
}

-- What the decoder relies on: reads change nothing, the bank register is a byte and can be read back, the last
-- write to it counts, and writing back what it holds changes nothing.
pub record IsBanked {S : Type 0} (rd : S → ℕ → Option ℕ × S) (wr : S → ℕ → ℕ → S) : Type 0 where
  pub rd_keeps : (s : S) (reg : ℕ) → (rd s reg).1 ≡ s
  pub bank_byte : (s : S) (b : ℕ) → (rd s ite_reg_bank).0 ≡ some b → b < 256
  pub rd_back : (s : S) (v : ℕ) → v < 256 → (rd (wr s ite_reg_bank v) ite_reg_bank).0 ≡ some v
  pub wr_last : (s : S) (v w : ℕ) → wr (wr s ite_reg_bank v) ite_reg_bank w ≡ wr s ite_reg_bank w
  pub wr_same : (s : S) (b : ℕ) → (rd s ite_reg_bank).0 ≡ some b → wr s ite_reg_bank b ≡ s

module _ {S : Type 0} (rd : S → ℕ → Option ℕ × S) (wr : S → ℕ → ℕ → S) (law : IsBanked rd wr) where
  temp_pure : (s : S) (i : ℕ) → temp_at rd wr i s ≡ (decode_temp (rd s (0x29 + i)).0, s)
  unfolding temp_at
  temp_pure s i = ap (λ s'. (decode_temp (rd s (0x29 + i)).0, s')) (law.rd_keeps s (0x29 + i))

  fan_pure :
      (s : S) (i : ℕ)
      → fan_at rd wr i s
        ≡ (decode_fan (rd s (get_or ite_fan_lo i 0)).0 (rd s (get_or ite_fan_hi i 0)).0, s)
  unfolding fan_at
  fan_pure s i = rw (law.rd_keeps s (get_or ite_fan_lo i 0), law.rd_keeps s (get_or ite_fan_hi i 0))

  voltage_pure :
      (lsb : ℕ) (s : S) (i : ℕ)
      → voltage_at rd wr lsb i s ≡ (decode_voltage lsb i (rd s (get_or ite_vin i 0)).0, s)
  unfolding voltage_at
  voltage_pure lsb s i =
      ap (λ s'. (decode_voltage lsb i (rd s (get_or ite_vin i 0)).0, s'))
        (law.rd_keeps s (get_or ite_vin i 0))

  -- With plain reads the loops leave the chip alone and append, to the readings that the result holds,
  -- the decoded values of the chip's inputs in order, as far as the arrays reach.
  pub read_inputs_lem :
      (chip : IteChip) (s : S) (r : SuperioResult)
      → FitsArrays r
      → let (s', r') = read_inputs rd wr chip s r in
        (s' ≡ s)
        × (readings r'.temps
            ≡ readings r.temps
              ++ take
                  (max_temps - r.temps.count)
                  (yields (λ i. decode_temp (rd s (0x29 + i)).0) chip.temps 0))
        × (readings r'.fans
            ≡ readings r.fans
              ++ take (max_fans - r.fans.count) (
                  yields
                    (λ i.
                      decode_fan (rd s (get_or ite_fan_lo i 0)).0 (rd s (get_or ite_fan_hi i 0)).0)
                    chip.fans
                    0))
        × (readings r'.voltages
            ≡ readings r.voltages
              ++ take (max_voltages - r.voltages.count) (
                  yields
                    (λ i. decode_voltage chip.adc_lsb_x10 i (rd s (get_or ite_vin i 0)).0)
                    (length ite_vin)
                    0))
  unfolding read_inputs
  read_inputs_lem chip s r fits =
      let (e₁, t) =
        scan_lem max_temps (temp_at rd wr) s _ (temp_pure s) chip.temps 0 r.temps fits.temps_fit in
      let (e₂, f) =
        scan_lem max_fans (fan_at rd wr) s _ (fan_pure s) chip.fans 0 r.fans fits.fans_fit in
      let (e₃, v) =
        scan_lem max_voltages (voltage_at rd wr chip.adc_lsb_x10) s _
          (voltage_pure chip.adc_lsb_x10 s) (length ite_vin) 0 r.voltages fits.voltages_fit in
      rw (e₁, e₂) (e₃, t, f, v)

  read_inputs_keeps :
      (chip : IteChip) (s : S) (r : SuperioResult)
      → FitsArrays r
      → (read_inputs rd wr chip s r).0 ≡ s
  read_inputs_keeps chip s r fits = (read_inputs_lem chip s r fits).0

  -- Selecting bank 0 first, and the old bank afterwards, is the same as reading in bank 0 a chip that
  -- then stands as it stood.
  in_bank_zero_lem :
      (id : ℕ) (chip : IteChip) (b : ℕ) (s : S) (r : SuperioResult)
      → (rd s ite_reg_bank).0 ≡ some b
      → FitsArrays r
      → decode_in_bank_zero rd wr id chip b s r
        ≡ (s, finish id chip (read_inputs rd wr chip (wr s ite_reg_bank (bank_zero b)) r).1)
  unfolding decode_in_bank_zero
  in_bank_zero_lem id chip b s r holds fits = elim (Bool-cases (bank_bits b == 0)) [
    | inl e ↦
        let small = law.bank_byte s b holds in
        let z : bank_zero b ≡ b = ground arith in
        rw (e, z, law.wr_same s b holds, read_inputs_keeps chip s r fits)
    | inr e ↦ rw (
      e,
      read_inputs_keeps chip (wr s ite_reg_bank (bank_zero b)) r fits,
      law.wr_last s (bank_zero b) b,
      law.wr_same s b holds,
    )
  ]

  read_bank : (s : S) (o : Option ℕ) → (rd s ite_reg_bank).0 ≡ o → rd s ite_reg_bank ≡ (o, s)
  read_bank s o e = λ i. (e i, law.rd_keeps s ite_reg_bank i)

  bank_found :
      (id : ℕ) (chip : IteChip) (s : S) (r : SuperioResult) (b : ℕ)
      → (rd s ite_reg_bank).0 ≡ some b
      → FitsArrays r
      → let r' = finish id chip (read_inputs rd wr chip (wr s ite_reg_bank (bank_zero b)) r).1 in
        decode_found rd wr id (some chip) s r ≡ (r'.ok, s, r')
  unfolding decode_found decode_bank
  bank_found id chip s r b holds fits =
      rw (read_bank s (some b) holds, in_bank_zero_lem id chip b s r holds fits)

  found_restores :
      (id : ℕ) (c : Option IteChip) (o : Option ℕ) (s : S) (r : SuperioResult)
      → (rd s ite_reg_bank).0 ≡ o
      → FitsArrays r
      → (decode_found rd wr id c s r).1 ≡ s
  unfolding decode_found decode_bank
  found_restores id none o s r e fits = refl
  found_restores id (some chip) none s r e fits = rw (read_bank s none e)
  found_restores id (some chip) (some b) s r e fits =
      ap (λ t. t.1) (bank_found id chip s r b e fits)

  -- The decoder leaves the chip as it was, the register bank included, whether the chip is known, its
  -- bank register readable or its inputs connected.
  pub decode-restores :
      (id : ℕ) (s : S) (r : SuperioResult) → FitsArrays r → (decode rd wr id s r).1 ≡ s
  unfolding decode
  decode-restores id s r fits = found_restores id (find_chip id) _ s r refl fits
