-- ===== src/Ite/Values.antt =====
-- motherboard/ite_decode.c: the range of the values that the decoder records.
use libhwsense.Prelude.{
  ℕ, ◌*◌, ◌/◌, ◌≤◌, ◌<◌, ◌≡◌, ◌≢◌, refl, Option, none, some, List, [], ◌∷◌, length, All, arith,
}
use native.Mathlib.Nat.{le-div_iff_mul-le, div-le_of_le-mul}
use libhwsense.Prelude.Int.{ℤ, pos, negsuc, ◌≤ℤ◌}
use libhwsense.Prelude.Word.{word}
use libhwsense.Slots.{readings}
use libhwsense.Slots.Laws.{scan-All}
use libhwsense.Superio.{SuperioResult, FitsArrays, max_temps, max_fans, max_voltages}
use libhwsense.Ite.{
  IteChip, ite_chips, ite_vin, find_in, find_chip, decode_temp, decode_fan, decode_voltage, temp_at,
  fan_at, voltage_at, read_inputs, finish, decode_in_bank_zero, decode_bank, decode_found, decode,
}

-- between -127 and 127 degrees, and not 0
abbrev pub IsTemp : ℤ → Type 0
IsTemp t = (negsuc 126 ≤ℤ t) × (t ≤ℤ pos 127) × (t ≢ pos 0)

-- between 10 and 675000 revolutions per minute
abbrev pub IsFan : ℤ → Type 0
IsFan f = (pos 10 ≤ℤ f) × (f ≤ℤ pos 675000)

-- between 0 and 6.12 V, in units of 10 µV
abbrev pub IsVoltage : ℤ → Type 0
IsVoltage v = (pos 0 ≤ℤ v) × (v ≤ℤ pos 612000)

pub record InRange (r : SuperioResult) : Type 0 where
  pub temps_in : All IsTemp (readings r.temps)
  pub fans_in : All IsFan (readings r.fans)
  pub voltages_in : All IsVoltage (readings r.voltages)

-- what a read of a register returns: a byte, if anything
abbrev pub IsByte : Option ℕ → Type 0
IsByte o = (b : ℕ) → o ≡ some b → b < 256

decode_temp-IsTemp : (o : Option ℕ) (t : ℤ) → decode_temp o ≡ some t → IsTemp t
unfolding decode_temp
decode_temp-IsTemp none t h = ground arith
decode_temp-IsTemp (some b) t h = ground arith

rpm_bounds :
    (raw : ℕ) → 0 < raw → raw < 65535 → (10 ≤ 1350000 / (raw * 2)) × (1350000 / (raw * 2) ≤ 675000)
rpm_bounds raw lo hi =
    ((le-div_iff_mul-le (omega arith)).1 (omega arith), div-le_of_le-mul (raw * 2) (omega arith))

decode_fan-IsFan :
    (lo hi : Option ℕ) (f : ℤ) → IsByte lo → IsByte hi → decode_fan lo hi ≡ some f → IsFan f
unfolding decode_fan
decode_fan-IsFan none hi f bl bh h = ground arith
decode_fan-IsFan (some lo) none f bl bh h = ground arith
decode_fan-IsFan (some lo) (some hi) f bl bh h =
    ground (arith, bl lo refl, bh hi refl, rpm_bounds (word hi lo))

-- no chip of the table has an ADC step above 12 mV
find_in-lsb :
    (id : ℕ) (chip : IteChip) (cs : List IteChip)
    → All (λ (c : IteChip). c.adc_lsb_x10 ≤ 120) cs
    → find_in cs id ≡ some chip
    → chip.adc_lsb_x10 ≤ 120
unfolding find_in
find_in-lsb id chip [] all h = ground arith
find_in-lsb id chip (c ∷ cs) (le, all) h = ground (arith, find_in-lsb id chip cs all)

product_bound : (x lsb : ℕ) → x < 256 → lsb ≤ 240 → x * lsb * 10 ≤ 612000
product_bound x lsb hx hl = grind arith

decode_voltage-IsVoltage :
    (lsb i : ℕ) (o : Option ℕ) (v : ℤ)
    → lsb ≤ 120
    → IsByte o
    → decode_voltage lsb i o ≡ some v
    → IsVoltage v
unfolding decode_voltage
decode_voltage-IsVoltage lsb i none v le b h = ground arith
decode_voltage-IsVoltage lsb i (some x) v le b h =
    ground (arith, b x refl, product_bound x lsb, product_bound x (lsb * 2))

module _ {S : Type 0} (rd : S → ℕ → Option ℕ × S) (wr : S → ℕ → ℕ → S)
    (bytes : (s : S) (reg : ℕ) → IsByte (rd s reg).0) where
  read_inputs-InRange :
      (chip : IteChip) (s : S) (r : SuperioResult)
      → chip.adc_lsb_x10 ≤ 120
      → FitsArrays r
      → InRange r
      → InRange (read_inputs rd wr chip s r).1
  unfolding read_inputs temp_at fan_at voltage_at
  read_inputs-InRange chip s r le fits h = record {
    temps_in =
        scan-All max_temps (temp_at rd wr) IsTemp (λ i s t e. decode_temp-IsTemp _ t e) chip.temps 0
          s r.temps fits.temps_fit h.temps_in;
    fans_in =
        scan-All max_fans (fan_at rd wr) IsFan
          (λ i s f e. decode_fan-IsFan _ _ f (bytes _ _) (bytes _ _) e) chip.fans 0 _ r.fans
          fits.fans_fit h.fans_in;
    voltages_in =
        scan-All max_voltages (voltage_at rd wr chip.adc_lsb_x10) IsVoltage
          (λ i s v e. decode_voltage-IsVoltage chip.adc_lsb_x10 i _ v le (bytes _ _) e)
          (length ite_vin) 0 _ r.voltages fits.voltages_fit h.voltages_in;
  }

  decode_bank-InRange :
      (id : ℕ) (chip : IteChip) (b : Option ℕ × S) (r : SuperioResult)
      → chip.adc_lsb_x10 ≤ 120
      → FitsArrays r
      → InRange r
      → InRange (decode_bank rd wr id chip b r).2
  unfolding decode_bank decode_in_bank_zero finish
  decode_bank-InRange id chip (none, s) r le fits h = record {
    temps_in = h.temps_in;
    fans_in = h.fans_in;
    voltages_in = h.voltages_in;
  }
  decode_bank-InRange id chip (some bank, s) r le fits h =
      let k = read_inputs-InRange chip _ r le fits h in
      record { temps_in = k.temps_in; fans_in = k.fans_in; voltages_in = k.voltages_in }

  decode_found-InRange :
      (id : ℕ) (c : Option IteChip) (s : S) (r : SuperioResult)
      → ((chip : IteChip) → c ≡ some chip → chip.adc_lsb_x10 ≤ 120)
      → FitsArrays r
      → InRange r
      → InRange (decode_found rd wr id c s r).2
  unfolding decode_found
  decode_found-InRange id none s r le fits h = record {
    temps_in = h.temps_in;
    fans_in = h.fans_in;
    voltages_in = h.voltages_in;
  }
  decode_found-InRange id (some chip) s r le fits h =
      decode_bank-InRange id chip _ r (le chip refl) fits h

  -- If every read that succeeds returns a byte, then after decoding into a result that is in range
  -- every temperature is from -127 to 127 degrees and not 0, every fan turns from 10 to 675000 times a
  -- minute, and every voltage is from 0 to 6.12 V.
  pub decode-InRange :
      (id : ℕ) (s : S) (r : SuperioResult)
      → FitsArrays r
      → InRange r
      → InRange (decode rd wr id s r).2
  unfolding decode find_chip
  decode-InRange id s r fits h =
      decode_found-InRange id (find_chip id) s r
        (λ chip e. find_in-lsb id chip ite_chips (omega arith) e) fits h
