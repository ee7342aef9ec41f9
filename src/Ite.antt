-- ===== src/Ite.antt =====
-- motherboard/ite_decode.c: decoding the monitor registers of ITE Super I/O chips.
-- The callbacks `rd` and `wr` and their context are parameters: the context is a state that they
-- return anew, and `none` is the -1 of a failed read.
pub mod Fill
pub mod Bank
pub mod Hw
pub mod Keeps
pub mod Values
mod Tests
use libhwsense.Prelude.{
  ℕ, zero, suc, String, ◌+◌, ◌-◌, ◌*◌, ◌/◌, ◌%◌, Bool, true, false, not, ◌||◌, Option, none, some,
  List, [], ◌∷◌, length, get_or, leb, ◌==◌, if◌then◌else◌,
}
use libhwsense.Prelude.Int.{ℤ, pos, negsuc}
use libhwsense.Prelude.Word.{word, field, signed_char, test_bit}
use libhwsense.Slots.{Slots, scan}
use libhwsense.Superio.{
  SuperioResult, any_reading, unsupported_ite, no_ite_bank, no_ite_readings, named, max_temps,
  max_fans, max_voltages,
}

pub record IteChip : Type 0 where
  pub id : ℕ
  pub name : String
  pub adc_lsb_x10 : ℕ
  pub fans : ℕ
  pub temps : ℕ

abbrev ite_chip : ℕ → String → ℕ → ℕ → ℕ → IteChip
ite_chip id name lsb fans temps = record {
  id = id;
  name = name;
  adc_lsb_x10 = lsb;
  fans = fans;
  temps = temps;
}

abbrev pub ite_chips : List IteChip
ite_chips =
    ite_chip 0x8655 "it8655" 109 3 6
    ∷ ite_chip 0x8665 "it8665" 109 6 6
    ∷ ite_chip 0x8686 "it8686" 120 6 6
    ∷ ite_chip 0x8628 "it8628" 120 6 6
    ∷ ite_chip 0x8688 "it8688" 120 6 6
    ∷ ite_chip 0x8689 "it8689" 120 6 6
    ∷ ite_chip 0x8728 "it8728" 120 5 3
    ∷ []

abbrev pub ite_fan_lo : List ℕ
ite_fan_lo = 0x0d ∷ 0x0e ∷ 0x0f ∷ 0x80 ∷ 0x82 ∷ 0x93 ∷ []

abbrev pub ite_fan_hi : List ℕ
ite_fan_hi = 0x18 ∷ 0x19 ∷ 0x1a ∷ 0x81 ∷ 0x83 ∷ 0x94 ∷ []

abbrev pub ite_vin : List ℕ
ite_vin = 0x20 ∷ 0x21 ∷ 0x22 ∷ 0x23 ∷ 0x24 ∷ 0x25 ∷ 0x26 ∷ 0x27 ∷ 0x28 ∷ 0x2f ∷ []

abbrev pub ite_reg_bank : ℕ
ite_reg_bank = 0x06

-- bits 7, 8 and 9
abbrev pub ite_vin_scaled_mask : ℕ
ite_vin_scaled_mask = 0x380

unfoldable pub find_in : List IteChip → ℕ → Option IteChip
find_in [] id = none
find_in (c ∷ cs) id = if c.id == id then some c else find_in cs id

unfoldable pub find_chip : ℕ → Option IteChip
find_chip id = find_in ite_chips id

unfoldable pub ite_chip_name : ℕ → Option String
ite_chip_name id = elim (find_chip id) [ none ↦ none | some c ↦ some c.name ]

-- an unconnected input reads 0 or -128
unfoldable pub decode_temp : Option ℕ → Option ℤ
decode_temp none = none
decode_temp (some b) = if b % 256 == 0 || b % 256 == 128 then none else some (signed_char b)

-- no tachometer signal reads 0 or 0xffff
unfoldable pub decode_fan : Option ℕ → Option ℕ → Option ℤ
decode_fan none hi = none
decode_fan (some lo) none = none
decode_fan (some lo) (some hi) =
    let raw = word hi lo in
    if raw == 0 || raw == 0xffff then none else some (pos (1350000 / (raw * 2)))

-- in units of 10 µV: `v * lsb / 10000.0` volts
unfoldable pub decode_voltage : ℕ → ℕ → Option ℕ → Option ℤ
decode_voltage adc_lsb_x10 i none = none
decode_voltage adc_lsb_x10 i (some v) =
    let lsb = if test_bit ite_vin_scaled_mask i then adc_lsb_x10 * 2 else adc_lsb_x10 in
    some (pos (v * lsb * 10))

-- `saved_bank & 0x60`, and `saved_bank & ~0x60`
abbrev pub bank_bits : ℕ → ℕ
bank_bits saved_bank = field saved_bank 5 2

abbrev pub bank_zero : ℕ → ℕ
bank_zero saved_bank = saved_bank / 128 * 128 + saved_bank % 32

-- the lines behind the loops
unfoldable pub finish : ℕ → IteChip → SuperioResult → SuperioResult
finish id chip r =
    let ok = any_reading r in
    record r {
      chip_name = named chip.name;
      chip_id = id;
      ok = ok;
      error = if ok then r.error else no_ite_readings chip.name;
    }

module _ {S : Type 0} (rd : S → ℕ → Option ℕ × S) (wr : S → ℕ → ℕ → S) where
  unfoldable pub temp_at : ℕ → S → Option ℤ × S
  temp_at i s = let (t, s') = rd s (0x29 + i) in (decode_temp t, s')

  unfoldable pub fan_at : ℕ → S → Option ℤ × S
  fan_at i s =
      let (lo, s₁) = rd s (get_or ite_fan_lo i 0) in
      let (hi, s₂) = rd s₁ (get_or ite_fan_hi i 0) in (decode_fan lo hi, s₂)

  unfoldable pub voltage_at : ℕ → ℕ → S → Option ℤ × S
  voltage_at adc_lsb_x10 i s =
      let (v, s') = rd s (get_or ite_vin i 0) in (decode_voltage adc_lsb_x10 i v, s')

  -- the three loops
  unfoldable pub read_inputs : IteChip → S → SuperioResult → S × SuperioResult
  read_inputs chip s r =
      let (s₁, temps) = scan max_temps temp_at chip.temps 0 s r.temps in
      let (s₂, fans) = scan max_fans fan_at chip.fans 0 s₁ r.fans in
      let (s₃, voltages) =
        scan max_voltages (voltage_at chip.adc_lsb_x10) (length ite_vin) 0 s₂ r.voltages in
      (s₃, record r { temps = temps; fans = fans; voltages = voltages })

  -- the steps from the bank register's value on
  unfoldable pub decode_in_bank_zero : ℕ → IteChip → ℕ → S → SuperioResult → S × SuperioResult
  decode_in_bank_zero id chip saved_bank s r =
      let s₁ = if bank_bits saved_bank == 0 then s else wr s ite_reg_bank (bank_zero saved_bank) in
      let (s₂, r₂) = read_inputs chip s₁ r in
      let s₃ = if bank_bits saved_bank == 0 then s₂ else wr s₂ ite_reg_bank saved_bank in
      (s₃, finish id chip r₂)

  unfoldable pub decode_bank : ℕ → IteChip → Option ℕ × S → SuperioResult → Bool × S × SuperioResult
  decode_bank id chip (none, s) r = (false, s, record r { error = no_ite_bank })
  decode_bank id chip (some saved_bank, s) r =
      let (s', r') = decode_in_bank_zero id chip saved_bank s r in (r'.ok, s', r')

  unfoldable pub decode_found : ℕ → Option IteChip → S → SuperioResult → Bool × S × SuperioResult
  decode_found id none s r = (false, s, record r { error = unsupported_ite id })
  decode_found id (some chip) s r = decode_bank id chip (rd s ite_reg_bank) r

  -- the result, the context and `*r`
  unfoldable pub decode : ℕ → S → SuperioResult → Bool × S × SuperioResult
  decode id s r = decode_found id (find_chip id) s r
