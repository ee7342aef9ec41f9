-- ===== src/Ec/Ranges.antt =====
-- motherboard/ec.c: the ranges of the readings.
use libhwsense.Prelude.{ℕ, ◌<◌, ◌≡◌, Bool, Option, none, some}
use libhwsense.Prelude.Int.{ℤ, pos, negsuc, ◌≤ℤ◌}
use libhwsense.Ec.{M, rpm_of, EcResult, ec_read_reg, ec_read_word}

-- a value, when there is one, below a bound
Below : {S : Type 0} → ℕ → Option ℕ × S → Type 0
Below n (none, s) = Unit
Below n (some v, s) = v < n

-- -1, or from 0 to a bound
abbrev pub InRange : ℕ → ℤ → Type 0
InRange n z = (negsuc 0 ≤ℤ z) × (z ≤ℤ pos n)

-- the number for what a register gave, -1 for one that was not read
abbrev pub number : (ℕ → ℤ) → Option ℕ → ℤ
number f none = negsuc 0
number f (some v) = f v

-- a reading of a register in some state of the device
abbrev pub IsReading : {S : Type 0} → (ℕ → ℤ) → M S ℕ → ℤ → Type 0
IsReading {S = S} f m z = (s : S) × (z ≡ number f (m s).0)

-- what a caller may rely on
abbrev pub InRanges : EcResult → Type 0
InRanges r =
    InRange 65534 r.cpu_fan_rpm
    × InRange 65534 r.vrm_fan_rpm
    × InRange 255 r.chipset_temp
    × InRange 255 r.cpu_temp
    × InRange 255 r.mb_temp
    × InRange 255 r.vrm_temp
    × InRange 65535 r.cpu_voltage_mv

module _ {S : Type 0} (tick : S → ℕ × S) (read_io : S → ℕ → Option ℕ × S)
    (write_io : S → ℕ → ℕ → Bool × S) (rounds : ℕ) where
  -- the register of each reading
  abbrev pub Readings : EcResult → Type 0
  Readings r =
      IsReading rpm_of (ec_read_word tick read_io write_io rounds 0xbc) r.cpu_fan_rpm
      × IsReading rpm_of (ec_read_word tick read_io write_io rounds 0xb2) r.vrm_fan_rpm
      × IsReading pos (ec_read_reg tick read_io write_io rounds 0x3a) r.chipset_temp
      × IsReading pos (ec_read_reg tick read_io write_io rounds 0x3b) r.cpu_temp
      × IsReading pos (ec_read_reg tick read_io write_io rounds 0x3c) r.mb_temp
      × IsReading pos (ec_read_reg tick read_io write_io rounds 0x3e) r.vrm_temp
      × IsReading pos (ec_read_word tick read_io write_io rounds 0xa2) r.cpu_voltage_mv
