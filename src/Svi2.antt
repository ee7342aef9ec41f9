-- ===== src/Svi2.antt =====
-- cpu/amd_svi2.c: voltages and power from the SVI2 telemetry registers. The SMN read is a parameter.
-- Voltages are in units of 10 µV, currents in amperes, and a power in units of 10 µW.
mod Tests
use libhwsense.Prelude.{
  ℕ, ◌+◌, ◌*◌, ◌/◌, ◌%◌, ◌^◌, ◌≡◌, refl, Bool, true, false, Bool-cases, inl, inr, Option, none,
  some, ◌==◌, if◌then◌else◌, arith,
}
use libhwsense.Prelude.Word.{field}
use libhwsense.Sensor.{svi2_vid_to_volts}

abbrev pub plane0 : ℕ
plane0 = 0x0005a010

abbrev pub plane1 : ℕ
plane1 = 0x0005a00c

pub data SviError : Type 0 where
  read_failed : ℕ → SviError
  plane_off : ℕ → SviError

pub record VoltageResult : Type 0 where
  pub ok : Bool
  pub volts : ℕ
  pub amps : ℕ
  pub error : Option SviError

abbrev pub failed : SviError → VoltageResult
failed e = record { ok = false; volts = 0; amps = 0; error = some e }

-- the lines behind a read of one plane
unfoldable pub voltage_of : ℕ → Option ℕ → VoltageResult
voltage_of plane none = failed (read_failed plane)
voltage_of plane (some raw) =
    let vid = field raw 16 9 in
    if vid == 0x1ff
    then failed (plane_off plane)
    else record { ok = true; volts = svi2_vid_to_volts vid; amps = raw % 256; error = none }

-- the voltage of a plane in the power formula
unfoldable pub power_volts : ℕ → ℕ
power_volts vid = if vid == 0x1ff then 0 else svi2_vid_to_volts vid

unfoldable pub power_of : ℕ → ℕ → VoltageResult
power_of raw0 raw1 = record {
  ok = true;
  volts =
      power_volts (field raw0 16 9) * (raw0 % 256) + power_volts (field raw1 16 9) * (raw1 % 256);
  amps = raw0 % 256 + raw1 % 256;
  error = none;
}

module _ {S : Type 0} (smn_read : ℕ → S → Option ℕ × S) where
  unfoldable pub core_voltage : S → VoltageResult × S
  core_voltage s = let (raw, s') = smn_read plane0 s in (voltage_of plane0 raw, s')

  unfoldable pub soc_voltage : S → VoltageResult × S
  soc_voltage s = let (raw, s') = smn_read plane1 s in (voltage_of plane1 raw, s')

  -- the steps behind each read
  unfoldable pub after_both : ℕ → Option ℕ × S → VoltageResult × S
  after_both raw0 (none, s) = (failed (read_failed plane1), s)
  after_both raw0 (some raw1, s) = (power_of raw0 raw1, s)

  unfoldable pub after_first : Option ℕ × S → VoltageResult × S
  after_first (none, s) = (failed (read_failed plane0), s)
  after_first (some raw0, s) = after_both raw0 (smn_read plane1 s)

  unfoldable pub package_power : S → VoltageResult × S
  package_power s = after_first (smn_read plane0 s)

plane_power :
    (plane raw : ℕ)
    → let r = voltage_of plane (some raw) in
      r.volts * r.amps ≡ power_volts (field raw 16 9) * (raw % 256)
unfolding voltage_of power_volts
plane_power plane raw = elim (Bool-cases (field raw 16 9 == 0x1ff)) [
  | inl e ↦ rw e (omega arith)
  | inr e ↦ rw e refl
]

module _ {S : Type 0} (smn_read : ℕ → S → Option ℕ × S) where
  -- When both registers are read, the package power is the sum of volts times amperes over the two
  -- voltage readers' results of the same registers; a plane that is off counts for nothing.
  pub package_power_lem :
      (s s' s'' : S) (raw0 raw1 : ℕ)
      → smn_read plane0 s ≡ (some raw0, s')
      → smn_read plane1 s' ≡ (some raw1, s'')
      → let core = (core_voltage smn_read s).0 in
        let soc = (soc_voltage smn_read s').0 in
        ((package_power smn_read s).0.ok ≡ true)
        × ((package_power smn_read s).0.volts ≡ core.volts * core.amps + soc.volts * soc.amps)
  unfolding package_power after_first after_both core_voltage soc_voltage power_of
  package_power_lem s s' s'' raw0 raw1 e0 e1 =
      rw (e0, e1) (refl, omega (arith, plane_power plane0 raw0, plane_power plane1 raw1))
