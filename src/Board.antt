-- ===== src/Board.antt =====
-- core/sensors_linux.c: the motherboard's sensors, from the kernel's drivers and otherwise from the
-- chip itself. The files and the two direct readers, over a device, are parameters of the scan.
pub mod Scan
pub mod Linux
pub mod Readers
mod Tests
use libhwsense.Prelude.{
  ℕ, zero, suc, ◌+◌, ◌-◌, ◌/◌, Bool, true, false, not, ◌&&◌, ◌||◌, Option, none, some, List, [],
  ◌∷◌, ◌==◌, if◌then◌else◌,
}
use libhwsense.Prelude.Int.{ℤ, pos, negsuc, ◌+ℤ◌, ◌*ℤ◌, to_int}
use libhwsense.Text.{Bytes, codes}
use libhwsense.Slots.{Slots, scan, cleared}
use libhwsense.Superio.{
  SuperioResult, Message, ChipName, unnamed, named_by, is_empty, zeroed, any_reading, no_ite_chip,
  no_board_sensors, max_temps, max_fans, max_voltages,
}
use libhwsense.Sysfs.{Files, hwmon_max, hwmon_path, hwmon_name, input_file, read_long, any_same}

-- CPU, GPU and storage devices
abbrev pub skipped : List Bytes
skipped =
    codes "k10temp"
    ∷ codes "zenpower"
    ∷ codes "coretemp"
    ∷ codes "nvme"
    ∷ codes "amdgpu"
    ∷ codes "nouveau"
    ∷ codes "radeon"
    ∷ codes "acpitz"
    ∷ codes "BAT0"
    ∷ codes "AC"
    ∷ codes "iwlwifi_1"
    ∷ codes "drivetemp"
    ∷ []

unfoldable pub is_non_board_chip : Bytes → Bool
is_non_board_chip name = any_same name skipped

-- the quotient of C, towards 0
abbrev pub quot : ℤ → ℕ → ℤ
quot (pos n) d = pos (n / d)
quot (negsuc n) d = if suc n / d == 0 then pos 0 else negsuc (suc n / d - 1)

-- millidegrees to degrees, `(int)((v + 500) / 1000)`
abbrev pub degrees : ℤ → ℤ
degrees v = to_int (quot (v +ℤ pos 500) 1000)

-- millivolts in units of 10 µV
abbrev pub volts : ℤ → ℤ
volts v = v *ℤ pos 100

abbrev pub is_some : {A : Type 0} → Option A → Bool
is_some none = false
is_some (some a) = true

-- what the caller asked for
pub record Wants : Type 0 where
  pub temps : Bool
  pub fans : Bool
  pub volts : Bool

-- `chip_name[0] == 0`
unfoldable pub is_unnamed : ChipName → Bool
is_unnamed unnamed = true
is_unnamed (named_by []) = true
is_unnamed _ = false

-- `strncmp(d.error, "no supported ITE", 16) == 0`
unfoldable pub is_no_ite_chip : Message → Bool
is_no_ite_chip no_ite_chip = true
is_no_ite_chip _ = false

module _ (files : Files) where
  -- one round of a loop over the inputs of a device, with `found`
  unfoldable pub input_at : ℕ → Bytes → (ℤ → ℤ) → ℕ → Bool → Option ℤ × Bool
  input_at hw kind scale i found = converted (read_long files (hwmon_path hw (input_file kind i)))
    where
      converted : Option ℤ → Option ℤ × Bool
      converted none = (none, found)
      converted (some v) = (some (scale v), true)

  -- the three loops over a device, each of which runs when it is asked for
  unfoldable pub scan_device : Wants → ℕ → SuperioResult → Bool × SuperioResult
  scan_device wants hw r =
      let (f₁, fans) =
        if wants.fans
        then scan max_fans (input_at hw (codes "fan") to_int) 16 1 false r.fans
        else (false, r.fans) in
      let (f₂, temps) =
        if wants.temps
        then scan max_temps (input_at hw (codes "temp") degrees) 16 1 f₁ r.temps
        else (f₁, r.temps) in
      let (f₃, voltages) =
        if wants.volts
        then scan max_voltages (input_at hw (codes "in") volts) 17 0 f₂ r.voltages
        else (f₂, r.voltages) in
      (f₃, record r { temps = temps; fans = fans; voltages = voltages })

  -- the lines behind the loops over a device
  unfoldable pub name_device : Bytes → Bool × SuperioResult → SuperioResult
  name_device name (found, r) =
      if found && is_unnamed r.chip_name then record r { chip_name = named_by name } else r

  unfoldable pub scan_named : Wants → ℕ → Option Bytes → SuperioResult → SuperioResult
  scan_named wants hw none r = r
  scan_named wants hw (some name) r =
      if is_non_board_chip name then r else name_device name (scan_device wants hw r)

  -- the loop over the devices, with the rounds left
  unfoldable pub scan_devices : Wants → ℕ → ℕ → SuperioResult → SuperioResult
  scan_devices wants zero hw r = r
  scan_devices wants (suc n) hw r =
      scan_devices wants n (hw + 1) (scan_named wants hw (hwmon_name files hw 64) r)

  unfoldable pub scan_hwmon : Wants → SuperioResult
  scan_hwmon wants = scan_devices wants hwmon_max 0 zeroed

-- the readings of a chip that were not asked for are dropped
unfoldable pub keep_wanted : Wants → SuperioResult → SuperioResult
keep_wanted wants d = record d {
  fans = if wants.fans then d.fans else cleared max_fans (pos 0);
  temps = if wants.temps then d.temps else cleared max_temps (pos 0);
  voltages = if wants.volts then d.voltages else cleared max_voltages (pos 0);
}

-- the last lines
unfoldable pub conclude : Wants → SuperioResult → SuperioResult
conclude wants r =
    let ok =
      wants.fans && not (r.fans.count == 0)
      || wants.temps && not (r.temps.count == 0)
      || wants.volts && not (r.voltages.count == 0) in
    record r { ok = ok; error = if not ok && is_empty r.error then no_board_sensors else r.error }

module _ {D : Type 0} (ite nct : D → Bool × D × SuperioResult) where
  -- the steps behind the second direct reader
  unfoldable pub after_nct :
      Wants → SuperioResult → Message → Bool × D × SuperioResult → SuperioResult × D
  after_nct wants r ite_error (true, d, n) = (keep_wanted wants n, d)
  after_nct wants r ite_error (false, d, n) = (
    conclude wants (record r { error = if is_no_ite_chip ite_error then n.error else ite_error }),
    d,
  )

  unfoldable pub after_ite : Wants → SuperioResult → Bool × D × SuperioResult → SuperioResult × D
  after_ite wants r (true, d, c) = (keep_wanted wants c, d)
  after_ite wants r (false, d, c) = after_nct wants r c.error (nct d)

  unfoldable pub superio_scan : Files → Wants → D → SuperioResult × D
  superio_scan files wants d =
      let r = scan_hwmon files wants in
      if any_reading r then (conclude wants r, d) else after_ite wants r (ite d)
