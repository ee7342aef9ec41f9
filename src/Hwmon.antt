-- ===== src/Hwmon.antt =====
-- cpu/hwmon_linux.c, and the drives of core/sensors_linux.c: sensors that the kernel
-- shows as files. Temperatures are in thousandths of a degree, as the files have them; how `atof` reads such a number,
-- to a whole number of thousandths, is a parameter of hwmon_linux.c.
pub mod Choice
pub mod Drives
mod Tests
use libhwsense.Prelude.{
  ℕ, zero, suc, String, ◌+◌, ◌-◌, ◌*◌, ◌/◌, Bool, true, false, not, ◌&&◌, ◌||◌, Option, none, some,
  ◌++◌, ◌==◌, if◌then◌else◌,
}
use libhwsense.Prelude.Int.{ℤ, pos, negsuc, ◌+ℤ◌, ltb_ℤ}
use libhwsense.Text.{Bytes, codes, starts_with}
use libhwsense.Board.{quot, degrees}
use libhwsense.Sysfs.{
  Files, decimal, hwmon_max, hwmon_path, hwmon_name, input_file, read_line, read_long, same,
}

-- `hwsense_temp_result_t`: a temperature, or the text of a failure
pub data TempResult : Type 0 where
  celsius : ℤ → TempResult
  failure : Bytes → TempResult

unfoldable pub is_cpu_sensor : Bytes → Bool
is_cpu_sensor name =
    same name (codes "k10temp") || same name (codes "zenpower") || same name (codes "coretemp")

unfoldable pub is_preferred_label : Option Bytes → Bool
is_preferred_label none = false
is_preferred_label (some label) =
    same label (codes "Tctl") || starts_with label (codes "Package id")

abbrev pub no_cpu_sensor : Bytes
no_cpu_sensor = codes "No k10temp/zenpower/coretemp hwmon device found in /sys/class/hwmon"

-- One round of the loop over the inputs, from whether the input is preferred and the first, and its
-- value. The last two are the rest of the loop with `r` as it was and with the value in it.
unfoldable pub try_input : Bool → Bool → Option ℤ → Option ℤ → Option ℤ → Option ℤ
try_input false false v skip go_on = skip
try_input preferred first none skip go_on = skip
try_input true first (some v) skip go_on = some v
try_input false true (some v) skip go_on = go_on

unfoldable pub or_rest : Option ℤ → TempResult → TempResult
or_rest none rest = rest
or_rest (some v) rest = celsius v

unfoldable pub improved : ℤ → Option ℤ → ℤ
improved best none = best
improved best (some mdeg) = if ltb_ℤ best mdeg then mdeg else best

module _ (files : Files) where
  unfoldable pub is_preferred : ℕ → ℕ → Bool
  is_preferred hw i =
      is_preferred_label
        (read_line files (hwmon_path hw (codes "temp" ++ (decimal i ++ codes "_label"))) 64)

module _ (files : Files) (atof : Bytes → ℤ) where
  unfoldable pub input_value : ℕ → ℕ → Option ℤ
  input_value hw i = elim (read_line files (hwmon_path hw (input_file (codes "temp") i)) 32) [
    | none ↦ none
    | some val ↦ some (atof val)
  ]

  -- the loop over the inputs of a device, with the rounds left and `r`
  unfoldable pub scan_inputs : ℕ → ℕ → ℕ → Option ℤ → Option ℤ
  scan_inputs zero hw i r = r
  scan_inputs (suc n) hw i r =
      try_input (is_preferred files hw i) (i == 1) (input_value hw i) (scan_inputs n hw (i + 1) r)
        (scan_inputs n hw (i + 1) (input_value hw i))

  unfoldable pub device_temp : ℕ → Option Bytes → Option ℤ
  device_temp hw none = none
  device_temp hw (some name) = if is_cpu_sensor name then scan_inputs 16 hw 1 none else none

  -- the loop over the devices, with the rounds left
  unfoldable pub scan_devices : ℕ → ℕ → TempResult
  scan_devices zero hw = failure no_cpu_sensor
  scan_devices (suc n) hw =
      or_rest (device_temp hw (hwmon_name files hw 64)) (scan_devices n (hw + 1))

  unfoldable pub hwmon_cpu_temp : TempResult
  hwmon_cpu_temp = scan_devices 32 0

module _ (files : Files) where
  -- hwsense_nvme_temperature: the reading of a device that is a drive
  unfoldable pub drive_reading : ℕ → Option ℤ
  drive_reading hw = named (hwmon_name files hw 64)
    where
      named : Option Bytes → Option ℤ
      named none = none
      named (some name) =
          if same name (codes "nvme")
          then read_long files (hwmon_path hw (codes "temp1_input"))
          else none

  -- the loop with `best`
  unfoldable pub best_drive : ℕ → ℕ → ℤ → ℤ
  best_drive zero hw best = best
  best_drive (suc n) hw best = best_drive n (hw + 1) (improved best (drive_reading hw))

  unfoldable pub nvme_temperature : ℤ
  nvme_temperature =
      let best = best_drive hwmon_max 0 (negsuc 0) in
      if ltb_ℤ best (pos 0) then negsuc 0 else degrees best
