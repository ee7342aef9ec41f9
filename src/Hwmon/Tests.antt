-- ===== src/Hwmon/Tests.antt =====
-- cpu/hwmon_linux.c and core/sensors_linux.c on a few files, and the theorems at them.
use libhwsense.Prelude.{◌≡◌, refl, ◌⊎◌, Option, none, some, List, [], ◌∷◌, All, if◌then◌else◌}
use libhwsense.Prelude.Int.{ℤ, pos, negsuc}
use libhwsense.Text.{Bytes, codes, starts_with}
use libhwsense.Export.{digits}
use libhwsense.Board.{degrees}
use libhwsense.Sysfs.{
  Files, hwmon_max, before_newline, first_line, read_line, digits_value, signed_value, atol,
  read_long, hwmon_path, hwmon_name, input_file, same,
}
use libhwsense.Hwmon.{
  is_preferred_label, is_preferred, input_value, try_input, scan_inputs, hwmon_cpu_temp, improved,
  drive_reading, best_drive, nvme_temperature,
}
use libhwsense.Hwmon.Choice.{first_of, device_choice, reported, hwmon_cpu_temp_lem}
use libhwsense.Hwmon.Drives.{AtMost, IsReading, drive_readings, nvme_temperature_lem}

abbrev listed : List (Bytes × Bytes) → Bytes → Option Bytes
listed [] path = none
listed ((k, text) ∷ rest) path = if same k path then some text else listed rest path

-- a package sensor behind a core's, and two drives
abbrev files : Files
files = listed (
    (codes "/sys/class/hwmon/hwmon0/name", codes "coretemp\n")
    ∷ (codes "/sys/class/hwmon/hwmon0/temp1_input", codes "41000\n")
    ∷ (codes "/sys/class/hwmon/hwmon0/temp2_label", codes "Package id 0\n")
    ∷ (codes "/sys/class/hwmon/hwmon0/temp2_input", codes "47000\n")
    ∷ (codes "/sys/class/hwmon/hwmon1/name", codes "nvme\n")
    ∷ (codes "/sys/class/hwmon/hwmon1/temp1_input", codes "38850\n")
    ∷ (codes "/sys/class/hwmon/hwmon2/name", codes "nvme\n")
    ∷ (codes "/sys/class/hwmon/hwmon2/temp1_input", codes "35000\n")
    ∷ [])

package_run : scan_inputs files atol 3 0 1 none ≡ some (pos 47000)
unfolding same before_newline first_line read_line digits digits_value signed_value atol hwmon_path
    input_file starts_with is_preferred_label is_preferred input_value try_input scan_inputs
package_run = refl

drives_run : best_drive files 3 0 (negsuc 0) ≡ pos 38850
unfolding same before_newline first_line read_line digits digits_value signed_value atol read_long
    hwmon_path hwmon_name improved drive_reading best_drive
drives_run = refl

hwmon_cpu_temp_lem_example :
    hwmon_cpu_temp files atol ≡ reported (first_of (device_choice files atol) 32 0)
hwmon_cpu_temp_lem_example = hwmon_cpu_temp_lem files atol

nvme_temperature_lem_run :
    let rs = drive_readings files hwmon_max 0 in
    ((nvme_temperature files ≡ negsuc 0) × All (AtMost (negsuc 0)) rs)
    ⊎ ((r : ℤ) × IsReading r rs × All (AtMost r) rs × (nvme_temperature files ≡ degrees r))
nvme_temperature_lem_run = nvme_temperature_lem files
