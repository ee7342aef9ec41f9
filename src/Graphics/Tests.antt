-- ===== src/Graphics/Tests.antt =====
-- core/sensors_linux.c on the files of two graphics processors, and the theorem at them.
use libhwsense.Prelude.{◌≡◌, refl, Option, none, some, List, [], ◌∷◌, get_elem?, if◌then◌else◌}
use libhwsense.Prelude.Int.{pos, ◌+ℤ◌}
use libhwsense.Text.{Bytes, codes}
use libhwsense.Export.{digits}
use libhwsense.Sysfs.{
  Files, hwmon_max, before_newline, first_line, read_line, digits_value, signed_value, atol,
  read_long, hwmon_path, hwmon_name, same,
}
use libhwsense.Graphics.{
  no_info, pick, read_info, info_at, info_with, find_device, amdgpu_info_linux,
}
use libhwsense.Graphics.Nth.{amd_devices, amdgpu_info_linux_lem}

abbrev listed : List (Bytes × Bytes) → Bytes → Option Bytes
listed [] path = none
listed ((k, text) ∷ rest) path = if same k path then some text else listed rest path

-- a drive between two graphics processors, of which the second has a power sensor
abbrev files : Files
files = listed (
    (codes "/sys/class/hwmon/hwmon0/name", codes "amdgpu\n")
    ∷ (codes "/sys/class/hwmon/hwmon1/name", codes "nvme\n")
    ∷ (codes "/sys/class/hwmon/hwmon2/name", codes "amdgpu\n")
    ∷ (codes "/sys/class/hwmon/hwmon2/temp1_input", codes "61500\n")
    ∷ (codes "/sys/class/hwmon/hwmon2/power1_average", codes "35000000\n")
    ∷ [])

second_run : find_device files 1 4 0 0 ≡ some 2
unfolding same before_newline first_line read_line digits hwmon_path hwmon_name find_device pick
second_run = refl

temperature_run : (info_at files 1 no_info (some 2)).1.temperature ≡ pos 62
unfolding same before_newline first_line read_line digits digits_value signed_value atol read_long
    hwmon_path info_at info_with read_info ◌+ℤ◌
temperature_run = refl

power_run : (info_at files 1 no_info (some 2)).1.power_usage_w ≡ pos 35
unfolding same before_newline first_line read_line digits digits_value signed_value atol read_long
    hwmon_path info_at info_with read_info ◌+ℤ◌
power_run = refl

amdgpu_info_linux_lem_example :
    amdgpu_info_linux files 1 no_info
    ≡ info_at files 1 no_info (get_elem? (amd_devices files hwmon_max 0) 1)
amdgpu_info_linux_lem_example = amdgpu_info_linux_lem files 1 no_info
