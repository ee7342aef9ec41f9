-- ===== src/CpuTemp/Tests.antt =====
-- core/driver_linux.c on a cpuinfo, and the theorems at it.
use libhwsense.Prelude.{
  ℕ, ◌≡◌, ◌<◌, refl, ◌||◌, ◌&&◌, Option, none, some, [], ◌∷◌, All, length, if◌then◌else◌, arith,
  ◌==◌,
}
use libhwsense.Prelude.Int.{pos, ◌-ℤ◌, ◌*ℤ◌}
use libhwsense.Text.{Bytes, codes, starts_with, strstr}
use libhwsense.Sysfs.{Files, atol}
use libhwsense.Export.Append.{concat}
use libhwsense.Sensor.{intel_temp_c, intel_therm_valid, intel_tjmax}
use libhwsense.Hwmon.{celsius, hwmon_cpu_temp}
use libhwsense.Thermal.{thermal_cpu_temp}
use libhwsense.CpuTemp.{
  as_lines, split, lines_of, amd, intel, vendor_in, core_temp_of, intel_core_temp, thermal_root,
  cpu_package_temp,
}
use libhwsense.CpuTemp.Sources.{lines_of-concat, has_temp, is_intel, cpu_package_temp_lem}

abbrev cpuinfo : Bytes
cpuinfo = codes "processor : 0\nvendor_id : AuthenticAMD\n"

vendor_run : vendor_in (lines_of 32 cpuinfo) ≡ amd
unfolding vendor_in lines_of split as_lines starts_with strstr
vendor_run = refl

cut_run : lines_of 4 (codes "abcde\nf") ≡ codes "abc" ∷ codes "de\n" ∷ codes "f" ∷ []
unfolding lines_of split as_lines
cut_run = refl

abbrev read_msr : ℕ → Option ℕ
read_msr reg = if reg == 0x1a2 then some 6553600 else some 2150629376

core_run : intel_core_temp read_msr ≡ celsius (pos 52000)
unfolding intel_core_temp core_temp_of intel_therm_valid intel_temp_c intel_tjmax ◌-ℤ◌ ◌*ℤ◌
core_run = refl

lines_of-concat_run :
    (concat (lines_of 4 (codes "abcde\nf")) ≡ codes "abcde\nf")
    × All (λ line. (0 < length line) × (length line < 4)) (lines_of 4 (codes "abcde\nf"))
lines_of-concat_run = lines_of-concat 4 (codes "abcde\nf") (omega arith)

abbrev no_files : Files
no_files path = none

cpu_package_temp_lem_example : has_temp (cpu_package_temp no_files atol read_msr (some intel)) ≡ (
    has_temp (hwmon_cpu_temp no_files atol)
    || is_intel intel && has_temp (intel_core_temp read_msr)
    || has_temp (thermal_cpu_temp no_files thermal_root))
cpu_package_temp_lem_example = cpu_package_temp_lem no_files atol read_msr intel
