-- ===== src/Thermal/Tests.antt =====
-- core/soc_linux.c on a few files, and the theorems at them.
use libhwsense.Prelude.{
  ◌≡◌, refl, Option, none, some, List, [], ◌∷◌, take, if◌then◌else◌, length-replicate, arith,
}
use libhwsense.Prelude.Int.{pos, ◌*ℤ◌}
use libhwsense.Text.{Bytes, codes, starts_with}
use libhwsense.Slots.{readings, cleared, IsValid}
use libhwsense.Slots.Laws.{yields}
use libhwsense.Export.{digits}
use libhwsense.Soc.{thermal_decode, thermal_is_cpu_zone}
use libhwsense.Sysfs.{
  Files, before_newline, first_line, read_line, digits_value, signed_value, atol, read_long, same,
}
use libhwsense.Thermal.{
  Zone, zone_path, zone_of, matching, hotter, read_zone, thermal_scan, thermal_zone_max,
  hottest_from, hottest_zone, hardware_of, behind_colon, soc_name_in,
}
use libhwsense.Thermal.Hottest.{Hottest, zone_values, hottest_zone-Hottest, thermal_scan_lem}

abbrev listed : List (Bytes × Bytes) → Bytes → Option Bytes
listed [] path = none
listed ((k, text) ∷ rest) path = if same k path then some text else listed rest path

-- two cores and a battery
abbrev files : Files
files = listed (
    (codes "/z/thermal_zone0/type", codes "cpu-1-0\n")
    ∷ (codes "/z/thermal_zone0/temp", codes "52000\n")
    ∷ (codes "/z/thermal_zone1/type", codes "battery\n")
    ∷ (codes "/z/thermal_zone1/temp", codes "310\n")
    ∷ (codes "/z/thermal_zone2/type", codes "cpu-1-1\n")
    ∷ (codes "/z/thermal_zone2/temp", codes "57\n")
    ∷ [])

hottest_run : hottest_from files (codes "/z") thermal_is_cpu_zone 3 0 none ≡ some (pos 57000)
unfolding same before_newline first_line read_line digits digits_value signed_value atol read_long
    zone_path zone_of matching hotter read_zone hottest_from thermal_decode thermal_is_cpu_zone
    starts_with ◌*ℤ◌
hottest_run = refl

hardware_run :
    soc_name_in (codes "processor : 0\n" ∷ codes "Hardware\t: SM8550\n" ∷ [])
    ≡ some (codes "SM8550")
unfolding soc_name_in hardware_of behind_colon before_newline starts_with
hardware_run = refl

hottest_zone-Hottest_run :
    Hottest
      (zone_values files (codes "/z") thermal_is_cpu_zone thermal_zone_max 0)
      (hottest_zone files (codes "/z") thermal_is_cpu_zone)
hottest_zone-Hottest_run = hottest_zone-Hottest files (codes "/z") thermal_is_cpu_zone

abbrev no_zone : Zone
no_zone = record { kind = []; degrees = pos 0 }

thermal_scan_lem_run :
    (readings (thermal_scan files (codes "/z") 4 (cleared 4 no_zone))
      ≡ take 4 (yields (read_zone files (codes "/z")) thermal_zone_max 0))
    × IsValid 4 (thermal_scan files (codes "/z") 4 (cleared 4 no_zone))
thermal_scan_lem_run =
    thermal_scan_lem files (codes "/z") 4 (cleared 4 no_zone)
      (record { size = length-replicate 4 no_zone; used = omega arith }) refl
