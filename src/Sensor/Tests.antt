-- ===== src/Sensor/Tests.antt =====
-- core/sensor_math.h on the register values of tests/test_sensor_math.c, and the theorems at them.
use libhwsense.Prelude.{ℕ, ◌+◌, ◌*◌, ◌%◌, ◌^◌, ◌≤◌, ◌≡◌, ◌≢◌, ◌↔◌, refl, true, some, arith}
use libhwsense.Prelude.Int.{pos, negsuc, ◌≤ℤ◌, ◌-ℤ◌}
use libhwsense.Sensor.{
  intel_tjmax, intel_temp_c, amd_tctl_c, amd_ccd_temp_plausible, svi2_vid, svi2_vid_to_volts,
  cpu_family_known, rapl_delta, rapl_power_w,
}
use libhwsense.Text.{codes, strstr, starts_with}
use libhwsense.Sensor.Bounds.{intel_temp_range, amd_ccd_temp_plausible_iff}
use libhwsense.Sensor.Energy.{rapl_power_w_lem}

-- 100 - 30 degrees
intel_run : intel_temp_c (100 * 2 ^ 16) (2 ^ 31 + 30 * 2 ^ 16) ≡ pos 70
unfolding intel_temp_c intel_tjmax ◌-ℤ◌
intel_run = refl

tctl_run : amd_tctl_c (2 ^ 21 * 800 + 2 ^ 19) ≡ pos 51000
unfolding amd_tctl_c ◌-ℤ◌
tctl_run = refl

svi2_run : svi2_vid_to_volts (svi2_vid (176 * 2 ^ 16)) ≡ 110000
unfolding svi2_vid_to_volts svi2_vid
svi2_run = refl

family_run : cpu_family_known (some (codes "AuthenticAMD")) 0x19 ≡ true
unfolding cpu_family_known strstr starts_with
family_run = refl

-- 65536 units of 2^-16 J over 500 ms, across the wrap of the counter
power_run :
    rapl_power_w 4294967295 65535 (2 ^ 16) (pos 500)
    ≡ some (record { num = 65536000; den = 32768000 })
unfolding rapl_power_w rapl_delta
power_run = refl

intel_temp_range_run :
    (negsuc 76 ≤ℤ intel_temp_c 6553600 2149449728)
    × (intel_temp_c 6553600 2149449728 ≤ℤ pos (intel_tjmax 6553600))
    × (pos (intel_tjmax 6553600) ≤ℤ pos 150)
intel_temp_range_run = intel_temp_range 6553600 2149449728

abbrev ccd_raw : ℕ
ccd_raw = 0xb50

amd_ccd_temp_plausible_iff_run :
    (amd_ccd_temp_plausible ccd_raw ≡ true)
    ↔ ((ccd_raw ≢ 0) × (2120 ≤ ccd_raw % 2 ^ 12) × (ccd_raw % 2 ^ 12 ≤ 3640))
amd_ccd_temp_plausible_iff_run = amd_ccd_temp_plausible_iff ccd_raw

rapl_power_w_lem_run :
    rapl_power_w 4294967295 ((4294967295 + 65536) % 2 ^ 32) 65536 (pos 500)
    ≡ some (record { num = 65536 * 1000; den = 65536 * 500 })
rapl_power_w_lem_run =
    rapl_power_w_lem 4294967295 65536 65536 500 (omega arith) (omega arith) (omega arith)
