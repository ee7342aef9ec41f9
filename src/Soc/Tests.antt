-- ===== src/Soc/Tests.antt =====
-- core/soc_math.h on the values of tests/test_soc.c, and the theorems at them.
use libhwsense.Prelude.{◌+◌, ◌*◌, ◌≤◌, ◌<◌, ◌≡◌, ◌↔◌, refl, true, false, none, some}
use libhwsense.Prelude.Int.{pos, negsuc, ◌*ℤ◌}
use libhwsense.Text.{codes, starts_with}
use libhwsense.Soc.{thermal_decode, thermal_is_cpu_zone, thermal_is_gpu_zone}
use libhwsense.Soc.Zones.{thermal_decode_lem, zones_apart}

-- an inactive sensor, whole degrees, and millidegrees
decode_run :
    (thermal_decode (negsuc 272999) ≡ none)
    × (thermal_decode (pos 27) ≡ some (pos 27000))
    × (thermal_decode (pos 41200) ≡ some (pos 41200))
unfolding thermal_decode ◌*ℤ◌
decode_run = (refl, refl, refl)

cpu_run : thermal_is_cpu_zone (codes "cpu-0-0") ≡ true
unfolding thermal_is_cpu_zone starts_with
cpu_run = refl

thermal_decode_lem_run :
    (thermal_decode (pos 0) ≡ none)
    × (0 < 27 → 27 < 1000 → (thermal_decode (pos 27) ≡ some (pos (27 * 1000))) ↔ (27 ≤ 150))
    × (1000 ≤ 27 → (thermal_decode (pos 27) ≡ some (pos 27)) ↔ (27 ≤ 150000))
    × (27 < 999 → (thermal_decode (negsuc 27) ≡ some (negsuc (27 * 1000 + 999))) ↔ (27 < 40))
    × (999 ≤ 27 → (thermal_decode (negsuc 27) ≡ some (negsuc 27)) ↔ (27 < 40000))
thermal_decode_lem_run = thermal_decode_lem 27

zones_apart_run : thermal_is_gpu_zone (codes "cpu-0-0") ≡ false
zones_apart_run = zones_apart (codes "cpu-0-0") cpu_run
