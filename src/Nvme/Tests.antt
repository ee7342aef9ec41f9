-- ===== src/Nvme/Tests.antt =====
-- storage/nvme_linux.c on bytes of a log, and the theorems at them.
use libhwsense.Prelude.{ℕ, ◌≡◌, refl, List, [], ◌∷◌, ◌++◌, take, replicate, arith}
use libhwsense.Prelude.Int.{pos, ◌-ℤ◌}
use libhwsense.Slots.{readings, IsValid, scan, push, push?}
use libhwsense.Slots.Laws.{yields}
use libhwsense.Nvme.{
  le, le_from, bytes_of, le-bytes_of, kelvin, sensor_at, sensors_of, max_sensors, smart_decode,
  smart_sensors_lem,
}

-- 200 bytes, then 310 K, no second sensor, and 315 K
abbrev log : List ℕ
log = replicate 200 0 ++ 0x36 ∷ 0x01 ∷ 0 ∷ 0 ∷ 0x3b ∷ 0x01 ∷ []

sensors_run : readings (smart_decode log).sensors ≡ pos 3685 ∷ pos 4185 ∷ []
unfolding smart_decode sensors_of sensor_at kelvin le le_from ◌-ℤ◌ scan push push?
sensors_run = refl

smart_sensors_lem_run :
    (readings (smart_decode log).sensors ≡ take 8 (yields (sensor_at log) 8 0))
    × IsValid max_sensors (smart_decode log).sensors
smart_sensors_lem_run = smart_sensors_lem log

le-bytes_of_run : le ((7 ∷ []) ++ (bytes_of 4 305419896 ++ (9 ∷ []))) 1 4 ≡ 305419896
le-bytes_of_run = le-bytes_of (7 ∷ []) (9 ∷ []) 4 305419896 (omega arith) (omega arith)
