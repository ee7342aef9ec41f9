-- ===== src/Unified/Valid.antt =====
-- core/unified_linux.c: what holds of every snapshot, whatever the files and the devices give.
use libhwsense.Prelude.{ℕ, ◌≤◌, ◌<◌, ◌≡◌, length, ltb, if◌then◌else◌}
use libhwsense.Prelude.Int.{pos, ◌≤ℤ◌}
use libhwsense.Slots.{Slots}
use libhwsense.Slots
use libhwsense.Export.{SensorData}
use libhwsense.Unified.{Exact}

-- What a reader of a snapshot relies on: the counts stay inside the two arrays of eight, no reading that stands for a
-- failure is left, and the hours are those of a day.
pub record IsValid (d : SensorData Exact) : Type 0 where
  pub fans : (n : ℕ) × (d.fan_count ≡ pos n) × (n ≤ 8)
  pub rpms : length d.fan_rpms ≡ 8
  pub some_drive : (n : ℕ) × (d.drive_count ≡ pos n) × (n ≤ 1)
  pub drives : length d.drives ≡ 8
  pub temp : pos 0 ≤ℤ d.cpu_temp.num
  pub clock : pos 0 ≤ℤ d.cpu_clock_mhz
  pub load : pos 0 ≤ℤ d.cpu_load.num
  pub hours : (n : ℕ) × (d.uptime_hours ≡ pos n) × (n < 24)

fewer : ℕ → ℕ
fewer c = if ltb 8 c then 8 else c
