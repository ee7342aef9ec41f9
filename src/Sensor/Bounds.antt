-- ===== src/Sensor/Bounds.antt =====
-- What the temperature formulas of core/sensor_math.h can return.
use libhwsense.Prelude.{ℕ, ◌*◌, ◌/◌, ◌%◌, ◌^◌, ◌≤◌, ◌<◌, ◌≡◌, ◌≢◌, ◌↔◌, ◌⊎◌, true, arith}
use libhwsense.Prelude.Int.{pos, negsuc, ◌≤ℤ◌, ◌-ℤ◌}
use libhwsense.Sensor.{
  intel_tjmax, intel_temp_c, amd_tctl_c, amd_ccd_temp_c, amd_ccd_temp_plausible,
}

pub intel_tjmax_range : (target : ℕ) → (50 ≤ intel_tjmax target) × (intel_tjmax target ≤ 150)
unfolding intel_tjmax
intel_tjmax_range target = ground arith

-- Every pair of register values gives an Intel temperature from -77 to 150 degrees: it is never above
-- the maximum junction temperature in use, and falls below it by the 7-bit readout.
pub intel_temp_range :
    (target status : ℕ)
    → (negsuc 76 ≤ℤ intel_temp_c target status)
      × (intel_temp_c target status ≤ℤ pos (intel_tjmax target))
      × (pos (intel_tjmax target) ≤ℤ pos 150)
unfolding intel_temp_c ◌-ℤ◌
intel_temp_range target status = ground (arith, intel_tjmax_range target)

-- The control temperature of a 32-bit register is 125 thousandths for each unit of its eleven high
-- bits, and 49 degrees less exactly when bit 19 is set or bits 17 and 16 are both set.
pub amd_tctl_c_lem :
    (raw : ℕ)
    → raw < 2 ^ 32
    → ((raw / 2 ^ 19 % 2 ≡ 1) ⊎ (raw / 2 ^ 16 % 4 ≡ 3)
        → amd_tctl_c raw ≡ pos (raw / 2 ^ 21 * 125) -ℤ pos 49000)
      × (raw / 2 ^ 19 % 2 ≡ 0 → raw / 2 ^ 16 % 4 ≢ 3 → amd_tctl_c raw ≡ pos (raw / 2 ^ 21 * 125))
unfolding amd_tctl_c ◌-ℤ◌
amd_tctl_c_lem raw h = (λ s. ground arith, λ a b. ground arith)

-- A die register is accepted exactly when it is not zero and its 12-bit value is one of the 1521
-- values from 2120 (-40 degrees) to 3640 (150 degrees).
pub amd_ccd_temp_plausible_iff :
    (raw : ℕ)
    → (amd_ccd_temp_plausible raw ≡ true)
      ↔ ((raw ≢ 0) × (2120 ≤ raw % 2 ^ 12) × (raw % 2 ^ 12 ≤ 3640))
unfolding amd_ccd_temp_plausible amd_ccd_temp_c ◌-ℤ◌
amd_ccd_temp_plausible_iff raw = (λ h. ground arith, λ h. ground arith)
