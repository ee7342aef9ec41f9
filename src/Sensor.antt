-- ===== src/Sensor.antt =====
-- core/sensor_math.h: the formulas that turn raw register values into readings.
-- Temperatures of AMD parts are in thousandths of a degree, voltages in units of 10 µV, and the
-- RAPL energy unit 1/2^n J is kept as its denominator: the doubles of the source hold these exactly
-- or are their nearest value.
mod Tests
pub mod Bounds
pub mod Energy
use libhwsense.Prelude.{
  ℕ, zero, suc, ◌+◌, ◌-◌, ◌*◌, ◌%◌, ◌^◌, Bool, true, false, not, ◌&&◌, ◌||◌, Option, none, some,
  ltb, leb, ◌==◌, if◌then◌else◌,
}
use libhwsense.Prelude.Int.{ℤ, pos, negsuc, ◌-ℤ◌, ltb_ℤ}
use libhwsense.Prelude.Word.{field}
use libhwsense.Text.{Bytes, codes, strstr}

unfoldable pub intel_tjmax : ℕ → ℕ
intel_tjmax temp_target =
    let tj_max = field temp_target 16 8 in if ltb tj_max 50 || ltb 150 tj_max then 100 else tj_max

unfoldable pub intel_therm_valid : ℕ → Bool
intel_therm_valid therm_status = not (field therm_status 31 1 == 0)

-- in degrees
unfoldable pub intel_temp_c : ℕ → ℕ → ℤ
intel_temp_c temp_target therm_status =
    pos (intel_tjmax temp_target) -ℤ pos (field therm_status 16 7)

-- `raw >> 21` is the whole of the 32-bit word above bit 20.
unfoldable pub amd_tctl_c : ℕ → ℤ
amd_tctl_c raw =
    let temp = pos (field raw 21 11 * 125) in
    if not (field raw 19 1 == 0) || field raw 16 2 == 3 then temp -ℤ pos 49000 else temp

unfoldable pub amd_ccd_temp_c : ℕ → ℤ
amd_ccd_temp_c raw = pos (field raw 0 12 * 125) -ℤ pos 305000

unfoldable pub amd_ccd_temp_plausible : ℕ → Bool
amd_ccd_temp_plausible raw =
    if raw == 0
    then false
    else not (ltb_ℤ (amd_ccd_temp_c raw) (negsuc 39999))
      && not (ltb_ℤ (pos 150000) (amd_ccd_temp_c raw))

abbrev pub svi2_vid_off : ℕ
svi2_vid_off = 0x1ff

unfoldable pub svi2_vid : ℕ → ℕ
svi2_vid raw = field raw 16 9

unfoldable pub svi2_vid_to_volts : ℕ → ℕ
svi2_vid_to_volts vid = vid * 625

-- `none` is the null pointer.
unfoldable pub cpu_family_known : Option Bytes → ℕ → Bool
cpu_family_known none family = false
cpu_family_known (some vendor) family =
    if strstr vendor (codes "Intel")
    then family == 0x6
    else if strstr vendor (codes "AMD")
    then family == 0x15 || family == 0x17 || family == 0x19 || family == 0x1a
    else false

-- `for (i = 0; i < unit; i++) d *= 2.0`
unfoldable pub doubled : ℕ → ℕ → ℕ
doubled zero d = d
doubled (suc n) d = doubled n (d * 2)

-- the denominator of the unit
unfoldable pub rapl_energy_unit : ℕ → ℕ
rapl_energy_unit power_unit = doubled (field power_unit 8 5) 1

-- a power in watts, as a fraction
pub record Watts : Type 0 where
  pub num : ℕ
  pub den : ℕ

-- `energy_after - energy_before` in uint32_t
unfoldable pub rapl_delta : ℕ → ℕ → ℕ
rapl_delta before after = (after + 2 ^ 32 - before) % 2 ^ 32

-- The time is in milliseconds; `none` is the result -1.0.
unfoldable pub rapl_power_w : ℕ → ℕ → ℕ → ℤ → Option Watts
rapl_power_w before after unit_den (negsuc n) = none
rapl_power_w before after unit_den (pos ms) =
    if ms == 0
    then none
    else some (record { num = rapl_delta before after * 1000; den = unit_den * ms })
