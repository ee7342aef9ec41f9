-- ===== src/Intel.antt =====
-- cpu/intel.c: model-specific registers read on a chosen core, and what is computed of them.
-- Parameters: `set_affinity` is SetThreadAffinityMask, which sets the thread's mask and returns the old
-- one or fails, and `rdmsr` is the driver's 64-bit read of a register on the core the thread is on.
-- The shift of an `int` by a core's number is defined up to 30; from there on it is what x86 makes of it. Degrees are whole, and a voltage
-- counts 8192ths of a volt; both are exact.
pub mod Rapl
pub mod Affinity
pub mod Temps
pub mod Power
mod Tests
use libhwsense.Prelude.{
  ℕ, zero, suc, ◌+◌, ◌-◌, ◌*◌, ◌/◌, ◌%◌, ◌^◌, Bool, true, false, not, ◌||◌, Option, none, some,
  List, [], ◌∷◌, ltb, ◌==◌, if◌then◌else◌,
}
use libhwsense.Prelude.Int.{ℤ, pos, negsuc, ◌-ℤ◌}
use libhwsense.Prelude.Word.{field}

abbrev pub msr_temperature_target : ℕ
msr_temperature_target = 0x1a2

abbrev pub msr_therm_status : ℕ
msr_therm_status = 0x19c

abbrev pub msr_perf_status : ℕ
msr_perf_status = 0x198

pub data TempError : Type 0 where
  rdmsr_failed : ℕ → ℕ → TempError
  not_valid : ℕ → TempError

pub record TempResult : Type 0 where
  pub ok : Bool
  pub celsius : ℤ
  pub error : Option TempError

abbrev pub failed : TempError → TempResult
failed e = record { ok = false; celsius = pos 0; error = some e }

-- What the second register gives, with the first one's low half.
unfoldable pub temp_of_status : ℕ → ℕ → ℕ → TempResult
temp_of_status core_id target status =
    let read = field target 16 8 in
    let tj_max = if ltb read 50 || ltb 150 read then 100 else read in
    if field status 31 1 == 0
    then failed (not_valid core_id)
    else record { ok = true; celsius = pos tj_max -ℤ pos (field status 16 7); error = none }

-- `(DWORD)(msr_val & 0xFFFFFFFF)`
abbrev pub low : ℕ → ℕ
low v = v % 2 ^ 32

-- `int`, -1 without a register
unfoldable pub clock_of : Option ℕ → ℤ
clock_of none = negsuc 0
clock_of (some v) = pos (field (low v) 8 8 * 100)

-- `none` is the result -1.0.
unfoldable pub voltage_of : Option ℕ → Option ℕ
voltage_of none = none
voltage_of (some v) = some (v / 2 ^ 32 % 2 ^ 32 % 2 ^ 16)

-- `(DWORD_PTR)(1 << core_id)`: the shift takes the low five bits of the count, and the sign is extended to 64 bits
abbrev pub core_mask : ℕ → ℕ
core_mask core_id = if core_id % 32 == 31 then 2 ^ 64 - 2 ^ 31 else 2 ^ (core_id % 32)

module _ {S : Type 0} (set_affinity : ℕ → S → Option ℕ × S) (rdmsr : ℕ → S → Option ℕ × S) where
  -- the steps behind the first change of the mask
  unfoldable pub read_pinned : ℕ → Option ℕ × S → Option ℕ × S
  read_pinned msr_index (none, s) = (none, s)
  read_pinned msr_index (some old_mask, s) =
      let (v, s₁) = rdmsr msr_index s in (v, (set_affinity old_mask s₁).1)

  unfoldable pub read_msr_on_core : ℕ → ℕ → S → Option ℕ × S
  read_msr_on_core msr_index core_id s = read_pinned msr_index (set_affinity (core_mask core_id) s)

  unfoldable pub read_msr_on_core0 : ℕ → S → Option ℕ × S
  read_msr_on_core0 msr_index = read_msr_on_core msr_index 0

  unfoldable pub status_step : ℕ → ℕ → Option ℕ × S → TempResult × S
  status_step core_id target (none, s) = (failed (rdmsr_failed msr_therm_status core_id), s)
  status_step core_id target (some v, s) = (temp_of_status core_id target (low v), s)

  unfoldable pub target_step : ℕ → Option ℕ × S → TempResult × S
  target_step core_id (none, s) = (failed (rdmsr_failed msr_temperature_target core_id), s)
  target_step core_id (some v, s) =
      status_step core_id (low v) (read_msr_on_core msr_therm_status core_id s)

  unfoldable pub core_temp_on_core : ℕ → S → TempResult × S
  core_temp_on_core core_id s =
      target_step core_id (read_msr_on_core msr_temperature_target core_id s)

  unfoldable pub core_temp : S → TempResult × S
  core_temp = core_temp_on_core 0

  -- the loop, from core `i` on with the rounds left: the count and the entries of `temps`
  unfoldable pub temps_from : ℕ → ℕ → S → (ℕ × List ℤ) × S
  temps_from zero i s = ((0, []), s)
  temps_from (suc n) i s =
      let (r, s₁) = core_temp_on_core i s in
      let rest = temps_from n (i + 1) s₁ in
      if r.ok
      then ((rest.0.0 + 1, r.celsius ∷ rest.0.1), rest.1)
      else ((rest.0.0, negsuc 0 ∷ rest.0.1), rest.1)

  -- The first argument is `dwNumberOfProcessors`; the loop ends at the smaller bound.
  unfoldable pub all_core_temps : ℕ → ℕ → S → (ℕ × List ℤ) × S
  all_core_temps num_cores max_cores =
      temps_from (if ltb num_cores max_cores then num_cores else max_cores) 0

  unfoldable pub core_clock_on_core : ℕ → S → ℤ × S
  core_clock_on_core core_id s =
      let (v, s₁) = read_msr_on_core msr_perf_status core_id s in (clock_of v, s₁)

  unfoldable pub core_clock : S → ℤ × S
  core_clock s = let (v, s₁) = read_msr_on_core0 msr_perf_status s in (clock_of v, s₁)

  unfoldable pub core_voltage : S → Option ℕ × S
  core_voltage s = let (v, s₁) = read_msr_on_core0 msr_perf_status s in (voltage_of v, s₁)
