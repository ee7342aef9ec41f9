-- ===== src/Intel/Tests.antt =====
-- cpu/intel.c on a simulated processor, and the theorems at it.
use libhwsense.Prelude.{
  ℕ, ◌+◌, ◌*◌, ◌/◌, ◌%◌, ◌^◌, ◌≤◌, ◌≡◌, ◌↔◌, refl, Option, none, some, Bool, true, [], ◌∷◌, All,
  length, leb, ◌&&◌, ◌==◌, if◌then◌else◌, arith,
}
use Prim.Native.Nat.{min}
use libhwsense.Prelude.Int.{pos, negsuc, ◌-ℤ◌}
use libhwsense.Sensor.{intel_therm_valid, intel_temp_c, rapl_energy_unit}
use libhwsense.Intel.{
  not_valid, failed, temp_of_status, read_pinned, read_msr_on_core, status_step, target_step,
  core_temp_on_core, temps_from, all_core_temps,
}
use libhwsense.Intel.Rapl.{sampled, energy_unit_of, get_rapl_energy_unit, on_sample, power}
use libhwsense.Intel.Affinity.{IsThread, all_core_temps-restores, power-restores}
use libhwsense.Intel.Temps.{InRange, temp_of_status_lem, all_core_temps_lem}
use libhwsense.Intel.Power.{
  energy_unit_iff, on_sample_lem, run, samples, counted, spent_in, run_counts,
}

-- The state is the thread's mask, of which the first two bits are allowed; with any other state the
-- mask is 1.
abbrev allowed : ℕ → Bool
allowed m = leb 1 m && leb m 3

abbrev mask : ℕ → ℕ
mask s = if allowed s then s else 1

abbrev affinity : ℕ → ℕ → Option ℕ × ℕ
affinity m s = if allowed m then (some (mask s), m) else (none, s)

-- 100 degrees, and a readout of 30, or of 28 on the second core
abbrev msr : ℕ → ℕ → Option ℕ × ℕ
msr index s =
    if index == 0x1a2
    then (some 6553600, s)
    else if index == 0x19c
    then (some (if s == 2 then 2149318656 else 2149449728), s)
    else if index == 0x606
    then (some 0xa0e03, s)
    else (some 0xffffffff, s)

abbrev tick : ℕ → ℕ × ℕ
tick s = (0, s)

thread : IsThread affinity msr mask allowed
thread = record {
  in_force = λ s. ground arith;
  takes = λ m s h. ground arith;
  refuses = λ m s h. ground arith;
  reads = λ i s. ground arith;
}

temps_run : (all_core_temps affinity msr 4 3 3).0 ≡ (2, pos 70 ∷ pos 72 ∷ negsuc 0 ∷ [])
unfolding all_core_temps temps_from core_temp_on_core target_step status_step read_msr_on_core
    read_pinned temp_of_status ◌-ℤ◌
temps_run = refl

all_core_temps-restores_example : mask (all_core_temps affinity msr 4 3 3).1 ≡ 3
all_core_temps-restores_example = all_core_temps-restores affinity msr mask allowed thread 4 3 3

power-restores_run : mask (power affinity msr tick 0x610 (sampled 5 6) 2).1.1 ≡ 2
power-restores_run =
    power-restores affinity msr mask allowed thread tick (λ s. refl) 0x610 (sampled 5 6) 2

all_core_temps_lem_run :
    let (count, temps) = (all_core_temps affinity msr 4 3 3).0 in
    (length temps ≡ min 4 3) × (count ≤ length temps) × All InRange temps
all_core_temps_lem_run = all_core_temps_lem affinity msr 4 3 3

temp_of_status_lem_run : temp_of_status 0 6553600 2149449728 ≡ (
    if intel_therm_valid 2149449728
    then record { ok = true; celsius = intel_temp_c 6553600 2149449728; error = none }
    else failed (not_valid 0))
temp_of_status_lem_run = temp_of_status_lem 0 6553600 2149449728

energy_unit_iff_run :
    (energy_unit_of (some 0xa0e03) ≡ rapl_energy_unit 0xa0e03)
    ↔ (0xa0e03 % 2 ^ 5 ≡ 0xa0e03 / 2 ^ 8 % 2 ^ 5)
energy_unit_iff_run = energy_unit_iff 0xa0e03 (omega arith)

on_sample_lem_run :
    let (unit, s') = get_rapl_energy_unit affinity msr tick 3 in
    on_sample affinity msr tick
      (sampled (4294967295 % 2 ^ 32) (10 % 2 ^ 32))
      ((4294967295 + 9) % 2 ^ 32)
      ((10 + 500) % 2 ^ 32)
      3
    ≡ (
      record { num = 9 * 1000; den = unit * 500 },
      (sampled ((4294967295 + 9) % 2 ^ 32) ((10 + 500) % 2 ^ 32), s'),
    )
on_sample_lem_run =
    on_sample_lem affinity msr tick 4294967295 10 9 500 3 (omega arith) (omega arith) (omega arith)

run_counts_example :
    counted (
      run affinity msr tick
        (samples 4294967295 10 ((9, 500) ∷ (3, 1) ∷ []))
        (sampled (4294967295 % 2 ^ 32) (10 % 2 ^ 32))
        3)
    ≡ 1000 * spent_in ((9, 500) ∷ (3, 1) ∷ [])
run_counts_example =
    run_counts affinity msr tick ((9, 500) ∷ (3, 1) ∷ []) 4294967295 10 3
      ((omega arith, omega arith, omega arith), ((omega arith, omega arith, omega arith), tt))
