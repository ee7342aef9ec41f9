-- ===== src/Intel/Temps.antt =====
-- cpu/intel.c: the temperatures, beside the formulas of core/sensor_math.h.
use libhwsense.Prelude.{
  ℕ, zero, suc, ◌+◌, ◌≤◌, ◌≡◌, ◌∙◌, refl, true, Bool-cases, inl, inr, Option, none, some, List,
  length, All, ltb, if◌then◌else◌, arith,
}
use Prim.Native.Nat.{min}
use libhwsense.Prelude.Int.{ℤ, pos, negsuc, ◌≤ℤ◌}
use libhwsense.Sensor.{intel_tjmax, intel_therm_valid, intel_temp_c}
use libhwsense.Sensor.Bounds.{intel_temp_range}
use libhwsense.Intel.{
  TempResult, not_valid, failed, temp_of_status, low, status_step, target_step, core_temp_on_core,
  temps_from, all_core_temps,
}

-- With both registers read, the result is the one of the formulas of core/sensor_math.h: their
-- temperature when their validity bit is set, and otherwise an error.
pub temp_of_status_lem :
    (core target status : ℕ)
    → temp_of_status core target status ≡ (
        if intel_therm_valid status
        then record { ok = true; celsius = intel_temp_c target status; error = none }
        else failed (not_valid core))
unfolding temp_of_status intel_therm_valid intel_temp_c intel_tjmax
temp_of_status_lem core target status = ground arith

abbrev pub InRange : ℤ → Type 0
InRange t = (negsuc 76 ≤ℤ t) × (t ≤ℤ pos 150)

module _ {S : Type 0} (set_affinity : ℕ → S → Option ℕ × S) (rdmsr : ℕ → S → Option ℕ × S) where
  Good : TempResult → Type 0
  Good r = r.ok ≡ true → InRange r.celsius

  of_status-Good : (core target status : ℕ) → Good (temp_of_status core target status)
  unfolding Good
  of_status-Good core target status =
      rw (temp_of_status_lem core target status) (elim (Bool-cases (intel_therm_valid status)) [
        | inl e ↦
            rw e (λ h. let (a, b, c) = intel_temp_range target status in (a, omega (arith, b, c)))
        | inr e ↦ rw e (λ h. cc)
      ])

  status-Good :
      (core target : ℕ) (o : Option ℕ) (s : S)
      → Good (status_step set_affinity rdmsr core target (o, s)).0
  unfolding status_step Good
  status-Good core target none s h = cc
  status-Good core target (some v) s h = of_status-Good core target (low v) h

  target-Good :
      (core : ℕ) (o : Option ℕ) (s : S) → Good (target_step set_affinity rdmsr core (o, s)).0
  unfolding target_step Good
  target-Good core none s h = cc
  target-Good core (some v) s h = status-Good core (low v) _ _ h

  temp-Good : (core : ℕ) (s : S) → Good (core_temp_on_core set_affinity rdmsr core s).0
  unfolding core_temp_on_core
  temp-Good core s = target-Good core _ _

  -- the count, and the entries, of which -1 also stands for a core that gave no temperature
  Filled : ℕ → ℕ × List ℤ → Type 0
  Filled n r = (length r.1 ≡ n) × (r.0 ≤ n) × All InRange r.1

  temps-Filled : (n i : ℕ) (s : S) → Filled n (temps_from set_affinity rdmsr n i s).0
  unfolding temps_from Filled Good
  temps-Filled zero i s = (refl, omega arith, tt)
  temps-Filled (suc n) i s =
      let (l, c, a) = temps-Filled n (i + 1) (core_temp_on_core set_affinity rdmsr i s).1 in
      elim (Bool-cases (core_temp_on_core set_affinity rdmsr i s).0.ok) [
        | inl e ↦ rw e (omega (arith, l), omega (arith, c), (temp-Good i s e, a))
        | inr e ↦ rw e (omega (arith, l), omega (arith, c), ((omega arith, omega arith), a))
      ]

  -- The loop over the cores fills as many entries as the smaller bound, each with a temperature from
  -- -77 to 150 degrees or -1, and counts at most that many cores.
  pub all_core_temps_lem :
      (num_cores max_cores : ℕ) (s : S)
      → let (count, temps) = (all_core_temps set_affinity rdmsr num_cores max_cores s).0 in
        (length temps ≡ min num_cores max_cores) × (count ≤ length temps) × All InRange temps
  unfolding all_core_temps Filled
  all_core_temps_lem num_cores max_cores s =
      let (l, c, a) = temps-Filled (if ltb num_cores max_cores then num_cores else max_cores) 0 s in
      (l ∙ ground arith, omega (arith, l, c), a)
