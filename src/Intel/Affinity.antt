-- ===== src/Intel/Affinity.antt =====
-- cpu/intel.c: the thread's affinity mask.
use libhwsense.Prelude.{
  ℕ, zero, suc, ◌+◌, ◌≡◌, refl, ◌∙◌, Bool, true, false, not, Bool-cases, inl, inr, Option, none,
  some, ◌==◌,
}
use libhwsense.Intel.{
  core_mask, msr_therm_status, msr_temperature_target, low, read_pinned, read_msr_on_core,
  read_msr_on_core0, status_step, target_step, core_temp_on_core, temps_from, all_core_temps,
}
use libhwsense.Intel.Rapl.{PowerState, dword_sub, get_rapl_energy_unit, on_sample, on_energy, power}

-- What SetThreadAffinityMask does: it takes a mask of allowed processors and returns the mask that was
-- in force, or refuses and changes nothing; the mask in force is allowed. A register read changes none.
pub record IsThread {S : Type 0} (set_affinity : ℕ → S → Option ℕ × S)
    (rdmsr : ℕ → S → Option ℕ × S) (mask : S → ℕ) (allowed : ℕ → Bool) : Type 0 where
  pub in_force : (s : S) → allowed (mask s) ≡ true
  pub takes :
      (m : ℕ) (s : S)
      → allowed m ≡ true
      → ((set_affinity m s).0 ≡ some (mask s)) × (mask (set_affinity m s).1 ≡ m)
  pub refuses :
      (m : ℕ) (s : S)
      → allowed m ≡ false
      → ((set_affinity m s).0 ≡ none) × (mask (set_affinity m s).1 ≡ mask s)
  pub reads : (msr : ℕ) (s : S) → mask (rdmsr msr s).1 ≡ mask s

module _ {S : Type 0} (set_affinity : ℕ → S → Option ℕ × S) (rdmsr : ℕ → S → Option ℕ × S)
    (mask : S → ℕ) (allowed : ℕ → Bool) (thread : IsThread set_affinity rdmsr mask allowed) where
  read_restores :
      (msr core : ℕ) (s : S) → mask (read_msr_on_core set_affinity rdmsr msr core s).1 ≡ mask s
  unfolding read_msr_on_core
  read_restores msr core s = elim (Bool-cases (allowed (core_mask core))) [
    | inl e ↦ pinned _ _ (thread.takes (core_mask core) s e).0
    | inr e ↦
        refused _ _ (thread.refuses (core_mask core) s e).0
        ∙ (thread.refuses (core_mask core) s e).1
  ]
    where
      pinned :
          (o : Option ℕ) (s' : S)
          → o ≡ some (mask s)
          → mask (read_pinned set_affinity rdmsr msr (o, s')).1 ≡ mask s
      pinned o s' e =
          unfold read_pinned in rw e (thread.takes (mask s) (rdmsr msr s').1 (thread.in_force s)).1

      refused :
          (o : Option ℕ) (s' : S)
          → o ≡ none
          → mask (read_pinned set_affinity rdmsr msr (o, s')).1 ≡ mask s'
      refused o s' e = unfold read_pinned in rw e refl

  status_restores :
      (core target : ℕ) (o : Option ℕ) (s : S)
      → mask (status_step set_affinity rdmsr core target (o, s)).1 ≡ mask s
  unfolding status_step
  status_restores core target none s = refl
  status_restores core target (some v) s = refl

  target_restores :
      (core : ℕ) (o : Option ℕ) (s : S)
      → mask (target_step set_affinity rdmsr core (o, s)).1 ≡ mask s
  unfolding target_step
  target_restores core none s = refl
  target_restores core (some v) s =
      status_restores core _ _ _ ∙ read_restores msr_therm_status core s

  temp_restores : (core : ℕ) (s : S) → mask (core_temp_on_core set_affinity rdmsr core s).1 ≡ mask s
  unfolding core_temp_on_core
  temp_restores core s = target_restores core _ _ ∙ read_restores msr_temperature_target core s

  temps_restore : (n i : ℕ) (s : S) → mask (temps_from set_affinity rdmsr n i s).1 ≡ mask s
  unfolding temps_from
  temps_restore zero i s = refl
  temps_restore (suc n) i s =
      let rest =
        temps_restore n (i + 1) (core_temp_on_core set_affinity rdmsr i s).1 ∙ temp_restores i s in
      elim (Bool-cases (core_temp_on_core set_affinity rdmsr i s).0.ok) [
        | inl e ↦ rw e rest
        | inr e ↦ rw e rest
      ]

  -- Reading the temperatures of all cores, each on the core that its mask names, leaves the thread's mask as it was:
  -- also for cores that the mask may not be set to, and for reads that fail.
  pub all_core_temps-restores :
      (num_cores max_cores : ℕ) (s : S)
      → mask (all_core_temps set_affinity rdmsr num_cores max_cores s).1 ≡ mask s
  unfolding all_core_temps
  all_core_temps-restores num_cores max_cores s = temps_restore _ 0 s

  module _ (get_tick : S → ℕ × S) (ticks : (s : S) → mask (get_tick s).1 ≡ mask s) where
    unit_restores : (s : S) → mask (get_rapl_energy_unit set_affinity rdmsr get_tick s).1 ≡ mask s
    unfolding get_rapl_energy_unit read_msr_on_core0
    unit_restores s = read_restores 0x606 0 s

    sample_restores :
        (st : PowerState) (energy tick : ℕ) (s : S)
        → mask (on_sample set_affinity rdmsr get_tick st energy tick s).1.1 ≡ mask s
    unfolding on_sample
    sample_restores st energy tick s = elim (Bool-cases (not st.has_prev)) [
      | inl e ↦ rw e refl
      | inr e ↦ elim (Bool-cases (dword_sub tick st.prev_tick == 0)) [
        | inl z ↦ rw (e, z) refl
        | inr z ↦ rw (e, z) (unit_restores s)
      ]
    ]

    energy_restores :
        (st : PowerState) (o : Option ℕ) (s : S)
        → mask (on_energy set_affinity rdmsr get_tick st (o, s)).1.1 ≡ mask s
    unfolding on_energy
    energy_restores st none s = refl
    energy_restores st (some v) s =
        sample_restores st (low v) (get_tick s).0 (get_tick s).1 ∙ ticks s

    -- A power reader, whatever its last sample, leaves the thread's mask as it was, if reading the tick
    -- does.
    pub power-restores :
        (msr : ℕ) (st : PowerState) (s : S)
        → mask (power set_affinity rdmsr get_tick msr st s).1.1 ≡ mask s
    unfolding power read_msr_on_core0
    power-restores msr st s = energy_restores st _ _ ∙ read_restores msr 0 s
