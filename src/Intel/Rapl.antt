-- ===== src/Intel/Rapl.antt =====
-- cpu/intel.c: the four power readers, each with the sample of its last call. `get_tick` is
-- GetTickCount, in milliseconds. The energy unit 1/2^n J is kept as its denominator; for n = 31 the
-- shift in the source is not defined, and the model takes 2^31.
use libhwsense.Prelude.{
  ℕ, ◌+◌, ◌-◌, ◌*◌, ◌%◌, ◌^◌, Bool, true, false, not, Option, none, some, ◌==◌, if◌then◌else◌,
}
use libhwsense.Prelude.Word.{field}
use libhwsense.Sensor.{Watts}
use libhwsense.Intel.{low, read_msr_on_core0}

-- the static variables of one reader
pub record PowerState : Type 0 where
  pub has_prev : Bool
  pub prev_energy : ℕ
  pub prev_tick : ℕ

abbrev pub fresh : PowerState
fresh = record { has_prev = false; prev_energy = 0; prev_tick = 0 }

abbrev pub sampled : ℕ → ℕ → PowerState
sampled energy tick = record { has_prev = true; prev_energy = energy; prev_tick = tick }

abbrev pub no_power : Watts
no_power = record { num = 0; den = 1 }

-- `a - b` in DWORD
unfoldable pub dword_sub : ℕ → ℕ → ℕ
dword_sub a b = (a + 2 ^ 32 - b) % 2 ^ 32

-- the unit's denominator, of the register or by default
unfoldable pub energy_unit_of : Option ℕ → ℕ
energy_unit_of none = 8
energy_unit_of (some v) = 2 ^ field (low v) 0 5

module _ {S : Type 0} (set_affinity : ℕ → S → Option ℕ × S) (rdmsr : ℕ → S → Option ℕ × S)
    (get_tick : S → ℕ × S) where
  unfoldable pub get_rapl_energy_unit : S → ℕ × S
  get_rapl_energy_unit s =
      let (v, s₁) = read_msr_on_core0 set_affinity rdmsr 0x606 s in (energy_unit_of v, s₁)

  -- the steps behind the tick
  unfoldable pub on_sample : PowerState → ℕ → ℕ → S → Watts × (PowerState × S)
  on_sample st energy_raw now_tick s =
      let energy_delta = dword_sub energy_raw st.prev_energy in
      let time_delta_ms = dword_sub now_tick st.prev_tick in
      let (unit, s₁) = get_rapl_energy_unit s in
      if not st.has_prev
      then (no_power, (sampled energy_raw now_tick, s))
      else if time_delta_ms == 0
      then (no_power, (st, s))
      else (
        record { num = energy_delta * 1000; den = unit * time_delta_ms },
        (sampled energy_raw now_tick, s₁),
      )

  -- The steps behind the energy register; `none` is the result -1.0.
  unfoldable pub on_energy : PowerState → Option ℕ × S → Option Watts × (PowerState × S)
  on_energy st (none, s) = (none, (st, s))
  on_energy st (some v, s) =
      let (now_tick, s₁) = get_tick s in
      let (w, st') = on_sample st (low v) now_tick s₁ in (some w, st')

  -- the body that the four readers have in common
  unfoldable pub power : ℕ → PowerState → S → Option Watts × (PowerState × S)
  power msr st s = on_energy st (read_msr_on_core0 set_affinity rdmsr msr s)

  unfoldable pub package_power : PowerState → S → Option Watts × (PowerState × S)
  package_power = power 0x610

  unfoldable pub pp0_power : PowerState → S → Option Watts × (PowerState × S)
  pp0_power = power 0x639

  unfoldable pub pp1_power : PowerState → S → Option Watts × (PowerState × S)
  pp1_power = power 0x641

  unfoldable pub dram_power : PowerState → S → Option Watts × (PowerState × S)
  dram_power = power 0x619
