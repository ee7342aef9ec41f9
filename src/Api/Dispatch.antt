-- ===== src/Api/Dispatch.antt =====
-- core/api.c: what happens on a processor of another vendor, and how two functions for one value agree.
use libhwsense.Prelude.{ℕ, ◌≡◌, refl, Option}
use libhwsense.CpuTemp.{Vendor, intel, amd, arm, unknown}
use libhwsense.Intel.Rapl.{PowerState}
use libhwsense.Api.{
  Context, null, no_handle, valid, Refusal, invalid_context, unsupported_cpu, no_soc_rail, Electric,
  intel_value, svi2_result, no_value, Value, minus_one, svi2_value, intel_or_minus_one,
  cpu_core_voltage, cpu_core_voltage_value, svi2_core_value, cpu_package_power,
  cpu_package_power_watts, svi2_power_value,
}

-- a context with a driver, on a processor of one of the two vendors
abbrev pub IsServed : Context → Vendor → Type 0
IsServed valid intel = Unit
IsServed valid amd = Unit
IsServed ctx vendor = ⊥

-- why there is no reading
abbrev pub reason : Context → Refusal
reason null = invalid_context
reason no_handle = invalid_context
reason valid = unsupported_cpu

abbrev pub soc_reason : Context → Refusal
soc_reason null = invalid_context
soc_reason no_handle = invalid_context
soc_reason valid = no_soc_rail

-- the value in an answer
abbrev pub value_of : {A : Type 0} → Electric A → Value A
value_of (intel_value v) = intel_or_minus_one v
value_of (svi2_result r) = svi2_value r
value_of (no_value e) = minus_one

module _ {S : Type 0} (set_affinity : ℕ → S → Option ℕ × S) (rdmsr : ℕ → S → Option ℕ × S)
    (smn_read : ℕ → S → Option ℕ × S) (get_tick : S → ℕ × S) where
  -- On a processor of one of the two vendors, the functions that return a core voltage and a package
  -- power as a number give the value of the result of the functions that return it with its error, -1.0
  -- for an error, and leave the same state.
  pub values_agree :
      (ctx : Context) (vendor : Vendor) (st : PowerState) (s : S)
      → IsServed ctx vendor
      → let (v, s₁) = cpu_core_voltage set_affinity rdmsr smn_read ctx vendor s in
        let (p, s₂) = cpu_package_power set_affinity rdmsr smn_read get_tick ctx vendor st s in
        (cpu_core_voltage_value set_affinity rdmsr smn_read ctx vendor s ≡ (value_of v, s₁))
        × (cpu_package_power_watts set_affinity rdmsr smn_read get_tick ctx vendor st s
            ≡ (value_of p, s₂))
  unfolding cpu_core_voltage cpu_package_power cpu_core_voltage_value cpu_package_power_watts
      svi2_core_value svi2_power_value
  values_agree null vendor st s h = elim h [ ]
  values_agree no_handle vendor st s h = elim h [ ]
  values_agree valid intel st s h = (refl, refl)
  values_agree valid amd st s h = (refl, refl)
  values_agree valid arm st s h = elim h [ ]
  values_agree valid unknown st s h = elim h [ ]
