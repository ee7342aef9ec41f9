-- ===== src/Api/Tests.antt =====
-- core/api.c over a counter of accesses, and the theorems at it.
use libhwsense.Prelude.{ℕ, ◌+◌, ◌≡◌, refl, Option, some}
use libhwsense.Prelude.Int.{pos}
use libhwsense.Text.{codes, strstr, starts_with}
use libhwsense.CpuTemp.{unknown, amd}
use libhwsense.Intel.Rapl.{fresh}
use libhwsense.Svi2
use libhwsense.Api.{
  valid, clock_of, detect_vendor, svi2_core_value, cpu_core_voltage, cpu_core_voltage_value,
  cpu_package_power, cpu_package_power_watts,
}
use libhwsense.Api.Dispatch.{value_of, values_agree}

abbrev mask : ℕ → ℕ → Option ℕ × ℕ
mask m n = (some 1, n + 1)

-- a core clock of 3600 MHz
abbrev rdmsr : ℕ → ℕ → Option ℕ × ℕ
rdmsr reg n = (some 0x890, n + 1)

abbrev smn : ℕ → ℕ → Option ℕ × ℕ
smn addr n = (some 0x10, n + 1)

abbrev tick : ℕ → ℕ × ℕ
tick n = (n, n + 1)

clock_run : clock_of (some 0x890) ≡ pos 3600
unfolding clock_of
clock_run = refl

vendor_run : detect_vendor (some (codes "AuthenticAMD")) ≡ amd
unfolding detect_vendor strstr starts_with
vendor_run = refl

-- A processor of another vendor is read like one of AMD's here.
other_vendor_run : (cpu_core_voltage_value mask rdmsr smn valid unknown 0).1 ≡ 1
unfolding cpu_core_voltage_value svi2_core_value Svi2.core_voltage
other_vendor_run = refl

values_agree_run :
    let (v, s₁) = cpu_core_voltage mask rdmsr smn valid amd 0 in
    let (p, s₂) = cpu_package_power mask rdmsr smn tick valid amd fresh 0 in
    (cpu_core_voltage_value mask rdmsr smn valid amd 0 ≡ (value_of v, s₁))
    × (cpu_package_power_watts mask rdmsr smn tick valid amd fresh 0 ≡ (value_of p, s₂))
values_agree_run = values_agree mask rdmsr smn tick valid amd fresh 0 tt
