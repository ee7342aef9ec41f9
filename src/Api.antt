-- ===== src/Api.antt =====
-- core/api.c: the functions of the interface on Windows, which choose a reader by the vendor; and the
-- clock and the vendor of cpu/amd_zen.c. Register reads, SMN reads, the tick count and the thread's mask
-- are parameters, as in Intel, Svi2 and Zen.
pub mod Dispatch
pub mod Unsupported
mod Tests
use libhwsense.Prelude.{
  ℕ, ◌+◌, ◌*◌, ◌/◌, ◌%◌, ◌^◌, Bool, true, false, ◌||◌, Option, none, some, ltb, ◌==◌, if◌then◌else◌,
}
use libhwsense.Prelude.Int.{ℤ, pos, negsuc}
use libhwsense.Prelude.Word.{field}
use libhwsense.Text.{Bytes, codes, strstr}
use libhwsense.CpuTemp.{Vendor, intel, amd, arm, unknown}
use libhwsense.Intel
use libhwsense.Intel.Rapl
use libhwsense.Intel.Rapl.{PowerState}
use libhwsense.Sensor.{Watts}
use libhwsense.Smu.PmTable.{Answer, MemoryInput, Wanted, Diag}
use libhwsense.Smu.PmTable
use libhwsense.Svi2
use libhwsense.Zen

-- the `VendorIdentifier` of the registry, `none` when it cannot be read
unfoldable pub detect_vendor : Option Bytes → Vendor
detect_vendor none = unknown
detect_vendor (some vendor) =
    if strstr vendor (codes "Intel")
    then intel
    else if strstr vendor (codes "AMD") || strstr vendor (codes "AuthenticAMD")
    then amd
    else unknown

-- The clock of the P-state register; `none` is the -1 of a failed read.
unfoldable pub clock_of : Option ℕ → ℤ
clock_of none = negsuc 0
clock_of (some v) =
    let eax = v % 2 ^ 32 in
    let freq = field eax 0 8 * 200 / field eax 8 6 in
    if field eax 8 6 == 0
    then negsuc 0
    else if ltb freq 400 || ltb 8000 freq
    then negsuc 0
    else pos freq

-- A context pointer: null, with a driver handle that is null or invalid, or with a handle.
pub data Context : Type 0 where
  null no_handle valid : Context

-- why there is no reading
pub data Refusal : Type 0 where
  invalid_context unsupported_cpu no_soc_rail : Refusal

-- a temperature, or a voltage or power: of the reader of a vendor, or refused
pub data Temperature : Type 0 where
  of_intel : Intel.TempResult → Temperature
  of_amd : Option ℤ → Temperature
  refused : Refusal → Temperature

-- `none` of an Intel reader is the message of a failed register
pub data Electric (A : Type 0) : Type 0 where
  intel_value : Option A → Electric A
  svi2_result : Svi2.VoltageResult → Electric A
  no_value : Refusal → Electric A

-- a value of the functions that return a double: `none` is -1.0
pub data Value (A : Type 0) : Type 0 where
  intel_number : A → Value A
  svi2_number : ℕ → Value A
  minus_one : Value A

unfoldable pub svi2_value : {A : Type 0} → Svi2.VoltageResult → Value A
svi2_value r = if r.ok then svi2_number r.volts else minus_one

unfoldable pub intel_or_minus_one : {A : Type 0} → Option A → Value A
intel_or_minus_one none = minus_one
intel_or_minus_one (some v) = intel_number v

module _ {S : Type 0} (set_affinity : ℕ → S → Option ℕ × S) (rdmsr : ℕ → S → Option ℕ × S)
    (smn_read : ℕ → S → Option ℕ × S) where
  unfoldable pub amd_cpu_freq : S → ℤ × S
  amd_cpu_freq s =
      let (v, s') = Intel.read_msr_on_core0 set_affinity rdmsr 0xc0010293 s in (clock_of v, s')

  unfoldable pub cpu_package_temp : Context → Vendor → S → Temperature × S
  cpu_package_temp null vendor s = (refused invalid_context, s)
  cpu_package_temp no_handle vendor s = (refused invalid_context, s)
  cpu_package_temp valid intel s =
      let (r, s') = Intel.core_temp set_affinity rdmsr s in (of_intel r, s')
  cpu_package_temp valid amd s = let (r, s') = Zen.package_temp smn_read s in (of_amd r, s')
  cpu_package_temp valid arm s = (refused unsupported_cpu, s)
  cpu_package_temp valid unknown s = (refused unsupported_cpu, s)

  unfoldable pub cpu_core_voltage : Context → Vendor → S → Electric ℕ × S
  cpu_core_voltage null vendor s = (no_value invalid_context, s)
  cpu_core_voltage no_handle vendor s = (no_value invalid_context, s)
  cpu_core_voltage valid amd s = let (r, s') = Svi2.core_voltage smn_read s in (svi2_result r, s')
  cpu_core_voltage valid intel s =
      let (v, s') = Intel.core_voltage set_affinity rdmsr s in (intel_value v, s')
  cpu_core_voltage valid arm s = (no_value unsupported_cpu, s)
  cpu_core_voltage valid unknown s = (no_value unsupported_cpu, s)

  unfoldable pub amd_soc_voltage_dispatch : Context → Vendor → S → Electric ℕ × S
  amd_soc_voltage_dispatch null vendor s = (no_value invalid_context, s)
  amd_soc_voltage_dispatch no_handle vendor s = (no_value invalid_context, s)
  amd_soc_voltage_dispatch valid amd s =
      let (r, s') = Svi2.soc_voltage smn_read s in (svi2_result r, s')
  amd_soc_voltage_dispatch valid intel s = (no_value no_soc_rail, s)
  amd_soc_voltage_dispatch valid arm s = (no_value no_soc_rail, s)
  amd_soc_voltage_dispatch valid unknown s = (no_value no_soc_rail, s)

  unfoldable pub cpu_core_clock : Context → Vendor → S → ℤ × S
  cpu_core_clock null vendor s = (negsuc 0, s)
  cpu_core_clock no_handle vendor s = (negsuc 0, s)
  cpu_core_clock valid intel s = Intel.core_clock set_affinity rdmsr s
  cpu_core_clock valid amd s = amd_cpu_freq s
  cpu_core_clock valid arm s = (negsuc 0, s)
  cpu_core_clock valid unknown s = (negsuc 0, s)

  -- the lines behind the test for Intel, which do not look at the vendor
  unfoldable pub svi2_core_value : S → Value ℕ × S
  svi2_core_value s = let (r, s') = Svi2.core_voltage smn_read s in (svi2_value r, s')

  unfoldable pub cpu_core_voltage_value : Context → Vendor → S → Value ℕ × S
  cpu_core_voltage_value null vendor s = (minus_one, s)
  cpu_core_voltage_value no_handle vendor s = (minus_one, s)
  cpu_core_voltage_value valid intel s =
      let (v, s') = Intel.core_voltage set_affinity rdmsr s in (intel_or_minus_one v, s')
  cpu_core_voltage_value valid amd s = svi2_core_value s
  cpu_core_voltage_value valid arm s = svi2_core_value s
  cpu_core_voltage_value valid unknown s = svi2_core_value s

  unfoldable pub read_smn_diag : Context → ℕ → S → Option ℕ × S
  read_smn_diag null addr s = (none, s)
  read_smn_diag no_handle addr s = (none, s)
  read_smn_diag valid addr s = smn_read addr s

module _ {S : Type 0} (set_affinity : ℕ → S → Option ℕ × S) (rdmsr : ℕ → S → Option ℕ × S)
    (smn_read : ℕ → S → Option ℕ × S) (get_tick : S → ℕ × S) where
  -- a power reading, with the static sample of the Intel reader
  unfoldable pub cpu_package_power :
      Context → Vendor → PowerState → S → Electric Watts × (PowerState × S)
  cpu_package_power null vendor st s = (no_value invalid_context, (st, s))
  cpu_package_power no_handle vendor st s = (no_value invalid_context, (st, s))
  cpu_package_power valid amd st s =
      let (r, s') = Svi2.package_power smn_read s in (svi2_result r, (st, s'))
  cpu_package_power valid intel st s =
      let (w, s') = Rapl.package_power set_affinity rdmsr get_tick st s in (intel_value w, s')
  cpu_package_power valid arm st s = (no_value unsupported_cpu, (st, s))
  cpu_package_power valid unknown st s = (no_value unsupported_cpu, (st, s))

  unfoldable pub svi2_power_value : PowerState → S → Value Watts × (PowerState × S)
  svi2_power_value st s = let (r, s') = Svi2.package_power smn_read s in (svi2_value r, (st, s'))

  unfoldable pub cpu_package_power_watts :
      Context → Vendor → PowerState → S → Value Watts × (PowerState × S)
  cpu_package_power_watts null vendor st s = (minus_one, (st, s))
  cpu_package_power_watts no_handle vendor st s = (minus_one, (st, s))
  cpu_package_power_watts valid intel st s =
      let (w, s') = Rapl.package_power set_affinity rdmsr get_tick st s in
      (intel_or_minus_one w, s')
  cpu_package_power_watts valid amd st s = svi2_power_value st s
  cpu_package_power_watts valid arm st s = svi2_power_value st s
  cpu_package_power_watts valid unknown st s = svi2_power_value st s

module _ {S : Type 0} (smn_read : ℕ → S → Option ℕ × S) (smn_write : ℕ → ℕ → S → Bool × S) where
  -- `none` is a refusal, on which nothing is written
  unfoldable pub smu_diag : Context → ℕ → Wanted → S → Option (Bool × Diag) × S
  smu_diag null eax w s = (none, s)
  smu_diag no_handle eax w s = (none, s)
  smu_diag valid eax w s =
      let (ok, d, s') = PmTable.smu_diag smn_read smn_write eax w s in (some (ok, d), s')

  unfoldable pub amd_pmtable_power :
      (MemoryInput → S → Answer × S) → (ℕ → S → S) → Context → ℕ → S × ℕ → Option ℕ × (S × ℕ)
  amd_pmtable_power read_memory sleep null eax st = (none, st)
  amd_pmtable_power read_memory sleep no_handle eax st = (none, st)
  amd_pmtable_power read_memory sleep valid eax st =
      PmTable.pmtable_power_raw smn_read smn_write read_memory sleep eax st
