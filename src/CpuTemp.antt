-- ===== src/CpuTemp.antt =====
-- core/driver_linux.c and cpu/intel_linux.c: the CPU temperature on Linux, from the first source that
-- has one. The files and the 64-bit read of a register of core 0 through /dev/cpu/0/msr are parameters.
pub mod Sources
mod Tests
use libhwsense.Prelude.{
  ℕ, zero, suc, ◌+◌, ◌-◌, ◌%◌, ◌^◌, ◌*◌, Bool, true, false, not, Option, none, some, List, [], ◌∷◌,
  ◌++◌, ◌==◌, if◌then◌else◌,
}
use libhwsense.Prelude.Int.{ℤ, pos, ◌*ℤ◌}
use libhwsense.Text.{Bytes, codes, starts_with, strstr}
use libhwsense.Sensor.{intel_temp_c, intel_therm_valid}
use libhwsense.Hwmon.{TempResult, celsius, failure, hwmon_cpu_temp}
use libhwsense.Thermal.{thermal_cpu_temp}
use libhwsense.Sysfs.{Files}

-- a line on top of what `split` makes of the rest; the first component is the line that is being read
unfoldable pub as_lines : Bytes × List Bytes → List Bytes
as_lines ([], lines) = lines
as_lines (c ∷ s, lines) = (c ∷ s) ∷ lines

-- Calls of `fgets` until the end, with the bytes that the present line can still take: a line ends
-- behind a newline or when the buffer is full.
unfoldable pub split : ℕ → ℕ → Bytes → Bytes × List Bytes
split size room [] = ([], [])
split size room (c ∷ s) =
    let full : Bytes × List Bytes = (c ∷ [], as_lines (split size size s)) in
    let (line, lines) = split size (room - 1) s in
    if c == 10 then full else if room == 1 then full else (c ∷ line, lines)

-- with a buffer of `n` bytes
unfoldable pub lines_of : ℕ → Bytes → List Bytes
lines_of n text = as_lines (split (n - 1) (n - 1) text)

-- 'I', 'A', 'R' and '?'
pub data Vendor : Type 0 where
  intel amd arm unknown : Vendor

unfoldable pub vendor_in : List Bytes → Vendor
vendor_in [] = unknown
vendor_in (line ∷ lines) =
    let rest = vendor_in lines in
    if starts_with line (codes "CPU implementer")
    then arm
    else if not (starts_with line (codes "vendor_id"))
    then rest
    else if strstr line (codes "GenuineIntel")
    then intel
    else if strstr line (codes "AuthenticAMD")
    then amd
    else unknown

unfoldable pub detect_vendor : Files → Vendor
detect_vendor files = elim (files (codes "/proc/cpuinfo")) [
  | none ↦ unknown
  | some text ↦ vendor_in (lines_of 256 text)
]

-- `(uint32_t)(msr_val & 0xFFFFFFFF)`
abbrev low : ℕ → ℕ
low v = v % 2 ^ 32

-- from the registers 0x1a2 and 0x19c, in thousandths of a degree
unfoldable pub core_temp_of : Option ℕ → Option ℕ → TempResult
core_temp_of none status = failure (
    codes
      "RDMSR 0x1A2 failed on /dev/cpu/0/msr (need root/CAP_SYS_RAWIO and the msr kernel module loaded)")
core_temp_of (some target) none = failure (codes "RDMSR 0x19C failed on /dev/cpu/0/msr")
core_temp_of (some target) (some status) =
    if not (intel_therm_valid (low status))
    then failure (codes "Thermal reading not valid (bit 31 = 0)")
    else celsius (intel_temp_c (low target) (low status) *ℤ pos 1000)

unfoldable pub intel_core_temp : (ℕ → Option ℕ) → TempResult
intel_core_temp read_msr = core_temp_of (read_msr 0x1a2) (read_msr 0x19c)

abbrev pub thermal_root : Bytes
thermal_root = codes "/sys/class/thermal"

-- the lines behind the reading of hwmon, from the three sources
unfoldable pub first_source : Vendor → TempResult → TempResult → TempResult → TempResult
first_source vendor (celsius c) msr zones = celsius c
first_source intel (failure e) (celsius c) zones = celsius c
first_source intel (failure e) (failure m) (celsius c) = celsius c
first_source intel (failure e) (failure m) (failure z) = failure m
first_source vendor (failure e) msr (celsius c) = celsius c
first_source vendor (failure e) msr (failure z) = failure e

-- `none` is a null context, which otherwise holds the vendor that `hwsense_init` detects
unfoldable pub cpu_package_temp : Files → (Bytes → ℤ) → (ℕ → Option ℕ) → Option Vendor → TempResult
cpu_package_temp files atof read_msr none = failure (codes "Invalid context")
cpu_package_temp files atof read_msr (some vendor) =
    first_source vendor (hwmon_cpu_temp files atof) (intel_core_temp read_msr)
      (thermal_cpu_temp files thermal_root)
