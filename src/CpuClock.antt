-- ===== src/CpuClock.antt =====
-- core/sensors_linux.c: the mean clock of the processors. How `sscanf` reads a double (`scan_double`) is
-- a parameter, in thousandths.
pub mod Mean
use libhwsense.Prelude.{
  ℕ, zero, suc, ◌+◌, ◌*◌, ◌/◌, Bool, true, false, Option, none, some, List, [], ◌∷◌, ◌++◌, ◌==◌,
  if◌then◌else◌,
}
use libhwsense.Prelude.Int.{ℤ, pos, negsuc, ◌+ℤ◌, to_int, to_long}
use libhwsense.Text.{Bytes, codes, starts_with}
use libhwsense.Board.{quot}
use libhwsense.Sysfs.{Files, decimal, read_long}
use libhwsense.Thermal.{behind_colon}
use libhwsense.CpuTemp.{lines_of}

-- the sum and the number of the values so far
abbrev pub Total : Type 0
Total = ℤ × ℕ

abbrev pub add_some : Option ℤ → Total → Total
add_some none t = t
add_some (some v) (sum, n) = (sum +ℤ v, n + 1)

-- the same for the sum in a `long` of 64 bits, which wraps
abbrev pub add_long : Option ℤ → Total → Total
add_long none t = t
add_long (some v) (sum, n) = (to_long (sum +ℤ v), n + 1)

-- the rest of the loop behind a value, and the total where it breaks off
abbrev pub go_on : Option ℤ → Total → Total → Total
go_on none rest t = t
go_on (some v) rest t = rest

unfoldable pub frequency_path : ℕ → Bytes
frequency_path cpu =
    codes "/sys/devices/system/cpu/cpu" ++ (decimal cpu ++ codes "/cpufreq/scaling_cur_freq")

module _ (files : Files) where
  unfoldable pub cpu_khz : ℕ → Option ℤ
  cpu_khz cpu = read_long files (frequency_path cpu)

  -- the loop over the processors, which stops at the first without a frequency, with the rounds left
  unfoldable pub sum_khz : ℕ → ℕ → Total → Total
  sum_khz zero cpu t = t
  sum_khz (suc n) cpu t = go_on (cpu_khz cpu) (sum_khz n (cpu + 1) (add_long (cpu_khz cpu) t)) t

-- the clock in a line, `none` in another one
unfoldable pub line_mhz : (Bytes → Option ℤ) → Bytes → Option ℤ
line_mhz scan_double line =
    if starts_with line (codes "cpu MHz")
    then elim (behind_colon line) [ none ↦ none | some text ↦ scan_double text ]
    else none

unfoldable pub sum_mhz : (Bytes → Option ℤ) → List Bytes → Total → Total
sum_mhz scan_double [] t = t
sum_mhz scan_double (line ∷ lines) t =
    sum_mhz scan_double lines (add_some (line_mhz scan_double line) t)

-- `-1` of no value, and otherwise the mean with its unit divided away, as an `int` (of a double that no `int`
-- holds the C standard does not say what it becomes)
unfoldable pub mean_or_minus_one : ℕ → Total → ℤ
mean_or_minus_one unit (sum, n) = if n == 0 then negsuc 0 else to_int (quot (quot sum n) unit)

unfoldable pub cpuinfo_clock : (Bytes → Option ℤ) → Option Bytes → ℤ
cpuinfo_clock scan_double none = negsuc 0
cpuinfo_clock scan_double (some text) =
    mean_or_minus_one 1000 (sum_mhz scan_double (lines_of 256 text) (pos 0, 0))

-- `sum / n / 1000`, or else the clocks in /proc/cpuinfo. A line `cpu MHz` without a colon is taken for
-- one without a number.
unfoldable pub cpu_core_clock : Files → (Bytes → Option ℤ) → ℤ
cpu_core_clock files scan_double =
    let t = sum_khz files 1024 0 (pos 0, 0) in
    if t.1 == 0
    then cpuinfo_clock scan_double (files (codes "/proc/cpuinfo"))
    else mean_or_minus_one 1000 t
