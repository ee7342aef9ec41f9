-- ===== src/Unified/Tests.antt =====
-- core/unified_linux.c, core/sensors_linux.c and gpu/gpu_linux.c on a few files, and the theorems at them.
use libhwsense.Prelude.{
  ℕ, ◌+◌, ◌-◌, ◌*◌, ◌==◌, ◌≤◌, ◌≡◌, refl, Bool, true, false, Option, none, some, List, [], ◌∷◌,
  if◌then◌else◌, arith,
}
use libhwsense.Prelude.Int.{ℤ, pos, ◌+ℤ◌}
use libhwsense.Text.{Bytes, codes, starts_with}
use libhwsense.Export.{digits}
use libhwsense.Sysfs.{
  Files, before_newline, first_line, read_line, digits_value, signed_value, atol, read_long, same,
}
use libhwsense.Thermal.{behind_colon}
use libhwsense.CpuTemp.{as_lines, split, lines_of}
use libhwsense.CpuClock.{
  frequency_path, line_mhz, cpu_khz, sum_khz, mean_or_minus_one, cpu_core_clock,
}
use libhwsense.CpuClock.Mean.{ClockWithin, IsWithin, LinesWithin, cpu_core_clock-Within}
use libhwsense.Graphics.Linux.{
  Symbols, untried, usable, loaded, nvml_load, nvml_info, info_of, nvml_gpu, after_nvml, gpu_info,
}
use libhwsense.Graphics.Sources.{ReadsOrFails, gpu_info-ReadsOrFails}
use libhwsense.Unified.{
  whole, Stat, read_stat, load_between, skip_spaces, scan_digits, scan_number, scan_literal,
  scan_numbers, stat_of, field_or, scan_meminfo, used_of, meminfo,
}
use libhwsense.Unified.Busy.{IsLater, busy, passed, load_between-busy, used_of_lem}
use libhwsense.Unified.Linux.{CpuLines, on_line, scan_cpuinfo, System}

abbrev before : Stat
before = record {
  user = 100;
  nice = 0;
  system = 50;
  idle = 800;
  iowait = 10;
  irq = 0;
  softirq = 5;
  steal = 0;
}

abbrev after : Stat
after = record {
  user = 130;
  nice = 0;
  system = 60;
  idle = 850;
  iowait = 20;
  irq = 0;
  softirq = 5;
  steal = 0;
}

stat_run : read_stat (some (codes "cpu  100 0 50 800 10 0 5 0 0 0\ncpu0 1 2")) ≡ some before
unfolding read_stat scan_literal skip_spaces scan_numbers scan_number scan_digits stat_of
stat_run = refl

in_order : IsLater before after
in_order = record {
  user = omega arith;
  nice = omega arith;
  system = omega arith;
  idle = omega arith;
  iowait = omega arith;
  irq = omega arith;
  softirq = omega arith;
  steal = omega arith;
  fits = omega arith;
}

-- 40 of 100 units
load_run : load_between before after ≡ record { num = pos 4000; den = 100 }
unfolding load_between
load_run = refl

load_between-busy_example :
    (load_between before after ≡ (
      if passed before after == 0
      then whole (pos 0)
      else record { num = pos (100 * busy before after); den = passed before after }))
    × (busy before after ≤ passed before after)
load_between-busy_example = load_between-busy before after in_order

memory_run :
    meminfo (some (codes "MemTotal:     4000 kB\nMemFree: 10 kB\nMemAvailable:   1000 kB\n"))
    ≡ some (record { total_kb = 4000; used_kb = 3000 })
unfolding meminfo lines_of split as_lines scan_meminfo field_or scan_literal skip_spaces scan_number
    scan_digits used_of
memory_run = refl

used_of_lem_run :
    used_of (record { total = 4000; avail = 1000 })
    ≡ some (record { total_kb = 4000; used_kb = 4000 - 1000 })
used_of_lem_run =
    used_of_lem (record { total = 4000; avail = 1000 }) (omega arith) (omega arith) (omega arith)

no_lines : CpuLines
no_lines = record { name = []; siblings = pos 0; cores = pos 0 }

cpuinfo_run :
    (scan_cpuinfo
      (lines_of 256
        (codes "model name\t: Ryzen 5\nsiblings\t: 12\ncpu cores\t: 6\ncpu cores\t: 7\n"))
      no_lines)
    ≡ record { name = codes "Ryzen 5"; siblings = pos 12; cores = pos 6 }
unfolding no_lines scan_cpuinfo on_line lines_of split as_lines behind_colon starts_with atol
    signed_value digits_value before_newline
cpuinfo_run = refl

abbrev listed : List (Bytes × Bytes) → Bytes → Option Bytes
listed [] path = none
listed ((k, text) ∷ rest) path = if same k path then some text else listed rest path

abbrev files : Files
files = listed (
    (codes "/sys/devices/system/cpu/cpu0/cpufreq/scaling_cur_freq", codes "3600000\n")
    ∷ (codes "/sys/devices/system/cpu/cpu1/cpufreq/scaling_cur_freq", codes "2400000\n")
    ∷ [])

clock_run : mean_or_minus_one 1000 (sum_khz files 3 0 (pos 0, 0)) ≡ pos 3000
unfolding mean_or_minus_one sum_khz cpu_khz frequency_path digits same read_long read_line
    first_line before_newline atol signed_value digits_value ◌+ℤ◌
clock_run = refl

abbrev no_double : Bytes → Option ℤ
no_double text = none

-- every processor at 3000 MHz
abbrev steady : Files
steady path = some (codes "3000000\n")

steady_khz : (cpu : ℕ) → IsWithin 2000 4000 (cpu_khz steady cpu)
unfolding cpu_khz read_long read_line first_line before_newline atol signed_value digits_value
steady_khz cpu = (omega arith, omega arith)

no_clock_line : LinesWithin no_double 2000 4000 (steady (codes "/proc/cpuinfo"))
unfolding lines_of split as_lines line_mhz starts_with
no_clock_line = (tt, tt)

cpu_core_clock-Within_example : ClockWithin 2000 4000 (cpu_core_clock steady no_double)
cpu_core_clock-Within_example =
    cpu_core_clock-Within steady no_double 2000 4000 (omega arith) steady_khz no_clock_line

-- a library with the three functions that it must have
abbrev library : Symbols ℕ
library = record {
  init = some true;
  by_index = some (λ i. if i == 0 then some 7 else none);
  get_name = some (λ dev. codes "RTX");
  get_temp = some (λ dev. some 61);
  get_mem = none;
  get_power = some (λ dev. some 120500);
  get_limit = none;
  get_util = none;
  get_clock = none;
}

gpu_run : (gpu_info (some library) files (pos 0) untried).0.power_usage_w ≡ pos 120
unfolding gpu_info nvml_load loaded usable nvml_gpu info_of nvml_info after_nvml
gpu_run = refl

gpu_info-ReadsOrFails_example :
    let (g, st') = gpu_info (some library) files (pos 0) untried in
    ReadsOrFails g
    × ((n : ℕ)
        → pos 0 ≡ pos n
        → gpu_info none files (pos 1) st' ≡ gpu_info (some library) files (pos 1) untried)
gpu_info-ReadsOrFails_example = gpu_info-ReadsOrFails (some library) none files (pos 0) 1 untried

abbrev system : System ℕ
system = record {
  files = files;
  later_stat = none;
  read_msr = λ reg. none;
  scan_double = no_double;
  atof = atol;
  online = pos 4;
  boottime = some 90000;
  root = none;
  library = some library;
}

abbrev outb : ℕ → ℕ → ℕ → ℕ
outb d port value = d + 1

abbrev inb : ℕ → ℕ → Option ℕ × ℕ
inb d port = (some 255, d)

abbrev port_open : ℕ → Bool × ℕ
port_open d = (false, d)
