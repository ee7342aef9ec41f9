-- ===== src/Unified.antt =====
-- core/unified_linux.c: load, memory and the other readings of one number on Linux. Doubles are exact
-- fractions. The numbers in /proc are read as `sscanf` reads unsigned ones that fit 64 bits; reading a
-- double (`scan_double`) is a parameter, in thousandths.
pub mod Busy
pub mod Linux
pub mod Valid
pub mod Windows
pub mod Agree
mod Tests
use libhwsense.Prelude.{
  ℕ, zero, suc, ◌+◌, ◌-◌, ◌*◌, ◌%◌, ◌^◌, Bool, true, false, not, ◌&&◌, ◌||◌, Option, none, some,
  List, [], ◌∷◌, ltb, leb, ◌==◌, if◌then◌else◌,
}
use libhwsense.Prelude.Int.{ℤ, pos, negsuc}
use libhwsense.Text.{Bytes, codes}
use libhwsense.Hwmon.{TempResult, celsius, failure}
use libhwsense.CpuTemp.{lines_of}

pub record Exact : Type 0 where
  pub num : ℤ
  pub den : ℕ

abbrev pub whole : ℤ → Exact
whole n = record { num = n; den = 1 }

abbrev pub minus_one : Exact
minus_one = whole (negsuc 0)

abbrev is_space : ℕ → Bool
is_space c = c == 32 || (leb 9 c && leb c 13)

abbrev is_digit : ℕ → Bool
is_digit c = leb 48 c && leb c 57

unfoldable pub skip_spaces : Bytes → Bytes
skip_spaces [] = []
skip_spaces (c ∷ s) = if is_space c then skip_spaces s else c ∷ s

-- the digits in front, on top of a value, and what is behind them
unfoldable pub scan_digits : ℕ → Bytes → ℕ × Bytes
scan_digits acc [] = (acc, [])
scan_digits acc (c ∷ s) =
    let rest = scan_digits (acc * 10 + (c - 48)) s in if is_digit c then rest else (acc, c ∷ s)

-- `%llu`
unfoldable pub scan_number : Bytes → Option (ℕ × Bytes)
scan_number s = first_digit (skip_spaces s)
  where
    first_digit : Bytes → Option (ℕ × Bytes)
    first_digit [] = none
    first_digit (c ∷ s) = if is_digit c then some (scan_digits 0 (c ∷ s)) else none

-- The text of a format in front of its first number, where a space stands for any number of spaces; `none` when it does
-- not match.
unfoldable pub scan_literal : Bytes → Bytes → Option Bytes
scan_literal [] s = some s
scan_literal (f ∷ fs) [] = if is_space f then scan_literal fs [] else none
scan_literal (f ∷ fs) (c ∷ s) =
    if is_space f
    then scan_literal fs (skip_spaces (c ∷ s))
    else if f == c
    then scan_literal fs s
    else none

abbrev then_numbers : Option (List ℕ) → ℕ → Option (List ℕ)
then_numbers none v = none
then_numbers (some vs) v = some (v ∷ vs)

-- so many numbers in a row
unfoldable pub scan_numbers : ℕ → Bytes → Option (List ℕ)
scan_numbers zero s = some []
scan_numbers (suc n) s = elim (scan_number s) [
  | none ↦ none
  | some (v, rest) ↦ then_numbers (scan_numbers n rest) v
]

-- the eight counters of the line `cpu`
pub record Stat : Type 0 where
  pub user : ℕ
  pub nice : ℕ
  pub system : ℕ
  pub idle : ℕ
  pub iowait : ℕ
  pub irq : ℕ
  pub softirq : ℕ
  pub steal : ℕ

unfoldable pub stat_of : Option (List ℕ) → Option Stat
stat_of (some (a ∷ b ∷ c ∷ d ∷ e ∷ f ∷ g ∷ h ∷ [])) = some (record {
  user = a;
  nice = b;
  system = c;
  idle = d;
  iowait = e;
  irq = f;
  softirq = g;
  steal = h;
})
stat_of _ = none

-- `fscanf` on /proc/stat; `none` also when the file cannot be opened
unfoldable pub read_stat : Option Bytes → Option Stat
read_stat none = none
read_stat (some text) = elim (scan_literal (codes "cpu ") text) [
  | none ↦ none
  | some rest ↦ stat_of (scan_numbers 8 rest)
]

abbrev pub total_of : Stat → ℕ
total_of s = s.user + s.nice + s.system + s.idle + s.iowait + s.irq + s.softirq + s.steal

-- `y - x` of unsigned words of 64 bits, which are sums
abbrev pub sub64 : ℕ → ℕ → ℕ
sub64 y x = (y % 2 ^ 64 + 2 ^ 64 - x % 2 ^ 64) % 2 ^ 64

unfoldable pub load_between : Stat → Stat → Exact
load_between a b =
    let idle = sub64 (b.idle + b.iowait) (a.idle + a.iowait) in
    let total = sub64 (total_of b) (total_of a) in
    if total == 0 then whole (pos 0) else record { num = pos (100 * sub64 total idle); den = total }

unfoldable pub load_of : Option Stat → Option Stat → Exact
load_of none b = minus_one
load_of (some a) none = minus_one
load_of (some a) (some b) = load_between a b

-- from /proc/stat at the two times, 100 ms apart
unfoldable pub get_cpu_load : Option Bytes → Option Bytes → Exact
get_cpu_load stat later = load_of (read_stat stat) (read_stat later)

-- in KiB
pub record MemInfo : Type 0 where
  pub total : ℕ
  pub avail : ℕ

-- `sscanf` of a line with a name in front of a number, which leaves the old value when it does not match
unfoldable pub field_or : Bytes → Bytes → ℕ → ℕ
field_or format line old = elim (scan_literal format line) [
  | none ↦ old
  | some rest ↦ elim (scan_number rest) [ none ↦ old | some (v, r) ↦ v ]
]

unfoldable pub scan_meminfo : List Bytes → MemInfo → MemInfo
scan_meminfo [] m = m
scan_meminfo (line ∷ lines) m = scan_meminfo lines (record {
  total = field_or (codes "MemTotal: ") line m.total;
  avail = field_or (codes "MemAvailable: ") line m.avail;
})

-- the total and the used memory, in KiB
pub record Memory : Type 0 where
  pub total_kb : ℕ
  pub used_kb : ℕ

unfoldable pub used_of : MemInfo → Option Memory
used_of m =
    if m.total == 0
    then none
    else some (record { total_kb = m.total; used_kb = sub64 m.total m.avail })

unfoldable pub meminfo : Option Bytes → Option Memory
meminfo none = none
meminfo (some text) = used_of (scan_meminfo (lines_of 128 text) (record { total = 0; avail = 0 }))

abbrev pub gb : ℕ → Exact
gb kb = record { num = pos kb; den = 1048576 }

unfoldable pub get_memory_used : Option Bytes → Exact
get_memory_used text = elim (meminfo text) [ none ↦ minus_one | some m ↦ gb m.used_kb ]

-- from the result of `hwsense_cpu_package_temp`, in thousandths of a degree
unfoldable pub get_cpu_temp : TempResult → Exact
get_cpu_temp (celsius c) = record { num = c; den = 1000 }
get_cpu_temp (failure e) = minus_one
