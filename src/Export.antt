-- ===== src/Export.antt =====
-- core/export.c: a snapshot of the readings as JSON and as CSV, in a buffer of the caller's.
-- The snapshot is `hwsense_sensor_data_t` of include/hwsense_unified.h. How libc prints a double to
-- a number of places (`fmt`) is a parameter; a text is its bytes before the terminating zero.
pub mod Json
pub mod Csv
pub mod Buffer
pub mod Append
pub mod Numbers
pub mod Contract
mod Tests
use libhwsense.Prelude.{
  ℕ, zero, suc, String, ◌+◌, ◌-◌, ◌/◌, ◌%◌, Bool, true, false, not, ◌&&◌, ◌||◌, Option, none, some,
  List, [], ◌∷◌, ◌++◌, map, length, take, drop, ltb, ◌==◌, if◌then◌else◌,
}
use libhwsense.Prelude.Int.{ℤ, pos, negsuc, ltb_ℤ, to_int}
use libhwsense.Text.{Bytes, codes}

pub record Drive : Type 0 where
  pub drive_name : Bytes
  pub temperature : ℤ
  pub size_gb : ℤ
  pub used_gb : ℤ

-- `Double` is the type of the C doubles; the two arrays have eight elements.
pub record SensorData (Double : Type 0) : Type 0 where
  pub cpu_vendor : Bytes
  pub cpu_name : Bytes
  pub cpu_cores : ℤ
  pub cpu_threads : ℤ
  pub cpu_temp : Double
  pub cpu_temp_min : Double
  pub cpu_temp_max : Double
  pub cpu_temp_avg : Double
  pub gpu_temp : Double
  pub cpu_clock_mhz : ℤ
  pub cpu_clock_max_mhz : ℤ
  pub cpu_voltage : Double
  pub soc_voltage : Double
  pub cpu_power : Double
  pub cpu_power_cores : Double
  pub cpu_power_uncore : Double
  pub dram_power : Double
  pub memory_used_gb : Double
  pub memory_total_gb : Double
  pub memory_percent : ℤ
  pub cpu_load : Double
  pub uptime_days : ℤ
  pub uptime_hours : ℤ
  pub fan_count : ℤ
  pub fan_rpms : List ℤ
  pub drive_count : ℤ
  pub drives : List Drive

-- `buf` is the memory at the caller's pointer, `none` for a null pointer.
pub record Appender : Type 0 where
  pub buf : Option Bytes
  pub size : ℕ
  pub needed : ℕ

-- `vsnprintf(buf + at, remaining, "%s", text)` for `remaining > 0`: as much of the text as leaves
-- room for the terminator, and the terminator
unfoldable pub put : ℕ → ℕ → Bytes → Bytes → Bytes
put at remaining text buf =
    let written = take (remaining - 1) text in
    take at buf ++ (written ++ (0 ∷ drop (suc (at + length written)) buf))

unfoldable pub put? : ℕ → ℕ → Bytes → Option Bytes → Option Bytes
put? at remaining text none = none
put? at remaining text (some buf) = some (put at remaining text buf)

unfoldable pub append : Appender → Bytes → Appender
append a text =
    let remaining = if ltb a.needed a.size then a.size - a.needed else 0 in
    record a {
      buf = if ltb 0 remaining then put? a.needed remaining text a.buf else a.buf;
      needed = a.needed + length text;
    }

-- one call of `append` for each text
unfoldable pub appends : Appender → List Bytes → Appender
appends a [] = a
appends a (text ∷ texts) = appends (append a text) texts

-- `%d` of a number below 10 ^ 20, in front of a text
unfoldable pub digits : ℕ → ℕ → Bytes → Bytes
digits zero n s = s
digits (suc places) n s =
    let rest = digits places (n / 10) ((48 + n % 10) ∷ s) in if ltb n 10 then (48 + n) ∷ s else rest

-- `%d` and `%lld`
unfoldable pub integer : ℤ → Bytes
integer (pos n) = digits 20 n []
integer (negsuc n) = 45 ∷ digits 20 (suc n) []

-- `!data || buf_size < 0 || (buf_size > 0 && !buf)`, negated; the first test is the caller's
unfoldable pub accepts : Option Bytes → ℤ → Bool
accepts buf (negsuc n) = false
accepts none (pos n) = not (ltb 0 n)
accepts (some buf) (pos n) = true

-- `(int)a.needed`, and the memory at `buf`
unfoldable pub export : List Bytes → Option Bytes → ℤ → ℤ × Option Bytes
export texts buf (negsuc n) = (negsuc 0, buf)
export texts buf (pos n) =
    if accepts buf (pos n)
    then (let a = appends (record { buf = buf; size = n; needed = 0 }) texts in
        (to_int (pos a.needed), a.buf))
    else (negsuc 0, buf)
