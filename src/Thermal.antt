-- ===== src/Thermal.antt =====
-- core/soc_linux.c: thermal zones, Adreno graphics and the name of a phone's or an ARM board's chip.
-- `root` is the path of a class directory; what a `max` of at most 0 or a null pointer makes of a call is
-- left to the callers, which pass neither.
pub mod Hottest
mod Tests
use libhwsense.Prelude.{
  ℕ, zero, suc, ◌+◌, ◌-◌, Bool, true, false, not, ◌&&◌, ◌||◌, Option, none, some, List, [], ◌∷◌,
  ◌++◌, ltb, ◌==◌, if◌then◌else◌,
}
use libhwsense.Prelude.Int.{ℤ, pos, ltb_ℤ, to_int}
use libhwsense.Text.{Bytes, codes, starts_with}
use libhwsense.Slots.{Slots, scan, cleared}
use libhwsense.Soc.{thermal_decode, thermal_is_cpu_zone, thermal_is_gpu_zone}
use libhwsense.Hwmon.{TempResult, celsius, failure}
use libhwsense.Sysfs.{Files, decimal, read_line, read_long, before_newline}

abbrev pub thermal_zone_max : ℕ
thermal_zone_max = 256

-- a zone, with its type and temperature in thousandths of a degree
pub record Zone : Type 0 where
  pub kind : Bytes
  pub degrees : ℤ

unfoldable pub zone_path : Bytes → ℕ → Bytes → Bytes
zone_path root idx file = root ++ (codes "/thermal_zone" ++ (decimal idx ++ (47 ∷ file)))

-- the result 1 with its two values; `none` is 0 or -1, which the callers do not tell apart
unfoldable pub zone_of : Option Bytes → Option ℤ → Option Zone
zone_of none raw = none
zone_of (some kind) none = none
zone_of (some kind) (some raw) = elim (thermal_decode raw) [
  | none ↦ none
  | some c ↦ some (record { kind = kind; degrees = c })
]

-- the zone when its type satisfies a test
unfoldable pub matching : (Bytes → Bool) → Option Zone → Option ℤ
matching test none = none
matching test (some z) = if test z.kind then some z.degrees else none

-- `best`, which is `none` while nothing is found
unfoldable pub hotter : Option ℤ → Option ℤ → Option ℤ
hotter best none = best
hotter none (some c) = some c
hotter (some b) (some c) = if ltb_ℤ b c then some c else some b

module _ (files : Files) where
  unfoldable pub read_zone : Bytes → ℕ → Option Zone
  read_zone root idx =
      zone_of (read_line files (zone_path root idx (codes "type")) 64)
        (read_long files (zone_path root idx (codes "temp")))

  unfoldable pub zone_at : Bytes → ℕ → Unit {0} → Option Zone × Unit {0}
  zone_at root idx s = (read_zone root idx, s)

  -- into an array of `max` zones
  unfoldable pub thermal_scan : Bytes → ℕ → Slots Zone → Slots Zone
  thermal_scan root max out = (scan max (zone_at root) thermal_zone_max 0 tt out).1

  -- the loop, with the rounds left
  unfoldable pub hottest_from : Bytes → (Bytes → Bool) → ℕ → ℕ → Option ℤ → Option ℤ
  hottest_from root test zero idx best = best
  hottest_from root test (suc n) idx best =
      hottest_from root test n (idx + 1) (hotter best (matching test (read_zone root idx)))

  unfoldable pub hottest_zone : Bytes → (Bytes → Bool) → Option ℤ
  hottest_zone root test = hottest_from root test thermal_zone_max 0 none

  unfoldable pub thermal_cpu_temp : Bytes → TempResult
  thermal_cpu_temp root = elim (hottest_zone root thermal_is_cpu_zone) [
    | none ↦ failure (codes "No CPU thermal zone with a valid reading in " ++ root)
    | some c ↦ celsius c
  ]

  unfoldable pub thermal_gpu_temp : Bytes → Option ℤ
  thermal_gpu_temp root = hottest_zone root thermal_is_gpu_zone

-- the fields of `hwsense_gpu_info_t` that `hwsense_kgsl_info` sets
pub record KgslInfo : Type 0 where
  pub name : Bytes
  pub clock_mhz : ℤ
  pub gpu_load : ℤ

unfoldable pub set_name : Option Bytes → Bool × KgslInfo → Bool × KgslInfo
set_name none r = r
set_name (some []) r = r
set_name (some (c ∷ s)) (found, g) = (true, record g { name = c ∷ s })

unfoldable pub set_clock : Option ℤ → Bool × KgslInfo → Bool × KgslInfo
set_clock none r = r
set_clock (some v) (found, g) = (true, record g { clock_mhz = to_int v })

unfoldable pub set_load : Option ℤ → Bool × KgslInfo → Bool × KgslInfo
set_load none r = r
set_load (some v) (found, g) = (true, record g { gpu_load = to_int v })

unfoldable pub kgsl_info : Files → Bytes → KgslInfo → Bool × KgslInfo
kgsl_info files root g = set_load (read_long files (root ++ codes "/gpu_busy_percentage")) (
    set_clock (read_long files (root ++ codes "/clock_mhz"))
      (set_name (read_line files (root ++ codes "/gpu_model") 64) (false, g)))

-- `strchr(line, ':')`, the bytes behind the colon
unfoldable pub behind_colon : Bytes → Option Bytes
behind_colon [] = none
behind_colon (c ∷ s) = if c == 58 then some s else behind_colon s

abbrev skip_blank : Bytes → Bytes
skip_blank [] = []
skip_blank (c ∷ s) = if c == 32 then s else c ∷ s

-- the text of a `Hardware` line, `none` for another line
unfoldable pub hardware_of : Bytes → Option Bytes
hardware_of line =
    if starts_with line (codes "Hardware")
    then elim (behind_colon line) [ none ↦ none | some s ↦ some (before_newline (skip_blank s)) ]
    else none

-- the loop over the lines of /proc/cpuinfo; an empty name is not found
unfoldable pub soc_name_in : List Bytes → Option Bytes
soc_name_in [] = none
soc_name_in (line ∷ lines) = elim (hardware_of line) [
  | none ↦ soc_name_in lines
  | some name ↦ elim name [ [] ↦ none | c ∷ s ↦ some (c ∷ s) ]
]
