-- ===== src/Unified/Agree.antt =====
-- core/hwsense_unified.c: a processor of another vendor, and the room for the fans.
use libhwsense.Prelude.{
  ℕ, ◌≤◌, ◌≡◌, refl, ap, ◌∙◌, Bool, true, false, Option, none, some, List, [], ◌∷◌, map, length,
  length-append, length-map, length-drop, drop, if◌then◌else◌, arith,
}
use libhwsense.Prelude.Int.{pos}
use libhwsense.Text.{codes}
use libhwsense.CpuTemp.{unknown}
use libhwsense.Api
use libhwsense.Api.{Context, null, no_handle, valid, detect_vendor}
use libhwsense.Wmi.{Wmi, Object, FanInfo, CpuInfo, read_cpu_info, fill_fans, read_fans}
use libhwsense.Sysstats.{CpuLoad, MemStats, get_cpu_load_sampled, get_mem_stats}
use libhwsense.Export.{SensorData}
use libhwsense.Unified.{Exact, whole}
use libhwsense.Unified.Linux.{no_data}
use libhwsense.Unified.Windows.{
  Windows, Samples, set_clock, set_cpu, set_load, set_memory, set_fans, read_windows, read_powers,
  fill, read_all,
}

fill_fans-le :
    (objects : List Object) (cells : List FanInfo) → length (fill_fans objects cells) ≤ length cells
unfolding fill_fans
fill_fans-le [] cells = omega arith
fill_fans-le (obj ∷ objects) [] = omega arith
fill_fans-le (obj ∷ objects) (old ∷ cells) = omega (arith, fill_fans-le objects cells)

if-le :
    (b : Bool) (fans cells : List FanInfo)
    → length fans ≤ length cells
    → length (if b then fans else []) ≤ length cells
if-le true fans cells h = h
if-le false fans cells h = omega arith

read_fans-le : (w : Wmi) (cells : List FanInfo) → length (read_fans w cells) ≤ length cells
unfolding read_fans
read_fans-le w cells = if-le w.initialized _ cells (fill_fans-le _ cells)

-- the fan count and its array
abbrev pub FansFit : SensorData Exact → Type 0
FansFit d = (n : ℕ) × (d.fan_count ≡ pos n) × (n ≤ 8) × (length d.fan_rpms ≡ 8)

set_fans-FansFit :
    (fans : List FanInfo) (d : SensorData Exact)
    → length fans ≤ 8
    → length d.fan_rpms ≡ 8
    → FansFit (set_fans fans d)
unfolding set_fans
set_fans-FansFit fans d h e = (
  length fans,
  refl,
  h,
  omega (
    arith,
    length-append {0} (map (λ f. f.desired_speed) fans) (drop (length fans) d.fan_rpms),
    length-map {0, 0} fans (λ f. f.desired_speed),
    length-drop {0} (length fans) d.fan_rpms,
  ),
)

-- what the readings without a register keep
abbrev SameReadings : SensorData Exact → SensorData Exact → Type 0
SameReadings d d' =
    (d'.cpu_temp ≡ d.cpu_temp)
    × (d'.cpu_clock_mhz ≡ d.cpu_clock_mhz)
    × (d'.cpu_power ≡ d.cpu_power)
    × (d'.cpu_power_cores ≡ d.cpu_power_cores)
    × (d'.cpu_power_uncore ≡ d.cpu_power_uncore)
    × (d'.dram_power ≡ d.dram_power)
    × (d'.fan_rpms ≡ d.fan_rpms)

Same-trans : (a b c : SensorData Exact) → SameReadings a b → SameReadings b c → SameReadings a c
Same-trans a b c (t, k, p, pc, pu, pd, f) (t', k', p', pc', pu', pd', f') =
    (t' ∙ t, k' ∙ k, p' ∙ p, pc' ∙ pc, pu' ∙ pu, pd' ∙ pd, f' ∙ f)

cpu-Same : (c : Bool × CpuInfo) (d : SensorData Exact) → SameReadings d (set_cpu c d)
unfolding set_cpu
cpu-Same (false, info) d = (refl, refl, refl, refl, refl, refl, refl)
cpu-Same (true, info) d = (refl, refl, refl, refl, refl, refl, refl)

load-Same : (l : Bool × CpuLoad) (d : SensorData Exact) → SameReadings d (set_load l d)
unfolding set_load
load-Same (false, load) d = (refl, refl, refl, refl, refl, refl, refl)
load-Same (true, load) d = (refl, refl, refl, refl, refl, refl, refl)

memory-Same : (m : Option MemStats) (d : SensorData Exact) → SameReadings d (set_memory m d)
unfolding set_memory
memory-Same none d = (refl, refl, refl, refl, refl, refl, refl)
memory-Same (some m) d = (refl, refl, refl, refl, refl, refl, refl)

windows-Same : (win : Windows) (d : SensorData Exact) → SameReadings d (read_windows win d)
unfolding read_windows
windows-Same win d =
    let c = set_cpu (read_cpu_info win.wmi win.stack_cpu) d in
    let load = get_cpu_load_sampled win.num_cpus win.times win.later_times win.stack_load in
    let m = set_memory (get_mem_stats win.memory) (set_load load c) in
    Same-trans d c m (cpu-Same (read_cpu_info win.wmi win.stack_cpu) d) (
      Same-trans c (set_load load c) m (load-Same load c)
        (memory-Same (get_mem_stats win.memory) (set_load load c)))

module _ {S : Type 0} (win : Windows) (set_affinity : ℕ → S → Option ℕ × S)
    (rdmsr : ℕ → S → Option ℕ × S) (smn_read : ℕ → S → Option ℕ × S) (get_tick : S → ℕ × S) where
  -- On a processor of neither vendor, with a valid context, there is a snapshot in which the temperature, the clock and the four powers are 0,
  -- whose fans stay inside the array, and no register is read or sample changed.
  pub read_all-unserved :
      (st : Samples) (s : S)
      → detect_vendor win.registry ≡ unknown
      → length win.stack_fans ≡ 8
      → let (r, st', s') = read_all win set_affinity rdmsr smn_read get_tick valid true st s in
        (d : SensorData Exact) × (r ≡ some d)
        × (d.cpu_temp ≡ whole (pos 0))
        × (d.cpu_clock_mhz ≡ pos 0)
        × (d.cpu_power ≡ whole (pos 0))
        × (d.cpu_power_cores ≡ whole (pos 0))
        × (d.cpu_power_uncore ≡ whole (pos 0))
        × (d.dram_power ≡ whole (pos 0))
        × FansFit d
        × (st' ≡ st)
        × (s' ≡ s)
  unfolding read_all fill Api.cpu_package_temp Api.cpu_core_clock read_powers set_clock set_fans
  read_all-unserved st s h e =
      let start = record no_data { cpu_vendor = codes "Unknown"; cpu_temp = whole (pos 0) } in
      let (t, c, p, pc, pu, pd, f) = windows-Same win start in
      rw h (
        set_fans (read_fans win.wmi win.stack_fans) (read_windows win start),
        refl,
        t,
        c,
        p,
        pc,
        pu,
        pd,
        set_fans-FansFit (read_fans win.wmi win.stack_fans) (read_windows win start)
            (omega (arith, read_fans-le win.wmi win.stack_fans)) (ap length f),
        refl,
        refl,
      )
