-- ===== src/Unified/Windows.antt =====
-- core/hwsense_unified.c: the snapshot on Windows, from the readers of api.c, wmi.c, intel.c and
-- win_sysstats.c. The registers are those behind the context's handle, and what the system gives is in `Windows`.
mod Tests
use libhwsense.Prelude.{
  ℕ, ◌+◌, ◌*◌, Bool, true, false, Option, none, some, List, [], ◌∷◌, ◌++◌, map, length, take, drop,
  if◌then◌else◌,
}
use libhwsense.Prelude.Int.{ℤ, pos, negsuc, pos_part, ltb_ℤ, sub_ℕ}
use libhwsense.Text.{Bytes, codes}
use libhwsense.Sensor.{Watts}
use libhwsense.CpuTemp.{Vendor, intel, amd, arm, unknown}
use libhwsense.Intel.Rapl
use libhwsense.Intel.Rapl.{PowerState}
use libhwsense.Api
use libhwsense.Api.{
  Context, null, no_handle, valid, Temperature, of_intel, of_amd, refused, Value, intel_number,
  svi2_number, minus_one, detect_vendor,
}
use libhwsense.Wmi.{Wmi, CpuInfo, FanInfo, read_cpu_info, read_fans}
use libhwsense.Sysstats.{
  CpuTimes, Percent, CpuLoad, MemoryStatus, MemStats, Uptime, get_cpu_load_sampled, get_mem_stats,
  get_uptime,
}
use libhwsense.Export.{SensorData}
use libhwsense.Unified
use libhwsense.Unified.{Exact, whole}
use libhwsense.Unified.Linux.{no_data}

-- On Intel a temperature is in degrees, on AMD in thousandths of a degree.
abbrev pub temp_of : Temperature → Option Exact
temp_of (of_intel r) = if r.ok then some (whole r.celsius) else none
temp_of (of_amd none) = none
temp_of (of_amd (some t)) = some (record { num = t; den = 1000 })
temp_of (refused e) = none

abbrev pub or_value : Exact → Option Exact → Exact
or_value old none = old
or_value old (some e) = e

abbrev pub or_minus_one : Option Exact → Exact
or_minus_one = or_value Unified.minus_one

unfoldable pub set_clock : ℤ → SensorData Exact → SensorData Exact
set_clock clock d = if ltb_ℤ (pos 0) clock then record d { cpu_clock_mhz = clock } else d

abbrev millivolts : ℤ → Exact
millivolts mv = record { num = mv; den = 1000 }

unfoldable pub set_cpu : Bool × CpuInfo → SensorData Exact → SensorData Exact
set_cpu (false, info) d = d
set_cpu (true, info) d = record d {
  cpu_name = info.name;
  cpu_clock_max_mhz = info.max_clock_mhz;
  cpu_voltage = if ltb_ℤ (pos 0) info.voltage_mv then millivolts info.voltage_mv else d.cpu_voltage;
}

abbrev pub percent : Percent → Exact
percent p = record { num = p.num; den = pos_part p.den }

unfoldable pub set_load : Bool × CpuLoad → SensorData Exact → SensorData Exact
set_load (false, load) d = d
set_load (true, load) d = record d {
  cpu_load = percent load.percent;
  cpu_cores = pos load.num_cpus;
}

-- bytes in units of 2^30
abbrev pub gb : ℤ → Exact
gb bytes = record { num = bytes; den = 1073741824 }

unfoldable pub set_memory : Option MemStats → SensorData Exact → SensorData Exact
set_memory none d = d
set_memory (some m) d = record d {
  memory_used_gb = gb m.used;
  memory_total_gb = gb m.total;
  memory_percent = pos m.percent_used;
}

abbrev set_uptime : Uptime → SensorData Exact → SensorData Exact
set_uptime u d = record d { uptime_days = pos u.days; uptime_hours = pos u.hours }

-- the four static samples of intel.c
pub record Samples : Type 0 where
  pub whole_package : PowerState
  pub cores : PowerState
  pub uncore : PowerState
  pub dram : PowerState

abbrev pub watts : Option Watts → Exact
watts none = Unified.minus_one
watts (some w) = record { num = pos w.num; den = w.den }

-- into the cells of `fan_rpms`, of which there are as many as were asked for
unfoldable pub set_fans : List FanInfo → SensorData Exact → SensorData Exact
set_fans fans d = record d {
  fan_count = pos (length fans);
  fan_rpms = map (λ f. f.desired_speed) fans ++ drop (length fans) d.fan_rpms;
}

-- The system's answers: the vendor in the registry, WMI with what the stack held before it was asked, the number of processors
-- and its times one second apart, the memory and the tick count.
pub record Windows : Type 0 where
  pub registry : Option Bytes
  pub wmi : Wmi
  pub stack_cpu : CpuInfo
  pub stack_fans : List FanInfo
  pub stack_load : CpuLoad
  pub num_cpus : ℕ
  pub times : Option CpuTimes
  pub later_times : Option CpuTimes
  pub memory : Option MemoryStatus
  pub tick_count : ℕ

abbrev pub vendor_text : Vendor → Bytes
vendor_text intel = codes "Intel"
vendor_text amd = codes "AMD"
vendor_text arm = codes "Unknown"
vendor_text unknown = codes "Unknown"

module _ (win : Windows) where
  -- the readings that take no register
  unfoldable pub read_windows : SensorData Exact → SensorData Exact
  read_windows d = set_uptime (get_uptime win.tick_count) (
      set_memory (get_mem_stats win.memory) (
        set_load (get_cpu_load_sampled win.num_cpus win.times win.later_times win.stack_load)
          (set_cpu (read_cpu_info win.wmi win.stack_cpu) d)))

  unfoldable pub get_cpu_voltage : Exact
  get_cpu_voltage =
      let (ok, info) = read_cpu_info win.wmi win.stack_cpu in
      if ok
      then if ltb_ℤ (pos 0) info.voltage_mv then millivolts info.voltage_mv else Unified.minus_one
      else Unified.minus_one

  unfoldable pub get_cpu_load : Exact
  get_cpu_load =
      let (ok, load) = get_cpu_load_sampled win.num_cpus win.times win.later_times win.stack_load in
      if ok then percent load.percent else Unified.minus_one

  unfoldable pub get_memory_used : Exact
  get_memory_used = elim (get_mem_stats win.memory) [
    | none ↦ Unified.minus_one
    | some m ↦ gb m.used
  ]

module _ {S : Type 0} (win : Windows) (set_affinity : ℕ → S → Option ℕ × S)
    (rdmsr : ℕ → S → Option ℕ × S) (smn_read : ℕ → S → Option ℕ × S) (get_tick : S → ℕ × S) where
  -- the lines for Intel
  unfoldable pub read_powers :
      Vendor → SensorData Exact → Samples → S → SensorData Exact × Samples × S
  read_powers intel d st s =
      let (p, (power_state, s₁)) =
        Rapl.package_power set_affinity rdmsr get_tick st.whole_package s in
      let (c, (cores, s₂)) = Rapl.pp0_power set_affinity rdmsr get_tick st.cores s₁ in
      let (u, (uncore, s₃)) = Rapl.pp1_power set_affinity rdmsr get_tick st.uncore s₂ in
      let (m, (dram, s₄)) = Rapl.dram_power set_affinity rdmsr get_tick st.dram s₃ in
      (
        record d {
          cpu_power = watts p;
          cpu_power_cores = watts c;
          cpu_power_uncore = watts u;
          dram_power = watts m;
        },
        record { whole_package = power_state; cores = cores; uncore = uncore; dram = dram },
        s₄,
      )
  read_powers amd d st s = (d, st, s)
  read_powers arm d st s = (d, st, s)
  read_powers unknown d st s = (d, st, s)

  unfoldable pub fill : Context → Samples → S → SensorData Exact × Samples × S
  fill ctx st s =
      let vendor = detect_vendor win.registry in
      let (t, s₁) = Api.cpu_package_temp set_affinity rdmsr smn_read ctx vendor s in
      let (clock, s₂) = Api.cpu_core_clock set_affinity rdmsr smn_read ctx vendor s₁ in
      let d = record no_data {
        cpu_vendor = vendor_text vendor;
        cpu_temp = or_value (whole (pos 0)) (temp_of t);
      } in
      let (d', st', s₃) = read_powers vendor (read_windows win (set_clock clock d)) st s₂ in
      (set_fans (read_fans win.wmi win.stack_fans) d', st', s₃)

  -- The second argument says whether `data` is not null; `none` is the result 0.
  unfoldable pub read_all : Context → Bool → Samples → S → Option (SensorData Exact) × Samples × S
  read_all null data? st s = (none, st, s)
  read_all no_handle false st s = (none, st, s)
  read_all valid false st s = (none, st, s)
  read_all no_handle true st s = let (d, st', s') = fill no_handle st s in (some d, st', s')
  read_all valid true st s = let (d, st', s') = fill valid st s in (some d, st', s')

  unfoldable pub get_cpu_temp : Context → S → Exact × S
  get_cpu_temp ctx s =
      let (t, s') =
        Api.cpu_package_temp set_affinity rdmsr smn_read ctx (detect_vendor win.registry) s in
      (or_minus_one (temp_of t), s')

  unfoldable pub get_cpu_clock : Context → S → ℤ × S
  get_cpu_clock ctx s =
      Api.cpu_core_clock set_affinity rdmsr smn_read ctx (detect_vendor win.registry) s
