-- ===== src/Unified/Windows/Tests.antt =====
-- core/hwsense_unified.c on a machine of another vendor, and the theorem at it.
use libhwsense.Prelude.{true, ℕ, ◌+◌, ◌≡◌, refl, false, Option, none, some, [], replicate}
use libhwsense.Prelude.Int.{pos}
use libhwsense.Text.{codes, strstr, starts_with}
use libhwsense.CpuTemp.{unknown}
use libhwsense.Intel.Rapl.{fresh}
use libhwsense.Api.{valid, detect_vendor}
use libhwsense.Export.{SensorData}
use libhwsense.Sysstats.{zero_percent, get_mem_stats}
use libhwsense.Wmi.{FanInfo}
use libhwsense.Unified.{Exact, whole}
use libhwsense.Unified.Windows.{Windows, Samples, read_all, get_memory_used}
use libhwsense.Unified.Agree.{FansFit, read_all-unserved}

abbrev no_fan : FanInfo
no_fan = record { name = []; active_cooling = false; desired_speed = pos 0 }

abbrev windows : Windows
windows = record {
  registry = some (codes "CentaurHauls");
  wmi = record { initialized = false; svc_wmi = none; svc_cim = none };
  stack_cpu = record {
    name = [];
    max_clock_mhz = pos 0;
    current_clock_mhz = pos 0;
    voltage_mv = pos 0;
    load_percent = pos 0;
    temperature = pos 0;
  };
  stack_fans = replicate 8 no_fan;
  stack_load = record { percent = zero_percent; num_cpus = 0 };
  num_cpus = 4;
  times = none;
  later_times = none;
  memory = some (record {
    total_phys = 8000;
    avail_phys = 3000;
    total_page_file = 0;
    avail_page_file = 0;
    memory_load = 62;
  });
  tick_count = 5000;
}

memory_run : get_memory_used windows ≡ record { num = pos 5000; den = 1073741824 }
unfolding get_memory_used get_mem_stats
memory_run = refl

other_vendor : detect_vendor windows.registry ≡ unknown
unfolding detect_vendor strstr starts_with
other_vendor = refl

abbrev samples : Samples
samples = record { whole_package = fresh; cores = fresh; uncore = fresh; dram = fresh }

abbrev access : ℕ → ℕ → Option ℕ × ℕ
access a n = (some 1, n + 1)

abbrev tick : ℕ → ℕ × ℕ
tick n = (n, n + 1)

read_all-unserved_example :
    let (r, st', s') = read_all windows access access access tick valid true samples 0 in
    (d : SensorData Exact) × (r ≡ some d)
    × (d.cpu_temp ≡ whole (pos 0))
    × (d.cpu_clock_mhz ≡ pos 0)
    × (d.cpu_power ≡ whole (pos 0))
    × (d.cpu_power_cores ≡ whole (pos 0))
    × (d.cpu_power_uncore ≡ whole (pos 0))
    × (d.dram_power ≡ whole (pos 0))
    × FansFit d
    × (st' ≡ samples)
    × (s' ≡ 0)
read_all-unserved_example =
    read_all-unserved windows access access access tick samples 0 other_vendor refl
