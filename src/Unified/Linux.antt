-- ===== src/Unified/Linux.antt =====
-- core/unified_linux.c: the snapshot of all readings, from the readers of the other parts. The
-- `Hardware` name of the chip is that of a system other than Android.
use libhwsense.Prelude.{
  ℕ, ◌*◌, ◌/◌, ◌%◌, ◌^◌, Bool, true, false, ◌&&◌, Option, none, some, List, [], ◌∷◌, ◌++◌, take,
  drop, replicate, ltb, ◌==◌, if◌then◌else◌,
}
use libhwsense.Prelude.Int.{ℤ, pos, negsuc, ltb_ℤ, to_int}
use libhwsense.Text.{Bytes, codes, starts_with}
use libhwsense.Board.{quot}
use libhwsense.Board.Linux.{superio_fans}
use libhwsense.Superio.{SuperioResult}
use libhwsense.Sysfs.{Files, before_newline, atol, read_long}
use libhwsense.Hwmon.{nvme_temperature}
use libhwsense.Thermal.{behind_colon, soc_name_in}
use libhwsense.CpuTemp.{Vendor, intel, amd, arm, unknown, lines_of, cpu_package_temp}
use libhwsense.CpuClock.{cpu_core_clock}
use libhwsense.Graphics.{GpuInfo}
use libhwsense.Graphics.Linux.{Symbols, NvState, gpu_info}
use libhwsense.Export.{Drive, SensorData}
use libhwsense.Unified.{Exact, whole, gb, get_cpu_temp, get_cpu_load, Memory, meminfo, sub64}

abbrev pub no_drive : Drive
no_drive = record { drive_name = []; temperature = pos 0; size_gb = pos 0; used_gb = pos 0 }

-- after `memset`
abbrev pub no_data : SensorData Exact
no_data = record {
  cpu_vendor = [];
  cpu_name = [];
  cpu_cores = pos 0;
  cpu_threads = pos 0;
  cpu_temp = whole (pos 0);
  cpu_temp_min = whole (pos 0);
  cpu_temp_max = whole (pos 0);
  cpu_temp_avg = whole (pos 0);
  gpu_temp = whole (pos 0);
  cpu_clock_mhz = pos 0;
  cpu_clock_max_mhz = pos 0;
  cpu_voltage = whole (pos 0);
  soc_voltage = whole (pos 0);
  cpu_power = whole (pos 0);
  cpu_power_cores = whole (pos 0);
  cpu_power_uncore = whole (pos 0);
  dram_power = whole (pos 0);
  memory_used_gb = whole (pos 0);
  memory_total_gb = whole (pos 0);
  memory_percent = pos 0;
  cpu_load = whole (pos 0);
  uptime_days = pos 0;
  uptime_hours = pos 0;
  fan_count = pos 0;
  fan_rpms = replicate 8 (pos 0);
  drive_count = pos 0;
  drives = replicate 8 no_drive;
}

abbrev pub vendor_name : Vendor → Bytes
vendor_name intel = codes "Intel"
vendor_name amd = codes "AMD"
vendor_name arm = codes "ARM"
vendor_name unknown = codes "Unknown"

-- what the loop over /proc/cpuinfo has found
pub record CpuLines : Type 0 where
  pub name : Bytes
  pub siblings : ℤ
  pub cores : ℤ

abbrev pub is_empty : Bytes → Bool
is_empty [] = true
is_empty (c ∷ s) = false

abbrev pub is_zero : ℤ → Bool
is_zero (pos n) = n == 0
is_zero (negsuc n) = false

-- the name behind the colon and the byte that follows it
abbrev name_of : Bytes → Bytes
name_of text = before_newline (take 127 (drop 1 text))

unfoldable pub on_line : Bytes → Option Bytes → CpuLines → CpuLines
on_line line none c = c
on_line line (some text) c =
    if is_empty c.name && starts_with line (codes "model name")
    then record c { name = name_of text }
    else if starts_with line (codes "siblings") && is_zero c.siblings
    then record c { siblings = atol text }
    else if starts_with line (codes "cpu cores") && is_zero c.cores
    then record c { cores = atol text }
    else c

unfoldable pub scan_cpuinfo : List Bytes → CpuLines → CpuLines
scan_cpuinfo [] c = c
scan_cpuinfo (line ∷ lines) c = scan_cpuinfo lines (on_line line (behind_colon line) c)

unfoldable pub read_cpuinfo : Option Bytes → CpuLines
read_cpuinfo none = record { name = []; siblings = pos 0; cores = pos 0 }
read_cpuinfo (some text) =
    scan_cpuinfo (lines_of 256 text) (record { name = []; siblings = pos 0; cores = pos 0 })

abbrev or_empty : Option Bytes → Bytes
or_empty none = []
or_empty (some s) = take 127 s

abbrev soc_name : Option Bytes → Bytes
soc_name none = []
soc_name (some text) = or_empty (soc_name_in (lines_of 256 text))

-- the two values behind the file: the name of the chip, and the system's number of processors
unfoldable pub completed : Option Bytes → ℤ → CpuLines → CpuLines
completed text online c =
    let threads = if is_zero c.siblings then online else c.siblings in
    record {
      name = if is_empty c.name then soc_name text else c.name;
      siblings = threads;
      cores = if is_zero c.cores then threads else c.cores;
    }

-- a reading below 0 becomes 0
unfoldable pub at_least_zero : Exact → Exact
at_least_zero e = if ltb_ℤ e.num (pos 0) then whole (pos 0) else e

unfoldable pub clock_or_zero : ℤ → ℤ
clock_or_zero clock = if ltb_ℤ clock (pos 0) then pos 0 else clock

abbrev max_clock : Option ℤ → ℤ
max_clock none = pos 0
max_clock (some khz) = to_int (quot khz 1000)

unfoldable pub set_memory : Option Memory → SensorData Exact → SensorData Exact
set_memory none d = d
set_memory (some m) d = record d {
  memory_total_gb = gb m.total_kb;
  memory_used_gb = gb m.used_kb;
  memory_percent = pos (100 * m.used_kb / m.total_kb);
}

-- The seconds of /proc/uptime, of which an `int` holds the hours, in thousandths, or of the clock of the same name; `none` is a negative one.
abbrev pub up_of : Option ℤ → Option ℕ → Option ℕ
up_of (some (pos up)) boottime = some (up / 1000)
up_of (some (negsuc n)) boottime = boottime
up_of none boottime = boottime

unfoldable pub set_uptime : Option ℕ → SensorData Exact → SensorData Exact
set_uptime none d = d
set_uptime (some up) d = record d {
  uptime_days = pos (up / 86400);
  uptime_hours = pos (up / 3600 % 24);
}

-- `memcpy` of the first cells
unfoldable pub set_fans : SuperioResult → SensorData Exact → SensorData Exact
set_fans r d =
    let n = if ltb 8 r.fans.count then 8 else r.fans.count in
    if r.ok
    then record d { fan_count = pos n; fan_rpms = take n r.fans.cells ++ drop n d.fan_rpms }
    else d

unfoldable pub set_gpu : GpuInfo → SensorData Exact → SensorData Exact
set_gpu g d = if g.ok then record d { gpu_temp = whole g.temperature } else d

-- the fields of `struct statvfs` that are read
pub record FileSystem : Type 0 where
  pub blocks : ℕ
  pub free_blocks : ℕ
  pub fragment_size : ℕ

abbrev size_of : Option FileSystem → ℤ
size_of none = pos 0
size_of (some v) = pos (v.blocks * v.fragment_size / 10 ^ 9)

abbrev used_of : Option FileSystem → ℤ
used_of none = pos 0
used_of (some v) = pos (sub64 v.blocks v.free_blocks * v.fragment_size / 10 ^ 9)

abbrev pub nvme_drive : ℕ → Option FileSystem → Drive
nvme_drive t root = record {
  drive_name = codes "nvme";
  temperature = pos t;
  size_gb = size_of root;
  used_gb = used_of root;
}

unfoldable pub set_drive : ℤ → Option FileSystem → SensorData Exact → SensorData Exact
set_drive (negsuc n) root d = d
set_drive (pos t) root d = record d {
  drives = nvme_drive t root ∷ drop 1 d.drives;
  drive_count = pos 1;
}

-- What the system gives: the files, /proc/stat once more 100 ms later, the registers of core 0, `sscanf` of a double,
-- `sysconf` of the processors, CLOCK_BOOTTIME, `statvfs` of the root, and NVIDIA's library.
pub record System (Dev : Type 0) : Type 0 where
  pub files : Files
  pub later_stat : Option Bytes
  pub read_msr : ℕ → Option ℕ
  pub scan_double : Bytes → Option ℤ
  pub atof : Bytes → ℤ
  pub online : ℤ
  pub boottime : Option ℕ
  pub root : Option FileSystem
  pub library : Option (Symbols Dev)

abbrev text_double : (Bytes → Option ℤ) → Option Bytes → Option ℤ
text_double scan_double none = none
text_double scan_double (some text) = scan_double text

module _ {D Dev : Type 0} (outb : D → ℕ → ℕ → D) (inb : D → ℕ → Option ℕ × D)
    (port_open : D → Bool × D) (sys : System Dev) where
  -- the readings of the processor, of memory and the uptime
  unfoldable pub read_cpu : Vendor → SensorData Exact
  read_cpu vendor =
      let info = sys.files (codes "/proc/cpuinfo") in
      let c = completed info sys.online (read_cpuinfo info) in
      record no_data {
        cpu_vendor = vendor_name vendor;
        cpu_name = c.name;
        cpu_threads = c.siblings;
        cpu_cores = c.cores;
        cpu_temp =
            at_least_zero
              (get_cpu_temp (cpu_package_temp sys.files sys.atof sys.read_msr (some vendor)));
        cpu_clock_mhz = clock_or_zero (cpu_core_clock sys.files sys.scan_double);
        cpu_clock_max_mhz =
            max_clock
              (read_long sys.files (codes "/sys/devices/system/cpu/cpu0/cpufreq/cpuinfo_max_freq"));
        cpu_load = at_least_zero (get_cpu_load (sys.files (codes "/proc/stat")) sys.later_stat);
      }

  unfoldable pub read_system : Vendor → SensorData Exact
  read_system vendor =
      set_uptime
        (up_of (text_double sys.scan_double (sys.files (codes "/proc/uptime"))) sys.boottime)
        (set_memory (meminfo (sys.files (codes "/proc/meminfo"))) (read_cpu vendor))

  unfoldable pub fill : Vendor → D → NvState Dev → SensorData Exact × D × NvState Dev
  fill vendor dev nv =
      let (fans, dev') = superio_fans outb inb port_open sys.files dev in
      let (g, nv') = gpu_info sys.library sys.files (pos 0) nv in
      (
        set_drive (nvme_temperature sys.files) sys.root
            (set_gpu g (set_fans fans (read_system vendor))),
        dev',
        nv',
      )

  -- `none` is a null context, and the second argument says whether `data` is not null; it holds the vendor; `none` of the result is 0. The ports and the
  -- library's static variable are passed and returned.
  unfoldable pub read_all :
      Option Vendor → Bool → D → NvState Dev → Option (SensorData Exact) × D × NvState Dev
  read_all none data? dev nv = (none, dev, nv)
  read_all (some vendor) false dev nv = (none, dev, nv)
  read_all (some vendor) true dev nv =
      let (d, dev', nv') = fill vendor dev nv in (some d, dev', nv')
