-- ===== src/Sysstats.antt =====
-- core/win_sysstats.c: processor load, memory and uptime on Windows. The calls of the system are
-- parameters or their results. Doubles are exact: a percentage is a fraction and a size is in bytes.
pub mod Disks
pub mod Adapters
pub mod Processes
pub mod Load
pub mod Qsort
mod Insertion
pub mod Rows
pub mod Top
pub mod Selected
mod Tests
use libhwsense.Prelude.{
  ℕ, ◌+◌, ◌-◌, ◌*◌, ◌/◌, ◌%◌, ◌^◌, Bool, true, false, Option, none, some, ltb, if◌then◌else◌,
}
use libhwsense.Prelude.Int.{ℤ, pos, negsuc, sub_ℕ, ◌+ℤ◌, ◌-ℤ◌, ◌*ℤ◌, ltb_ℤ}

-- two words of 32 bits
pub record FileTime : Type 0 where
  pub low : ℕ
  pub high : ℕ

-- `(long long)` of an unsigned value
abbrev pub signed64 : ℕ → ℤ
signed64 n = if ltb n (2 ^ 63) then pos n else negsuc (2 ^ 64 - 1 - n)

unfoldable pub filetime_to_100ns : FileTime → ℤ
filetime_to_100ns ft = signed64 (ft.low + ft.high * 2 ^ 32)

pub record CpuTimes : Type 0 where
  pub idle_time : FileTime
  pub kernel_time : FileTime
  pub user_time : FileTime

pub record Percent : Type 0 where
  pub num : ℤ
  pub den : ℤ

abbrev pub zero_percent : Percent
zero_percent = record { num = pos 0; den = pos 1 }

abbrev pub delta : (CpuTimes → FileTime) → CpuTimes → CpuTimes → ℤ
delta time before after = filetime_to_100ns (time after) -ℤ filetime_to_100ns (time before)

-- `100.0 * (1.0 - idle_delta / total)`
unfoldable pub load_percent : CpuTimes → CpuTimes → Percent
load_percent before after =
    let idle = delta (λ t. t.idle_time) before after in
    let total = delta (λ t. t.kernel_time) before after +ℤ delta (λ t. t.user_time) before after in
    if ltb_ℤ (pos 0) total
    then record { num = pos 100 *ℤ (total -ℤ idle); den = total }
    else zero_percent

pub record CpuLoad : Type 0 where
  pub percent : Percent
  pub num_cpus : ℕ

-- the two static variables
pub record LoadState : Type 0 where
  pub prev : CpuTimes
  pub first_call : Bool

abbrev pub zero_times : CpuTimes
zero_times =
    let z : FileTime = record { low = 0; high = 0 } in
    record { idle_time = z; kernel_time = z; user_time = z }

abbrev pub load_start : LoadState
load_start = record { prev = zero_times; first_call = true }

unfoldable pub on_times : Option CpuTimes → LoadState → CpuLoad → LoadState × Bool × CpuLoad
on_times none st load = (st, false, load)
on_times (some curr) st load =
    let p = if st.first_call then zero_percent else load_percent st.prev curr in
    (record { prev = curr; first_call = false }, true, record load { percent = p })

-- The times are those of GetSystemTimes, `none` when it fails. What stands behind the pointer is
-- passed and returned.
unfoldable pub get_cpu_load : ℕ → Option CpuTimes → LoadState → CpuLoad → LoadState × Bool × CpuLoad
get_cpu_load num_cpus times st load = on_times times st (record load { num_cpus = num_cpus })

unfoldable pub sampled : Option CpuTimes → Option CpuTimes → CpuLoad → Bool × CpuLoad
sampled none end_times load = (false, load)
sampled (some start) none load = (false, load)
sampled (some start) (some after) load = (true, record load { percent = load_percent start after })

unfoldable pub get_cpu_load_sampled :
    ℕ → Option CpuTimes → Option CpuTimes → CpuLoad → Bool × CpuLoad
get_cpu_load_sampled num_cpus start after load =
    sampled start after (record load { num_cpus = num_cpus })

-- what GlobalMemoryStatusEx fills
pub record MemoryStatus : Type 0 where
  pub total_phys : ℕ
  pub avail_phys : ℕ
  pub total_page_file : ℕ
  pub avail_page_file : ℕ
  pub memory_load : ℕ

-- in bytes
pub record MemStats : Type 0 where
  pub total : ℤ
  pub used : ℤ
  pub free : ℤ
  pub available : ℤ
  pub swap_used : ℤ
  pub percent_used : ℕ

-- The swap is a difference of unsigned words, the use of memory one of doubles.
unfoldable pub get_mem_stats : Option MemoryStatus → Option MemStats
get_mem_stats none = none
get_mem_stats (some ms) = some (record {
  total = pos ms.total_phys;
  used = sub_ℕ ms.total_phys ms.avail_phys;
  free = pos ms.avail_phys;
  available = pos ms.avail_phys;
  swap_used = pos ((ms.total_page_file + 2 ^ 64 - ms.avail_page_file) % 2 ^ 64);
  percent_used = ms.memory_load;
})

pub record Uptime : Type 0 where
  pub days : ℕ
  pub hours : ℕ
  pub minutes : ℕ
  pub seconds : ℕ

-- from the milliseconds of GetTickCount64, kept as seconds in 32 bits
unfoldable pub get_uptime : ℕ → Uptime
get_uptime tick_count =
    let ticks = tick_count / 1000 % 2 ^ 32 in
    record {
      seconds = ticks % 60;
      minutes = ticks / 60 % 60;
      hours = ticks / 60 / 60 % 24;
      days = ticks / 60 / 60 / 24;
    }
