-- ===== src/Sysstats/Tests.antt =====
-- core/win_sysstats.c on three processes, three adapters and two samples, and the theorems at them.
use Prim.Native.Nat.{min}
use libhwsense.Prelude.{
  ℕ, ◌+◌, ◌*◌, ◌/◌, ◌≡◌, ◌<◌, refl, Bool, true, false, Option, none, some, List, [], ◌∷◌, ◌++◌,
  length, take, map, replicate, ◌==◌, if◌then◌else◌, arith,
}
use libhwsense.Prelude.Int.{pos, ◌≤ℤ◌, ◌+ℤ◌, ◌-ℤ◌, ◌*ℤ◌, ltb_ℤ}
use libhwsense.Slots.Chosen.{collect}
use libhwsense.Text.{Bytes, codes}
use mathlib.Core.List.{Perm}
use libhwsense.Sysstats.{
  FileTime, CpuTimes, CpuLoad, zero_percent, load_start, filetime_to_100ns, load_percent,
  get_cpu_load, get_cpu_load_sampled, get_uptime,
}
use libhwsense.Sysstats.Adapters.{Row, net_io_of, get_net_io, kept_row, is_skipped}
use libhwsense.Sysstats.Processes.{
  ProcessEntry, OpenProcess, Process, Rows, memory, cmp_by, row_of, with_room, collect_rows, top_of,
  get_top_processes,
}
use libhwsense.Sysstats.Load.{polls, cpu_load_agrees, IsLater, load_percent-InRange, get_uptime_lem}
use libhwsense.Sysstats.Rows.{IsPrefix, collect_rows-IsPrefix}
use libhwsense.Sysstats.Insertion.{insert, insertion_sort, insertion_sort-IsQsort}
use libhwsense.Sysstats.Top.{Descending, NoneAbove, get_top_processes_lem}
use libhwsense.Sysstats.Selected.{kept, get_net_io_lem}

abbrev entry : ℕ → Bytes → ProcessEntry
entry id name = record { process_id = id; exe_file = name }

abbrev entries : List ProcessEntry
entries = entry 4 (codes "System") ∷ entry 8 (codes "db.exe") ∷ entry 9 (codes "sh.exe") ∷ []

-- the process 4 is protected
abbrev open_process : ℕ → Option OpenProcess
open_process id =
    if id == 4 then none else some (record { times = none; working_set_size = some (id * 1000) })

abbrev always : ℕ → Bool
always n = true

top_two :
    map (λ p. p.pid) (get_top_processes open_process always insertion_sort (some entries) 2 memory)
    ≡ 9 ∷ 8 ∷ []
unfolding get_top_processes top_of collect_rows with_room row_of insertion_sort insert cmp_by
top_two = refl

get_top_processes_lem_example :
    let top = get_top_processes open_process always insertion_sort (some entries) 2 memory in
    (rest : List Process) × Perm (top ++ rest) (map (row_of open_process) entries)
    × Descending memory top
    × NoneAbove memory top rest
    × (length top ≡ min 2 (length entries))
get_top_processes_lem_example =
    get_top_processes_lem insertion_sort insertion_sort-IsQsort open_process always entries 2 memory
      (λ n. refl)

abbrev no_rows : Rows
no_rows = record { all = []; capacity = 0 }

collect_rows-IsPrefix_example :
    IsPrefix open_process always entries no_rows (collect_rows open_process always entries no_rows)
collect_rows-IsPrefix_example =
    collect_rows-IsPrefix open_process always entries no_rows (omega arith)

abbrev times : ℕ → ℕ → ℕ → CpuTimes
times idle kernel user =
    let t = λ (n : ℕ). let ft : FileTime = record { low = n; high = 0 } in ft in
    record { idle_time = t idle; kernel_time = t kernel; user_time = t user }

abbrev no_load : CpuLoad
no_load = record { percent = zero_percent; num_cpus = 0 }

-- 60 of 80 units busy
load_run : (load_percent (times 100 150 50) (times 120 200 80)).num ≡ pos 6000
unfolding load_percent filetime_to_100ns ◌+ℤ◌ ◌-ℤ◌ ◌*ℤ◌
load_run = refl

in_order : IsLater (times 100 150 50) (times 120 200 80)
unfolding filetime_to_100ns ◌-ℤ◌
in_order = record { idle = omega arith; within = omega arith; user = omega arith }

cpu_load_agrees_example :
    let a = times 100 150 50 in
    let b = times 120 200 80 in
    let st = polls ((none ∷ []) ++ (some a ∷ replicate 1 none)) load_start in
    let (st', ok, load) = get_cpu_load 4 (some b) st no_load in
    let begun = polls (replicate 1 none) load_start in
    (get_cpu_load 4 none begun no_load ≡ (load_start, false, record no_load { num_cpus = 4 }))
    × (get_cpu_load 4 (some b) begun no_load ≡ (
      record { prev = b; first_call = false },
      true,
      record { percent = zero_percent; num_cpus = 4 },
    ))
    × (get_cpu_load 4 none st no_load ≡ (st, false, record no_load { num_cpus = 4 }))
    × ((ok, load) ≡ get_cpu_load_sampled 4 (some a) (some b) no_load)
cpu_load_agrees_example =
    cpu_load_agrees (none ∷ []) (times 100 150 50) (times 120 200 80) 1 4 no_load no_load

load_percent-InRange_run :
    let p = load_percent (times 100 150 50) (times 120 200 80) in
    (pos 0 ≤ℤ p.num) × (p.num ≤ℤ pos 100 *ℤ p.den) × (ltb_ℤ (pos 0) p.den ≡ true)
load_percent-InRange_run = load_percent-InRange (times 100 150 50) (times 120 200 80) in_order

get_uptime_lem_run :
    let u = get_uptime 100000 in
    (u.seconds < 60)
    × (u.minutes < 60)
    × (u.hours < 24)
    × (u.seconds + 60 * (u.minutes + 60 * (u.hours + 24 * u.days)) ≡ 100000 / 1000)
get_uptime_lem_run = get_uptime_lem 100000 (omega arith)

abbrev row : ℕ → Bool → ℕ → Row
row type filter octets = record {
  alias = [];
  description = [];
  interface_index = 7;
  type = type;
  filter_interface = filter;
  in_octets = octets;
  out_octets = 0;
  in_errors = 0;
  out_errors = 0;
  receive_link_speed = 0;
  is_up = true;
}

abbrev rows : List Row
rows = row 24 false 1 ∷ row 6 true 2 ∷ row 6 false 3 ∷ row 71 false 4 ∷ []

adapters_run : map (λ n. n.rx_bytes) (get_net_io (λ s. s) (some rows) 1) ≡ pos 3 ∷ []
unfolding get_net_io collect kept_row is_skipped net_io_of
adapters_run = refl

get_net_io_lem_run :
    get_net_io (λ s. s) (some rows) 1 ≡ take 1 (map (net_io_of (λ s. s)) (kept rows))
get_net_io_lem_run = get_net_io_lem (λ s. s) rows 1
