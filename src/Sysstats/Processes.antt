-- ===== src/Sysstats/Processes.antt =====
-- core/win_sysstats.c: the processes with the most memory or processor time. The snapshot of the
-- processes, what the system tells of one, `realloc` and `qsort` are parameters.
use libhwsense.Prelude.{
  ℕ, ◌+◌, ◌*◌, ◌^◌, ◌%◌, Bool, true, false, Option, none, some, List, [], ◌∷◌, ◌++◌, length, take,
  ltb, ◌==◌, if◌then◌else◌,
}
use libhwsense.Prelude.Int.{ℤ, sub_ℕ}
use libhwsense.Text.{Bytes}
use libhwsense.Sysstats.{FileTime}

-- the fields of PROCESSENTRY32W that are read, with the name in UTF-8
pub record ProcessEntry : Type 0 where
  pub process_id : ℕ
  pub exe_file : Bytes

-- an open process: its kernel and user times, and its working set, each `none` when the call fails
pub record OpenProcess : Type 0 where
  pub times : Option (FileTime × FileTime)
  pub working_set_size : Option ℕ

-- the times in units of 100 ns, the working set in bytes
pub record Process : Type 0 where
  pub pid : ℕ
  pub name : Bytes
  pub cpu_time : ℕ
  pub working_set : ℕ

-- HWSENSE_SORT_MEMORY, which is every other number too, and HWSENSE_SORT_CPU
pub data SortBy : Type 0 where
  memory cpu : SortBy

abbrev pub key : SortBy → Process → ℕ
key memory p = p.working_set
key cpu p = p.cpu_time

abbrev one_if : Bool → ℕ
one_if true = 1
one_if false = 0

-- `(da < db) - (da > db)` of cmp_by_memory and cmp_by_cpu
unfoldable pub cmp_by : SortBy → Process → Process → ℤ
cmp_by sort_by a b =
    sub_ℕ (one_if (ltb (key sort_by a) (key sort_by b)))
      (one_if (ltb (key sort_by b) (key sort_by a)))

-- the sum of two unsigned words
abbrev pub times_sum : Option (FileTime × FileTime) → ℕ
times_sum none = 0
times_sum (some (k, u)) = (k.low + k.high * 2 ^ 32 + (u.low + u.high * 2 ^ 32)) % 2 ^ 64

abbrev pub size_or_zero : Option ℕ → ℕ
size_or_zero none = 0
size_or_zero (some n) = n

abbrev pub times_of : Option OpenProcess → ℕ
times_of none = 0
times_of (some h) = times_sum h.times

abbrev pub memory_of : Option OpenProcess → ℕ
memory_of none = 0
memory_of (some h) = size_or_zero h.working_set_size

abbrev pub grown : ℕ → ℕ
grown capacity = if capacity == 0 then 128 else capacity * 2

-- the array on the heap
pub record Rows : Type 0 where
  pub all : List Process
  pub capacity : ℕ

-- the sort and the copy
unfoldable pub top_of :
    ((Process → Process → ℤ) → List Process → List Process)
    → ℕ
    → SortBy
    → List Process
    → List Process
top_of qsort max_procs sort_by [] = []
top_of qsort max_procs sort_by (p ∷ ps) = take max_procs (qsort (cmp_by sort_by) (p ∷ ps))

unfoldable pub row_of : (ℕ → Option OpenProcess) → ProcessEntry → Process
row_of open_process entry = record {
  pid = entry.process_id;
  name = entry.exe_file;
  cpu_time = times_of (open_process entry.process_id);
  working_set = memory_of (open_process entry.process_id);
}

-- `all[count++] = row`
abbrev pub store : Rows → Process → Rows
store b row = record b { all = b.all ++ (row ∷ []) }

module _ (open_process : ℕ → Option OpenProcess) (realloc : ℕ → Bool) where
  -- room for one more row, if the array grows; `none` is the `break`
  unfoldable pub with_room : Rows → Option Rows
  with_room b =
      if length b.all == b.capacity
      then if realloc (grown b.capacity)
        then some (record b { capacity = grown b.capacity })
        else none
      else some b

  -- the loop over the snapshot
  unfoldable pub collect_rows : List ProcessEntry → Rows → Rows
  collect_rows [] b = b
  collect_rows (entry ∷ entries) b = elim (with_room b) [
    | none ↦ b
    | some b' ↦ collect_rows entries (store b' (row_of open_process entry))
  ]

  -- `none` is a snapshot that fails; `max_procs` is 0 also for a negative number or a null array.
  unfoldable pub get_top_processes :
      ((Process → Process → ℤ) → List Process → List Process)
      → Option (List ProcessEntry)
      → ℕ
      → SortBy
      → List Process
  get_top_processes qsort none max_procs sort_by = []
  get_top_processes qsort (some entries) max_procs sort_by =
      top_of qsort max_procs sort_by (collect_rows entries (record { all = []; capacity = 0 })).all
