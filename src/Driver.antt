-- ===== src/Driver.antt =====
-- core/driver.c: the life of the driver on Windows. The calls of the system are the functions of `Os` over
-- its state; a function of the model gives, beside its result, the events that matter for what is open. A path
-- is a list of characters, and the messages on stderr are left out.
pub mod Handles
pub mod Search
mod Tests
use libhwsense.Prelude.{
  ℕ, zero, suc, ◌+◌, Bool, true, false, ◌&&◌, Option, none, some, List, [], ◌∷◌, ◌++◌, length, ltb,
  ◌==◌, if◌then◌else◌,
}
use libhwsense.Text.{Bytes, codes}

abbrev pub max_path : ℕ
max_path = 260

abbrev pub sys_filename : Bytes
sys_filename = codes "WinRing0x64.sys"

-- `wcsrchr(out, '\\')` and the cut behind it: the text up to the last backslash, `none` without one
unfoldable pub directory : Bytes → Option Bytes
directory [] = none
directory (c ∷ s) = elim (directory s) [
  | some d ↦ some (c ∷ d)
  | none ↦ if c == 92 then some (c ∷ []) else none
]

unfoldable pub ends_in_slash : Bytes → Bool
ends_in_slash [] = true
ends_in_slash (c ∷ []) = c == 92
ends_in_slash (c ∷ d ∷ s) = ends_in_slash (d ∷ s)

-- `none` is a write behind the end of the buffer, from which the code goes on in no defined way
abbrev pub with_slash : Bytes → Option Bytes
with_slash dir =
    if ends_in_slash dir
    then some dir
    else if ltb (length dir + 1) max_path
    then some (dir ++ (92 ∷ []))
    else none

pub data Outcome : Type 0 where
  found : Bytes → Outcome
  missing overrun : Outcome

abbrev pub found_at : Option Bytes → Outcome
found_at none = missing
found_at (some path) = found path

abbrev pub directory_of : Option Bytes → Option Bytes
directory_of none = none
directory_of (some path) = directory path

abbrev pub or_else : Option Bytes → Outcome → Outcome
or_else none second = second
or_else (some path) second = found path

-- Whether a file is there; the path of the program, `none` when it does not fit the buffer; and the
-- current directory as the buffer holds it, `none` on an error, which an empty one is too.
module _ (exists : Bytes → Bool) (exe cwd : Option Bytes) where
  -- the file in a directory, if the path fits and it is there
  unfoldable pub driver_in : Bytes → Option Bytes
  driver_in dir =
      if ltb (length dir + length sys_filename) max_path && exists (dir ++ sys_filename)
      then some (dir ++ sys_filename)
      else none

  unfoldable pub driver_at : Option Bytes → Option Bytes
  driver_at none = none
  driver_at (some dir) = driver_in dir

  unfoldable pub next_to_exe : Option Bytes
  next_to_exe = driver_at (directory_of exe)

  unfoldable pub in_slashed : Option Bytes → Outcome
  in_slashed none = overrun
  in_slashed (some dir) = found_at (driver_in dir)

  unfoldable pub in_directory : Option Bytes → Outcome
  in_directory none = missing
  in_directory (some []) = missing
  in_directory (some (c ∷ dir)) = in_slashed (with_slash (c ∷ dir))

  unfoldable pub in_cwd : Outcome
  in_cwd = in_directory cwd

  unfoldable pub find_driver_file : Outcome
  find_driver_file = or_else next_to_exe in_cwd

pub data Handle : Type 0 where
  scm service device : ℕ → Handle

pub data Event : Type 0 where
  opened closed stopped deleted : Handle → Event

-- why CreateService fails
pub data CreateError : Type 0 where
  service_exists marked_for_delete create_failed : CreateError

pub data Created : Type 0 where
  created : ℕ → Created
  not_created : CreateError → Created

pub data Started : Type 0 where
  started already_running start_failed : Started

-- each call gives its answer and the state behind it
pub record Os (S : Type 0) : Type 0 where
  pub open_manager : S → Option ℕ × S
  pub create_service : ℕ → Bytes → S → Created × S
  pub open_service : ℕ → S → Option ℕ × S
  pub start_service : ℕ → S → Started × S
  pub stop_service : ℕ → S → S
  pub delete_service : ℕ → S → S
  pub close_service_handle : ℕ → S → S
  pub create_file : S → Option ℕ × S
  pub close_handle : ℕ → S → S
  pub calloc : S → Bool × S
  pub sleep : S → S

-- the events of a call, in order, with its result and the state behind it
abbrev pub Ran : Type 0 → Type 0 → Type 0
Ran S A = A × List Event × S

-- a call with events before it
abbrev pub after : {S A : Type 0} → List Event → Ran S A → Ran S A
after es (a, es', s) = (a, es ++ es', s)

-- a handle that is null is `none`
pub record Ctx : Type 0 where
  pub driver_handle : Option ℕ
  pub scm_handle : Option ℕ
  pub svc_handle : Option ℕ

module _ {S : Type 0} (os : Os S) where
  unfoldable pub on_started : ℕ → Started × S → Ran S (Option ℕ)
  on_started svc (started, s) = (some svc, [], s)
  on_started svc (already_running, s) = (some svc, [], s)
  on_started svc (start_failed, s) =
      (none, closed (service svc) ∷ [], os.close_service_handle svc s)

  -- the lines behind the loop, with the service
  unfoldable pub start : ℕ → S → Ran S (Option ℕ)
  start svc s = after (opened (service svc) ∷ []) (on_started svc (os.start_service svc s))

  unfoldable pub start_opened : Option ℕ × S → Ran S (Option ℕ)
  start_opened (none, s) = (none, [], s)
  start_opened (some svc, s) = start svc s

  -- stopping a service that is marked for deletion
  unfoldable pub stop_stale : Option ℕ × S → Ran S (Unit {0})
  stop_stale (none, s) = (tt, [], s)
  stop_stale (some stale, s) = (
    tt,
    opened (service stale) ∷ stopped (service stale) ∷ closed (service stale) ∷ [],
    os.close_service_handle stale (os.stop_service stale s),
  )

  -- What follows CreateService; the last argument is the next round of the loop.
  unfoldable pub on_created : ℕ → Created × S → (S → Ran S (Option ℕ)) → Ran S (Option ℕ)
  on_created manager (created svc, s) again = start svc s
  on_created manager (not_created service_exists, s) again =
      start_opened (os.open_service manager s)
  on_created manager (not_created marked_for_delete, s) again =
      let (u, es, s') = stop_stale (os.open_service manager s) in after es (again (os.sleep s'))
  on_created manager (not_created create_failed, s) again = (none, [], s)

  -- the loop, with the retries left
  unfoldable pub install : ℕ → ℕ → Bytes → S → Ran S (Option ℕ)
  install zero manager path s = (none, [], s)
  install (suc n) manager path s =
      on_created manager (os.create_service manager path s) (install n manager path)

  unfoldable pub install_and_start_driver : ℕ → Bytes → S → Ran S (Option ℕ)
  install_and_start_driver = install 3

  -- the four calls that end a service and the manager
  unfoldable pub tear_down : ℕ → ℕ → S → Ran S (Option Ctx)
  tear_down manager svc s = (
    none,
    stopped (service svc)
        ∷ deleted (service svc)
        ∷ closed (service svc)
        ∷ closed (scm manager)
        ∷ [],
    os.close_service_handle manager
        (os.close_service_handle svc (os.delete_service svc (os.stop_service svc s))),
  )

  unfoldable pub on_calloc : ℕ → ℕ → ℕ → Bool × S → Ran S (Option Ctx)
  on_calloc manager svc dev (true, s) = (
    some (record { driver_handle = some dev; scm_handle = some manager; svc_handle = some svc }),
    [],
    s,
  )
  on_calloc manager svc dev (false, s) =
      after (closed (device dev) ∷ []) (tear_down manager svc (os.close_handle dev s))

  unfoldable pub on_device : ℕ → ℕ → Option ℕ × S → Ran S (Option Ctx)
  on_device manager svc (none, s) = tear_down manager svc s
  on_device manager svc (some dev, s) =
      after (opened (device dev) ∷ []) (on_calloc manager svc dev (os.calloc s))

  unfoldable pub on_service : ℕ → Ran S (Option ℕ) → Ran S (Option Ctx)
  on_service manager (none, es, s) =
      (none, es ++ (closed (scm manager) ∷ []), os.close_service_handle manager s)
  on_service manager (some svc, es, s) = after es (on_device manager svc (os.create_file s))

  unfoldable pub on_manager : Bytes → Option ℕ × S → Ran S (Option Ctx)
  on_manager path (none, s) = (none, [], s)
  on_manager path (some manager, s) =
      after (opened (scm manager) ∷ [])
        (on_service manager (install_and_start_driver manager path s))

  -- with the path that `find_driver_file` finds, `none` when it is missing
  unfoldable pub init : Option Bytes → S → Ran S (Option Ctx)
  init none s = (none, [], s)
  init (some path) s = on_manager path (os.open_manager s)

  unfoldable pub close_driver : Option ℕ → S → Ran S (Unit {0})
  close_driver none s = (tt, [], s)
  close_driver (some dev) s = (tt, closed (device dev) ∷ [], os.close_handle dev s)

  unfoldable pub end_service : Option ℕ → S → Ran S (Unit {0})
  end_service none s = (tt, [], s)
  end_service (some svc) s = (
    tt,
    stopped (service svc) ∷ deleted (service svc) ∷ closed (service svc) ∷ [],
    os.close_service_handle svc (os.delete_service svc (os.stop_service svc s)),
  )

  unfoldable pub close_manager : Option ℕ → S → Ran S (Unit {0})
  close_manager none s = (tt, [], s)
  close_manager (some manager) s =
      (tt, closed (scm manager) ∷ [], os.close_service_handle manager s)

  unfoldable pub shutdown : Option Ctx → S → Ran S (Unit {0})
  shutdown none s = (tt, [], s)
  shutdown (some c) s =
      let (a, es, s1) = close_driver c.driver_handle s in
      let (b, es', s2) = end_service c.svc_handle s1 in
      after (es ++ es') (close_manager c.scm_handle s2)
