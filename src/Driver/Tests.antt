-- ===== src/Driver/Tests.antt =====
-- core/driver.c on a system that counts its calls, and the theorems at it.
use libhwsense.Prelude.{ℕ, ◌+◌, ◌≡◌, refl, Bool, true, some, [], ◌∷◌, ◌++◌, ◌==◌, if◌then◌else◌}
use libhwsense.Text.{Bytes, codes}
use libhwsense.Sysfs.{same}
use libhwsense.Driver.{
  found, in_directory, in_slashed, directory, driver_in, driver_at, next_to_exe, in_cwd,
  find_driver_file, ends_in_slash, scm, service, opened, closed, stopped, created, not_created,
  marked_for_delete, Started, started, start_failed, Os, on_started, start, stop_stale, on_created,
  install, install_and_start_driver, on_service, on_manager, init, shutdown,
}
use libhwsense.Driver.Handles.{Leaves, ContextLeft, init-shutdown}

abbrev there : Bytes → Bool
there path = same path (codes "C:\\tools\\WinRing0x64.sys")

found_run :
    find_driver_file there (some (codes "C:\\app\\run.exe")) (some (codes "C:\\tools"))
    ≡ found (codes "C:\\tools\\WinRing0x64.sys")
unfolding find_driver_file next_to_exe in_cwd in_directory in_slashed driver_at driver_in directory
    ends_in_slash same
found_run = refl

-- The state counts the calls. The first two creations meet a service that is marked for deletion.
abbrev os : (Started → Bool → Os ℕ)
os answer memory = record {
  open_manager = λ n. (some 1, n + 1);
  create_service = λ m path n. (if n == 1 then not_created marked_for_delete else created 5, n + 1);
  open_service = λ m n. (some 4, n + 1);
  start_service = λ svc n. (answer, n + 1);
  stop_service = λ svc n. n + 1;
  delete_service = λ svc n. n + 1;
  close_service_handle = λ h n. n + 1;
  create_file = λ n. (some 9, n + 1);
  close_handle = λ h n. n + 1;
  calloc = λ n. (memory, n + 1);
  sleep = λ n. n + 1;
}

-- A service that was created and does not start is closed, and is not deleted.
not_started_run :
    (init (os start_failed true) (some (codes "x")) 0).1
    ≡ opened (scm 1)
      ∷ opened (service 4)
      ∷ stopped (service 4)
      ∷ closed (service 4)
      ∷ opened (service 5)
      ∷ closed (service 5)
      ∷ closed (scm 1)
      ∷ []
unfolding init on_manager install_and_start_driver install on_created stop_stale start on_started
    on_service
not_started_run = refl

init-shutdown_example :
    let (c, es, s') = init (os started true) (some (codes "x")) 0 in
    Leaves (es ++ (shutdown (os started true) c s').1) [] [] × ContextLeft [] (c, es, s')
init-shutdown_example = init-shutdown (os started true) (some (codes "x")) 0
