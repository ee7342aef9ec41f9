-- ===== src/Board/Tests.antt =====
-- core/sensors_linux.c on a few files, and the theorem at them.
use libhwsense.Prelude.{
  ℕ, ◌+◌, ◌≡◌, refl, Bool, true, false, Option, none, some, List, [], ◌∷◌, if◌then◌else◌,
}
use libhwsense.Prelude.Int.{pos}
use libhwsense.Text.{Bytes, codes}
use libhwsense.Slots.{readings, scan, push, push?}
use libhwsense.Export.{digits}
use libhwsense.Superio.{SuperioResult, zeroed, any_reading, no_ite_chip, empty}
use libhwsense.Sysfs.{
  Files, before_newline, first_line, read_line, digits_value, signed_value, atol, read_long,
  hwmon_path, hwmon_name, input_file, same, any_same,
}
use libhwsense.Board.{
  Wants, is_non_board_chip, is_unnamed, input_at, scan_device, name_device, scan_named,
  scan_devices, scan_hwmon, keep_wanted, after_ite, superio_scan,
}
use libhwsense.Board.Linux.{read_ite, read_nct}
use libhwsense.Board.Readers.{board-IsAsked}
use libhwsense.Board.Scan.{IsAsked, Explained}

abbrev listed : List (Bytes × Bytes) → Bytes → Option Bytes
listed [] path = none
listed ((k, text) ∷ rest) path = if same k path then some text else listed rest path

-- a CPU sensor, which is skipped, and a board chip with one fan
abbrev files : Files
files = listed (
    (codes "/sys/class/hwmon/hwmon0/name", codes "k10temp\n")
    ∷ (codes "/sys/class/hwmon/hwmon0/fan1_input", codes "5000\n")
    ∷ (codes "/sys/class/hwmon/hwmon1/name", codes "nct6775\n")
    ∷ (codes "/sys/class/hwmon/hwmon1/fan2_input", codes "1180\n")
    ∷ [])

abbrev fans_only : Wants
fans_only = record { temps = false; fans = true; volts = false }

abbrev temps_only : Wants
temps_only = record { temps = true; fans = false; volts = false }

-- two of the devices are enough here
fans_run : readings (scan_devices files fans_only 2 0 zeroed).fans ≡ pos 1180 ∷ []
unfolding same before_newline first_line read_line digits digits_value signed_value atol read_long
    hwmon_path hwmon_name input_file any_same is_non_board_chip is_unnamed input_at scan_device
    name_device scan_named scan_devices scan push push?
fans_run = refl

-- a chip with a fan and no temperature
abbrev fan_chip : ℕ → Bool × ℕ × SuperioResult
fan_chip d =
    (true, d + 1, record zeroed { fans = record { cells = pos 900 ∷ []; count = 1 }; ok = true })

abbrev no_answer : ℕ → Bool × ℕ × SuperioResult
no_answer d = (false, d, record zeroed { error = no_ite_chip })

-- With no driver loaded the temperatures of that chip are an `ok` result without a temperature.
ok_without_temps_run :
    let (r, d) = after_ite fan_chip no_answer temps_only zeroed (fan_chip 0) in
    (r.ok ≡ true) × (r.temps.count ≡ 0) × (r.error ≡ empty)
unfolding after_ite keep_wanted
ok_without_temps_run = (refl, refl, refl)

abbrev outb : ℕ → ℕ → ℕ → ℕ
outb d port v = d + 1

abbrev inb : ℕ → ℕ → Option ℕ × ℕ
inb d port = (some 255, d)

abbrev opens : ℕ → Bool × ℕ
opens d = (true, d)

board-IsAsked_example :
    let (r, d') =
      superio_scan
        (read_ite outb inb opens files)
        (read_nct outb inb opens files)
        files
        fans_only
        0 in
    IsAsked fans_only r × Explained r × (any_reading (scan_hwmon files fans_only) ≡ true → d' ≡ 0)
board-IsAsked_example = board-IsAsked outb inb opens files fans_only 0
