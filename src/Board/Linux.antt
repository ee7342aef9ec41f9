-- ===== src/Board/Linux.antt =====
-- core/sensors_linux.c: the three functions of the interface, with the readers of ite_linux.c and
-- nct_linux.c. `outb`, `inb` and `port_open` of portio_linux.h are parameters over a device.
use libhwsense.Prelude.{ℕ, Bool, true, false, Option}
use libhwsense.Superio.{SuperioResult}
use libhwsense.Sysfs.{Files}
use libhwsense.Ite.Hw.{ite_read_linux}
use libhwsense.Nct.Hw.{nct_read_linux}
use libhwsense.Board.{superio_scan}

module _ {D : Type 0} (outb : D → ℕ → ℕ → D) (inb : D → ℕ → Option ℕ × D) (port_open : D → Bool × D)
    (files : Files) where
  unfoldable pub read_ite : D → Bool × D × SuperioResult
  read_ite d = let (opened, d') = port_open d in ite_read_linux outb inb opened d'

  unfoldable pub read_nct : D → Bool × D × SuperioResult
  read_nct d = let (opened, d') = port_open d in nct_read_linux outb inb opened d'

  unfoldable pub superio_temps : D → SuperioResult × D
  superio_temps =
      superio_scan read_ite read_nct files (record { temps = true; fans = false; volts = false })

  unfoldable pub superio_fans : D → SuperioResult × D
  superio_fans =
      superio_scan read_ite read_nct files (record { temps = false; fans = true; volts = false })

  unfoldable pub superio_voltages : D → SuperioResult × D
  superio_voltages =
      superio_scan read_ite read_nct files (record { temps = false; fans = false; volts = true })
