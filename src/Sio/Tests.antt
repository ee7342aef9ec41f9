-- ===== src/Sio/Tests.antt =====
-- motherboard/superio.c on a simulated NCT6798D behind ports 0x2E and 0x2F, and the theorems at it.
use libhwsense.Prelude.{
  ℕ, ◌≤◌, ◌≡◌, refl, Option, none, some, Bool, true, false, List, [], ◌∷◌, All, ◌==◌, if◌then◌else◌,
}
use libhwsense.Prelude.Int.{pos}
use libhwsense.Slots.{readings, scan, push, push?}
use libhwsense.Ite.{ite_chip_name, find_chip, find_in}
use libhwsense.Superio.{no_chip_among, FitsArrays, zeroed}
use libhwsense.Sio.Port.{
  World, ◌>>=◌, ◌>>◌, pure, both, sio_validate_write_port, sio_read_port, sio_write_port, sio_enter,
  sio_exit, sio_read_reg, sio_write_reg, unlock,
}
use libhwsense.Sio.Nuvoton.{
  nuvoton, look_up, temp_of, fan_of, nct679x_read_reg, sio_detect_chip, nct679x_read_temp,
}
use libhwsense.Sio.Probe.{
  ite_base_ok, ite_filter, ite_enter, ite_exit, ite_read_chip, ite_probe_and_read,
}
use libhwsense.Sio.Read.{
  is_unknown, channels, if_positive, temp_body, fill, chip_temps, chip_voltages, try_chip,
  try_pairs, superio_temps, superio_fans, superio_voltages,
}
use libhwsense.Sio.Safety.{
  Safe, Closed, superio-Closed, superio_writes-Safe, logged_read, logged_write,
}
use libhwsense.Sio.Results.{temp_of_lem, superio-FitsArrays, chip_voltages_count}
use libhwsense.Sio.Blocked.{standard_pairs, superio_temps_pairs}

-- the registers that are not 0; 45 and 38 degrees, and 0x0708 = 1800 as the count of the first fan
abbrev listed : List (ℕ × ℕ) → ℕ → ℕ
listed [] reg = 0
listed ((k, v) ∷ rest) reg = if k == reg then v else listed rest reg

abbrev cell : ℕ → ℕ
cell = listed (
    (0x20, 0xd4)
    ∷ (0x21, 0x2b)
    ∷ (0x73, 45)
    ∷ (0x75, 38)
    ∷ (0xb0, 0x08)
    ∷ (0xb1, 0x07)
    ∷ (0x80, 125)
    ∷ [])

-- The state is the selected register.
abbrev inb : ℕ → ℕ → Option ℕ × ℕ
inb s port = if port == 0x2f then (some (cell s), s) else (some 0xff, s)

abbrev outb : ℕ → ℕ → ℕ → Bool × ℕ
outb s port v = if port == 0x2e then (true, v) else (true, s)

abbrev world : World ℕ
world = record { dev = 0; sio_ec_index_port = 0; sio_ec_data_port = 0 }

temps_run : readings (superio_temps inb outb true world).0.temps ≡ pos 45 ∷ pos 38 ∷ []
unfolding superio_temps try_pairs try_chip chip_temps fill temp_body if_positive channels is_unknown
    ite_probe_and_read ite_read_chip ite_exit ite_enter nct679x_read_temp sio_detect_chip
    nct679x_read_reg fan_of temp_of look_up unlock sio_write_reg sio_read_reg sio_exit sio_enter
    sio_write_port sio_read_port sio_validate_write_port both pure ◌>>◌ ◌>>=◌ scan push push?
    ite_chip_name find_chip find_in
temps_run = refl

invalid_run : (superio_temps inb outb false world).0.ok ≡ false
unfolding superio_temps pure
invalid_run = refl

fan_run : fan_of 0x10 0x10 ≡ 328
unfolding fan_of
fan_run = refl

base_run : (ite_base_ok 0x290 ≡ true) × (ite_base_ok 0xcf8 ≡ false)
unfolding ite_base_ok
base_run = (refl, refl)

superio_writes-Safe_example :
    let w : World (List ℕ × ℕ) = record {
      dev = ([], 0);
      sio_ec_index_port = 0;
      sio_ec_data_port = 0;
    } in
    All Safe (superio_temps (logged_read inb outb) (logged_write inb outb) true w).1.dev.0
    × All Safe (superio_fans (logged_read inb outb) (logged_write inb outb) true w).1.dev.0
    × All Safe (superio_voltages (logged_read inb outb) (logged_write inb outb) true w).1.dev.0
superio_writes-Safe_example = superio_writes-Safe inb outb true 0

superio-Closed_example :
    Closed (superio_temps inb outb true world).1
    × Closed (superio_fans inb outb true world).1
    × Closed (superio_voltages inb outb true world).1
superio-Closed_example = superio-Closed inb outb true world refl

superio-FitsArrays_example :
    FitsArrays (superio_temps inb outb true world).0
    × FitsArrays (superio_fans inb outb true world).0
superio-FitsArrays_example = superio-FitsArrays inb outb true world

chip_voltages_count_run :
    let r =
      (chip_voltages inb outb 0x2e 0x2f
        (record { id = 0xd42b; kind = nuvoton; name = "NCT6798D" })
        world).0 in
    (r.temps.count ≡ r.voltages.count)
    × (r.voltages.count ≤ 16)
    × (r.temps.cells ≡ zeroed.temps.cells)
chip_voltages_count_run =
    chip_voltages_count inb outb 0x2e 0x2f
      (record { id = 0xd42b; kind = nuvoton; name = "NCT6798D" }) world

superio_temps_pairs_example :
    superio_temps inb outb true world
    ≡ try_pairs inb outb
        (no_chip_among 5)
        (ite_filter true false false)
        (chip_temps inb outb)
        standard_pairs
        world
superio_temps_pairs_example = superio_temps_pairs inb outb world refl

temp_of_lem_run : temp_of 200 0x80 7 ≡ none
temp_of_lem_run = temp_of_lem 200 0x80 7
