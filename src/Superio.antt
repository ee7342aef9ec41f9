-- ===== src/Superio.antt =====
-- include/hwsense.h: `hwsense_superio_result_t`, which the readers of motherboard sensor chips fill.
-- Each array stands with its count. Voltages are in units of 10 µV, so that every scale of the source
-- is a whole number. A text written by snprintf is the message that it prints, with its arguments.
use libhwsense.Prelude.{ℕ, String, Bool, true, false, not, ◌||◌, ◌==◌}
use libhwsense.Prelude.Int.{ℤ, pos}
use libhwsense.Text.{Bytes}
use libhwsense.Slots.{Slots, IsValid, cleared}

-- what `chip_name` holds: nothing, a chip's name, or a name with the port it was found at
pub data ChipName : Type 0 where
  unnamed : ChipName
  named : String → ChipName
  named_at : String → ℕ → ChipName
  -- the name that the kernel has for a chip
  named_by : Bytes → ChipName

pub data Message : Type 0 where
  empty : Message
  -- ite_decode.c
  unsupported_ite : ℕ → Message
  no_ite_bank : Message
  no_ite_readings : String → Message
  -- ite_linux.c
  no_ite_chip : Message
  -- nct_linux.c
  no_nct_readings : String → Message
  no_nct_chip : Message
  -- what hwsense_port_open leaves when it fails
  no_port_access : Message
  -- sensors_linux.c
  no_board_sensors : Message
  -- superio.c
  ite_disabled : String → ℕ → Message
  no_valid_readings : ChipName → Message
  no_temperatures : String → Message
  no_fans : String → Message
  no_voltages : String → Message
  no_chip : Message
  no_chip_among : ℕ → Message
  invalid_context : Message

-- `error[0] == 0`
unfoldable pub is_empty : Message → Bool
is_empty empty = true
is_empty _ = false

abbrev pub max_temps : ℕ
max_temps = 8

abbrev pub max_fans : ℕ
max_fans = 7

abbrev pub max_voltages : ℕ
max_voltages = 16

pub record SuperioResult : Type 0 where
  pub ok : Bool
  pub temps : Slots ℤ
  pub fans : Slots ℤ
  pub voltages : Slots ℤ
  pub chip_id : ℕ
  pub chip_name : ChipName
  pub error : Message

-- `{0}`, and what `memset(r, 0, sizeof(*r))` leaves
abbrev pub zeroed : SuperioResult
zeroed = record {
  ok = false;
  temps = cleared max_temps (pos 0);
  fans = cleared max_fans (pos 0);
  voltages = cleared max_voltages (pos 0);
  chip_id = 0;
  chip_name = unnamed;
  error = empty;
}

-- The counts stay inside the arrays.
pub record FitsArrays (r : SuperioResult) : Type 0 where
  pub temps_fit : IsValid max_temps r.temps
  pub fans_fit : IsValid max_fans r.fans
  pub voltages_fit : IsValid max_voltages r.voltages

-- `r->count || r->fan_count || r->voltage_count`
unfoldable pub any_reading : SuperioResult → Bool
any_reading r = not (r.temps.count == 0) || not (r.fans.count == 0) || not (r.voltages.count == 0)
