-- ===== src/Sio/Read.antt =====
-- motherboard/superio.c: the three exported readers.
use libhwsense.Prelude.{
  ℕ, ◌+◌, ◌*◌, Bool, true, false, Option, none, some, List, [], ◌∷◌, length, ltb, ◌==◌,
  if◌then◌else◌,
}
use libhwsense.Prelude.Int.{ℤ, pos}
use libhwsense.Slots.{Slots, scan}
use libhwsense.Superio.{
  SuperioResult, zeroed, named, named_at, no_temperatures, no_fans, no_voltages, no_chip,
  no_chip_among, Message, invalid_context, max_temps, max_fans, max_voltages,
}
use libhwsense.Sio.Port.{M, ◌>>=◌, ◌>>◌, pure, unlock}
use libhwsense.Sio.Nuvoton.{
  SioChipType, unknown, nuvoton, SioChipInfo, sio_detect_chip, nct679x_read_temp, nct679x_read_fan,
  nct679x_read_voltage,
}
use libhwsense.Sio.Probe.{ite_filter, ite_probe_and_read}

unfoldable pub is_unknown : SioChipType → Bool
is_unknown unknown = true
is_unknown _ = false

-- how many channels the `switch` on the chip's type reads
unfoldable pub channels : SioChipType → ℕ → ℕ
channels nuvoton n = n
channels _ n = 0

abbrev pub Pairs : Type 0
Pairs = List (ℕ × ℕ)

abbrev pub temp_port_pairs : Pairs
temp_port_pairs =
    (0x2e, 0x2f) ∷ (0x4e, 0x4f) ∷ (0x162, 0x163) ∷ (0x3e0, 0x3e1) ∷ (0x4e0, 0x4e1) ∷ []

abbrev pub port_pairs : Pairs
port_pairs = (0x2e, 0x2f) ∷ (0x4e, 0x4f) ∷ (0x162, 0x163) ∷ []

-- `if (temp > 0)`, and in mV the same for a voltage
unfoldable pub if_positive : Option ℕ → ℕ → Option ℤ
if_positive none scale = none
if_positive (some n) scale = if n == 0 then none else some (pos (n * scale))

-- `if (rpm >= 0)`
unfoldable pub if_valid : Option ℕ → Option ℤ
if_valid none = none
if_valid (some n) = some (pos n)

module _ {S : Type 0} (read_port : S → ℕ → Option ℕ × S) (write_port : S → ℕ → ℕ → Bool × S) where
  unfoldable pub temp_body : ℕ → ℕ → ℕ → M S (Option ℤ)
  temp_body addr_port data_port i = do
    t ← nct679x_read_temp read_port write_port addr_port data_port i
    pure (if_positive t 1)

  unfoldable pub fan_body : ℕ → ℕ → ℕ → M S (Option ℤ)
  fan_body addr_port data_port i = do
    rpm ← nct679x_read_fan read_port write_port addr_port data_port i
    pure (if_valid rpm)

  -- mV in units of 10 µV
  unfoldable pub voltage_body : ℕ → ℕ → ℕ → M S (Option ℤ)
  voltage_body addr_port data_port i = do
    mv ← nct679x_read_voltage read_port write_port addr_port data_port i
    pure (if_positive mv 100)

  unfoldable pub fill : ℕ → (ℕ → M S (Option ℤ)) → ℕ → Slots ℤ → M S (Slots ℤ)
  fill max body n a w = let (w', a') = scan max body n 0 w a in (a', w')

  -- What each reader does with a chip that it found.
  unfoldable pub chip_temps : ℕ → ℕ → SioChipInfo → M S SuperioResult
  chip_temps addr_port data_port chip = do
    unlock read_port write_port addr_port data_port
    temps ← fill max_temps (temp_body addr_port data_port) (channels chip.kind 8) zeroed.temps
    let ok = ltb 0 temps.count
    pure (record zeroed {
      chip_id = chip.id;
      chip_name = named_at chip.name addr_port;
      temps = temps;
      ok = ok;
      error = if ok then zeroed.error else no_temperatures chip.name;
    })

  -- Each fan counts in `count` too, which is the number of temperatures.
  unfoldable pub chip_fans : ℕ → ℕ → SioChipInfo → M S SuperioResult
  chip_fans addr_port data_port chip = do
    unlock read_port write_port addr_port data_port
    fans ← fill max_fans (fan_body addr_port data_port) (channels chip.kind 7) zeroed.fans
    let ok = ltb 0 fans.count
    pure (record zeroed {
      chip_id = chip.id;
      chip_name = named chip.name;
      fans = fans;
      temps = record zeroed.temps { count = zeroed.temps.count + fans.count };
      ok = ok;
      error = if ok then zeroed.error else no_fans chip.name;
    })

  unfoldable pub chip_voltages : ℕ → ℕ → SioChipInfo → M S SuperioResult
  chip_voltages addr_port data_port chip = do
    unlock read_port write_port addr_port data_port
    volts ←
        fill max_voltages (voltage_body addr_port data_port) (channels chip.kind 16) zeroed.voltages
    let ok = ltb 0 volts.count
    pure (record zeroed {
      chip_id = chip.id;
      chip_name = named chip.name;
      voltages = volts;
      temps = record zeroed.temps { count = zeroed.temps.count + volts.count };
      ok = ok;
      error = if ok then zeroed.error else no_voltages chip.name;
    })

  -- What a round does with what the ITE probe gave; `next` is the rest of the loop.
  unfoldable pub try_chip :
      (SuperioResult → SuperioResult)
      → (ℕ → ℕ → SioChipInfo → M S SuperioResult)
      → ℕ
      → ℕ
      → M S SuperioResult
      → Option SuperioResult
      → M S SuperioResult
  try_chip keep on_chip addr_port data_port next (some r) = pure (keep r)
  try_chip keep on_chip addr_port data_port next none = do
    chip ← sio_detect_chip read_port write_port addr_port data_port
    if is_unknown chip.kind then next else on_chip addr_port data_port chip

  -- The loop over the port pairs, with the message behind it, the kinds to keep of an ITE chip and what to do with another.
  unfoldable pub try_pairs :
      Message
      → (SuperioResult → SuperioResult)
      → (ℕ → ℕ → SioChipInfo → M S SuperioResult)
      → Pairs
      → M S SuperioResult
  try_pairs nothing keep on_chip [] = pure (record zeroed { error = nothing })
  try_pairs nothing keep on_chip ((addr_port, data_port) ∷ pairs) = do
    found ← ite_probe_and_read read_port write_port addr_port data_port
    try_chip keep on_chip addr_port data_port (try_pairs nothing keep on_chip pairs) found

  -- The argument says whether the context and its driver handle are valid.
  unfoldable pub superio_temps : Bool → M S SuperioResult
  superio_temps false = pure (record zeroed { error = invalid_context })
  superio_temps true =
      try_pairs (no_chip_among (length temp_port_pairs)) (ite_filter true false false) chip_temps
        temp_port_pairs

  unfoldable pub superio_fans : Bool → M S SuperioResult
  superio_fans false = pure (record zeroed { error = invalid_context })
  superio_fans true = try_pairs no_chip (ite_filter false true false) chip_fans port_pairs

  unfoldable pub superio_voltages : Bool → M S SuperioResult
  superio_voltages false = pure (record zeroed { error = invalid_context })
  superio_voltages true = try_pairs no_chip (ite_filter false false true) chip_voltages port_pairs
