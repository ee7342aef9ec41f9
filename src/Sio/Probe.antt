-- ===== src/Sio/Probe.antt =====
-- motherboard/superio.c: the ITE path, which reads the monitor behind its own base address with the
-- decoder of ite_decode.c.
use libhwsense.Prelude.{
  ℕ, String, ◌+◌, ◌*◌, ◌/◌, ◌%◌, Bool, false, not, ◌&&◌, ◌||◌, Option, none, some, leb, ltb, ◌==◌,
  if◌then◌else◌,
}
use libhwsense.Prelude.Int.{pos}
use libhwsense.Prelude.Word.{word}
use libhwsense.Slots.{cleared}
use libhwsense.Superio.{
  SuperioResult, zeroed, is_empty, named, ite_disabled, no_valid_readings, max_temps, max_fans,
  max_voltages,
}
use libhwsense.Ite
use libhwsense.Sio.Port.{
  World, M, ◌>>=◌, ◌>>◌, pure, both, or_zero, sio_read_port, sio_write_port, sio_read_reg,
  sio_write_reg,
}

unfoldable pub ite_base_ok : ℕ → Bool
ite_base_ok base =
    if ltb base 0x100 || ltb 0xfff8 base || not (base % 8 == 0)
    then false
    else not (leb (base + 5) 0xcff && leb 0xcf8 (base + 6))

-- keeps only the requested kinds of reading
unfoldable pub ite_filter : Bool → Bool → Bool → SuperioResult → SuperioResult
ite_filter temps fans volts src =
    let t = if temps then src.temps else cleared max_temps (pos 0) in
    let f = if fans then src.fans else cleared max_fans (pos 0) in
    let v = if volts then src.voltages else cleared max_voltages (pos 0) in
    let ok =
      temps && not (t.count == 0) || fans && not (f.count == 0) || volts && not (v.count == 0) in
    record src {
      temps = t;
      fans = f;
      voltages = v;
      ok = ok;
      error = if not ok && is_empty src.error then no_valid_readings src.chip_name else src.error;
    }

module _ {S : Type 0} (read_port : S → ℕ → Option ℕ × S) (write_port : S → ℕ → ℕ → Bool × S) where
  unfoldable pub ite_enter : ℕ → M S Bool
  ite_enter addr_port = both (sio_write_port read_port write_port addr_port 0x87) (
      both (sio_write_port read_port write_port addr_port 0x01) (
        both (sio_write_port read_port write_port addr_port 0x55) (
          sio_write_port read_port write_port addr_port
            (if addr_port == 0x4e then 0xaa else 0x55))))

  unfoldable pub ite_exit : ℕ → ℕ → M S Bool
  ite_exit addr_port data_port = sio_write_reg read_port write_port addr_port data_port 0x02 0x02

  unfoldable pub ite_win_read : ℕ → World S → ℕ → Option ℕ × World S
  ite_win_read base w reg = run w
    where
      run : M S (Option ℕ)
      run = do
        ok ← sio_write_port read_port write_port (base + 5) (reg % 256)
        if ok then sio_read_port read_port write_port (base + 6) else pure none

  unfoldable pub ite_win_write : ℕ → World S → ℕ → ℕ → World S
  ite_win_write base w reg val =
      (both (sio_write_port read_port write_port (base + 5) (reg % 256))
        (sio_write_port read_port write_port (base + 6) (val % 256)) w).1

  unfoldable pub set_ec_ports : ℕ → ℕ → M S (Unit {0})
  set_ec_ports index data_ w =
      (tt, record w { sio_ec_index_port = index; sio_ec_data_port = data_ })

  -- `hwsense_ite_decode(id, ite_win_read, ite_win_write, &w, out)`
  unfoldable pub decode_at : ℕ → ℕ → SuperioResult → M S SuperioResult
  decode_at id base out w =
      let (ok, w', r) = Ite.decode (ite_win_read base) (ite_win_write base) id w out in (r, w')

  -- the decoder's call, with writes to the monitor's two ports allowed around it
  unfoldable pub decode_guarded : ℕ → ℕ → SuperioResult → M S SuperioResult
  decode_guarded id base out = do
    set_ec_ports (base + 5) (base + 6)
    r ← decode_at id base out
    set_ec_ports 0 0
    pure r

  -- the steps behind the base address
  unfoldable pub ite_read_monitor : ℕ → String → ℕ → ℕ → M S SuperioResult
  ite_read_monitor id name active base =
      let out = record zeroed { chip_name = named name; chip_id = id } in
      if active % 2 == 0 || not (ite_base_ok base)
      then pure (record out { error = ite_disabled name base })
      else decode_guarded id base out

  -- the steps behind the chip's ID; `none` is the result FALSE
  unfoldable pub ite_read_chip : ℕ → ℕ → ℕ → Option String → M S (Option SuperioResult)
  ite_read_chip addr_port data_port id none = do ite_exit addr_port data_port; pure none
  ite_read_chip addr_port data_port id (some name) = do
    sio_write_reg read_port write_port addr_port data_port 0x07 0x04
    active ← sio_read_reg read_port write_port addr_port data_port 0x30
    hi ← sio_read_reg read_port write_port addr_port data_port 0x60
    lo ← sio_read_reg read_port write_port addr_port data_port 0x61
    ite_exit addr_port data_port
    r ← ite_read_monitor id name (or_zero active) (word (or_zero hi) (or_zero lo) / 8 * 8)
    pure (some r)

  unfoldable pub ite_probe_and_read : ℕ → ℕ → M S (Option SuperioResult)
  ite_probe_and_read addr_port data_port =
      if not (addr_port == 0x2e) && not (addr_port == 0x4e) then pure none else (do
        entered ← ite_enter addr_port
        if entered
            then (do
              hi ← sio_read_reg read_port write_port addr_port data_port 0x20
              lo ← sio_read_reg read_port write_port addr_port data_port 0x21
              let id = word (or_zero hi) (or_zero lo)
              ite_read_chip addr_port data_port id (Ite.ite_chip_name id))
            else pure none)
