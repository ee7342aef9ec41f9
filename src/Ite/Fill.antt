-- ===== src/Ite/Fill.antt =====
-- motherboard/ite_decode.c: the counts and the arrays of the result.
use libhwsense.Prelude.{ℕ, Option, none, some, length}
use libhwsense.Slots.Laws.{scan-IsValid}
use libhwsense.Superio.{SuperioResult, FitsArrays, max_temps, max_fans, max_voltages}
use libhwsense.Ite.{
  IteChip, find_chip, ite_vin, temp_at, fan_at, voltage_at, read_inputs, finish,
  decode_in_bank_zero, decode_bank, decode_found, decode,
}

finish-FitsArrays :
    (id : ℕ) (chip : IteChip) (r : SuperioResult) → FitsArrays r → FitsArrays (finish id chip r)
unfolding finish
finish-FitsArrays id chip r h = record {
  temps_fit = h.temps_fit;
  fans_fit = h.fans_fit;
  voltages_fit = h.voltages_fit;
}

module _ {S : Type 0} (rd : S → ℕ → Option ℕ × S) (wr : S → ℕ → ℕ → S) where
  pub read_inputs-FitsArrays :
      (chip : IteChip) (s : S) (r : SuperioResult)
      → FitsArrays r
      → FitsArrays (read_inputs rd wr chip s r).1
  unfolding read_inputs
  read_inputs-FitsArrays chip s r h = record {
    temps_fit = scan-IsValid max_temps (temp_at rd wr) chip.temps 0 s r.temps h.temps_fit;
    fans_fit = scan-IsValid max_fans (fan_at rd wr) chip.fans 0 _ r.fans h.fans_fit;
    voltages_fit =
        scan-IsValid max_voltages (voltage_at rd wr chip.adc_lsb_x10) (length ite_vin) 0 _
          r.voltages h.voltages_fit;
  }

  decode_bank-FitsArrays :
      (id : ℕ) (chip : IteChip) (b : Option ℕ × S) (r : SuperioResult)
      → FitsArrays r
      → FitsArrays (decode_bank rd wr id chip b r).2
  unfolding decode_bank decode_in_bank_zero
  decode_bank-FitsArrays id chip (none, s) r h = record {
    temps_fit = h.temps_fit;
    fans_fit = h.fans_fit;
    voltages_fit = h.voltages_fit;
  }
  decode_bank-FitsArrays id chip (some bank, s) r h =
      finish-FitsArrays id chip _ (read_inputs-FitsArrays chip _ r h)

  decode_found-FitsArrays :
      (id : ℕ) (c : Option IteChip) (s : S) (r : SuperioResult)
      → FitsArrays r
      → FitsArrays (decode_found rd wr id c s r).2
  unfolding decode_found
  decode_found-FitsArrays id none s r h = record {
    temps_fit = h.temps_fit;
    fans_fit = h.fans_fit;
    voltages_fit = h.voltages_fit;
  }
  decode_found-FitsArrays id (some chip) s r h = decode_bank-FitsArrays id chip _ r h

  -- Whatever the callbacks return, a result whose counts are inside its arrays keeps them inside: no
  -- loop writes past the 8 temperatures, the 7 fans or the 16 voltages.
  pub decode-FitsArrays :
      (id : ℕ) (s : S) (r : SuperioResult) → FitsArrays r → FitsArrays (decode rd wr id s r).2
  unfolding decode
  decode-FitsArrays id s r h = decode_found-FitsArrays id (find_chip id) s r h
