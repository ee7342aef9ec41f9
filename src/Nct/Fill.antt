-- ===== src/Nct/Fill.antt =====
-- motherboard/nct_linux.c: the decoder's arrays, and its two searches of the chip table.
use libhwsense.Prelude.{ℕ, ◌≡◌, Option, none, some, length, arith}
use libhwsense.Slots.Laws.{scan-IsValid}
use libhwsense.Superio.{SuperioResult, FitsArrays, max_temps, max_fans, max_voltages}
use libhwsense.Nct.{
  NctChip, nct_chips, nct_fan_reg, first_in, last_in, temp_rounds, scales, temp_at, fan_at,
  voltage_at, read_inputs, finish, decode_found, decode,
}

-- The search for a name, which stops at the first entry, and the decoder's search, which takes the
-- last one, find the same chip for every ID: the table has no two entries for one ID.
pub searches_agree : (id : ℕ) → first_in nct_chips id ≡ last_in nct_chips id none
unfolding first_in last_in
searches_agree id = ground arith

module _ {S : Type 0} (rd : S → ℕ → Option ℕ × S) where
  read_inputs-FitsArrays :
      (chip : NctChip) (s : S) (r : SuperioResult)
      → FitsArrays r
      → FitsArrays (read_inputs rd chip s r).1
  unfolding read_inputs
  read_inputs-FitsArrays chip s r h = record {
    temps_fit =
        scan-IsValid max_temps (temp_at rd chip.second_layout) (temp_rounds chip.second_layout) 0 _
          r.temps h.temps_fit;
    fans_fit = scan-IsValid max_fans (fan_at rd) (length nct_fan_reg) 0 _ r.fans h.fans_fit;
    voltages_fit =
        scan-IsValid max_voltages (voltage_at rd (scales chip.second_layout)) chip.in_num 0 _
          r.voltages h.voltages_fit;
  }

  found-FitsArrays :
      (id : ℕ) (c : Option NctChip) (s : S) (r : SuperioResult)
      → FitsArrays r
      → FitsArrays (decode_found rd id c s r).2
  unfolding decode_found finish
  found-FitsArrays id none s r h = h
  found-FitsArrays id (some chip) s r h =
      let k = read_inputs-FitsArrays chip s r h in
      record { temps_fit = k.temps_fit; fans_fit = k.fans_fit; voltages_fit = k.voltages_fit }

  -- Whatever the callback returns, a result whose counts are inside its arrays keeps them inside, also
  -- for the NCT6799, which has 18 voltage inputs for the 16 cells.
  pub nct_decode-FitsArrays :
      (id : ℕ) (s : S) (r : SuperioResult) → FitsArrays r → FitsArrays (decode rd id s r).2
  unfolding decode
  nct_decode-FitsArrays id s r h = found-FitsArrays id (last_in nct_chips id none) s r h
