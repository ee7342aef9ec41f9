-- ===== src/Ite/Tests.antt =====
-- motherboard/ite_decode.c on the simulated register file of tests/test_ite.c, and the theorems at it.
use libhwsense.Prelude.{
  ℕ, ◌%◌, ◌<◌, ◌≡◌, refl, Option, none, some, true, false, List, [], ◌∷◌, ltb, ◌==◌, if◌then◌else◌,
  arith,
}
use libhwsense.Prelude.Int.{pos}
use libhwsense.Prelude.Word.{test_bit}
use libhwsense.Slots.{readings, scan, push, push?}
use libhwsense.Superio.{FitsArrays, zeroed, any_reading}
use libhwsense.Ite.{
  ite_reg_bank, bank_bits, find_in, find_chip, decode_temp, decode_fan, decode_voltage, temp_at,
  fan_at, voltage_at, read_inputs, finish, decode_in_bank_zero, decode_bank, decode_found, decode,
}
use libhwsense.Ite.Fill.{decode-FitsArrays}
use libhwsense.Ite.Values.{InRange, decode-InRange}
use libhwsense.Ite.Bank.{IsBanked, decode-restores}

-- A register file with a bank register; in another bank than 0 every register reads 0xff.
record Regs : Type 0 where
  bank : ℕ
  cell : ℕ → ℕ

abbrev rd : Regs → ℕ → Option ℕ × Regs
rd s reg = (
  if reg == ite_reg_bank
      then (if ltb s.bank 256 then some s.bank else none)
      else (if bank_bits s.bank == 0 then some (s.cell reg % 256) else some 255),
  s,
)

abbrev wr : Regs → ℕ → ℕ → Regs
wr s reg v = if reg == ite_reg_bank then record s { bank = v } else s

abbrev listed : List (ℕ × ℕ) → ℕ → ℕ
listed [] reg = 0
listed ((k, v) ∷ rest) reg = if k == reg then v else listed rest reg

-- three fans, the last with no signal; six temperatures, the last two not connected
abbrev board : ℕ → Regs
board bank = record {
  bank = bank;
  cell = listed (
      (0x29, 51)
      ∷ (0x2a, 43)
      ∷ (0x2b, 40)
      ∷ (0x2c, 40)
      ∷ (0x2d, 0x80)
      ∷ (0x0d, 0x75)
      ∷ (0x18, 0x01)
      ∷ (0x0e, 0xa0)
      ∷ (0x19, 0x02)
      ∷ (0x0f, 0xff)
      ∷ (0x1a, 0xff)
      ∷ (0x20, 127)
      ∷ (0x27, 153)
      ∷ []);
}

zeroed-FitsArrays : FitsArrays zeroed
zeroed-FitsArrays = omega arith

zeroed-InRange : InRange zeroed
zeroed-InRange = record { temps_in = tt; fans_in = tt; voltages_in = tt }

rd_bytes : (s : Regs) (reg b : ℕ) → (rd s reg).0 ≡ some b → b < 256
rd_bytes s reg b h = ground arith

board-IsBanked : IsBanked rd wr
board-IsBanked = record {
  rd_keeps = λ s reg. refl;
  bank_byte = λ s b h. rd_bytes s ite_reg_bank b h;
  rd_back = λ s v h. ground arith;
  wr_last = λ s v w. refl;
  wr_same = λ s b h. ground arith;
}

board_run :
    let (ok, s, r) = decode rd wr 0x8655 (board 0x60) zeroed in
    (ok ≡ true)
    × (s.bank ≡ 0x60)
    × (readings r.temps ≡ pos 51 ∷ pos 43 ∷ pos 40 ∷ pos 40 ∷ [])
    × (readings r.fans ≡ pos 1809 ∷ pos 1004 ∷ [])
    × (readings r.voltages
        ≡ pos 138430
          ∷ pos 0
          ∷ pos 0
          ∷ pos 0
          ∷ pos 0
          ∷ pos 0
          ∷ pos 0
          ∷ pos 333540
          ∷ pos 0
          ∷ pos 0
          ∷ [])
unfolding decode decode_found decode_bank decode_in_bank_zero finish read_inputs voltage_at fan_at
    temp_at decode_voltage decode_fan decode_temp find_chip find_in any_reading scan push? push
    test_bit
board_run = (refl, refl, refl, refl, refl)

decode_unknown : (decode rd wr 0x8733 (board 0) zeroed).0 ≡ false
unfolding decode decode_found find_chip find_in
decode_unknown = refl

decode-FitsArrays_example : FitsArrays (decode rd wr 0x8655 (board 0x60) zeroed).2
decode-FitsArrays_example = decode-FitsArrays rd wr 0x8655 (board 0x60) zeroed zeroed-FitsArrays

decode-InRange_run : InRange (decode rd wr 0x8655 (board 0x60) zeroed).2
decode-InRange_run =
    decode-InRange rd wr rd_bytes 0x8655 (board 0x60) zeroed zeroed-FitsArrays zeroed-InRange

decode-restores_example : (decode rd wr 0x8655 (board 0x60) zeroed).1 ≡ board 0x60
decode-restores_example =
    decode-restores rd wr board-IsBanked 0x8655 (board 0x60) zeroed zeroed-FitsArrays
