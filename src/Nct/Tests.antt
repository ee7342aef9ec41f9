-- ===== src/Nct/Tests.antt =====
-- motherboard/nct_linux.c on a simulated register file and a simulated monitor, and the theorems at them.
use libhwsense.Prelude.{
  ℕ, ◌+◌, ◌*◌, ◌%◌, ◌≡◌, refl, Option, none, some, true, false, List, [], ◌∷◌, ◌==◌, if◌then◌else◌,
  arith,
}
use libhwsense.Prelude.Int.{pos, negsuc}
use libhwsense.Prelude.Word.{field, test_bit, set_bit}
use libhwsense.Slots.{readings, scan, push, push?}
use libhwsense.Superio.{FitsArrays, zeroed, any_reading, max_temps}
use libhwsense.Nct.{
  nct_chips, first_in, last_in, nct_word_reg, temp_value, fan_value, voltage_value, second_byte,
  nct_rd, on_temp, on_value, on_source, temp_at, fan_at, voltage_at, temp_rounds, read_inputs,
  finish, decode_found, decode,
}
use libhwsense.Nct.Fill.{searches_agree, nct_decode-FitsArrays}
use libhwsense.Nct.Values.{InRange, nct_decode-InRange}
use libhwsense.Nct.Sources.{bits_below, sources_lem}
use libhwsense.Nct.Hw.{NctHw, read_monitor, nct_hw_read}
use libhwsense.Nct.Hw.Banks.{IsMonitor, Cached, nct_hw_read_lem, read_monitor-restores}

abbrev listed : List (ℕ × ℕ) → ℕ → ℕ
listed [] reg = 0
listed ((k, v) ∷ rest) reg = if k == reg then v else listed rest reg

-- Two registers select source 1, one source 2; one fan turns at 0x0546 = 1350.
abbrev cell : ℕ → ℕ
cell = listed (
    (0x621, 1)
    ∷ (0x27, 35)
    ∷ (0x622, 2)
    ∷ (0x150, 0xf6)
    ∷ (0x100, 1)
    ∷ (0x73, 60)
    ∷ (0x4c0, 0x05)
    ∷ (0x4c1, 0x46)
    ∷ (0x480, 100)
    ∷ [])

abbrev rd : Unit {0} → ℕ → Option ℕ × Unit {0}
rd s reg = (some (cell reg), s)

decode_run :
    let (ok, s, r) = decode rd 0xd42b tt zeroed in
    (ok ≡ true) × (readings r.temps ≡ pos 35 ∷ negsuc 9 ∷ []) × (readings r.fans ≡ pos 1350 ∷ [])
unfolding decode decode_found finish read_inputs voltage_at fan_at temp_at on_source on_value
    on_temp nct_rd second_byte voltage_value fan_value temp_value nct_word_reg last_in any_reading
    scan push push? test_bit set_bit
decode_run = (refl, refl, refl)

unknown_run : (decode rd 0x8733 tt zeroed).0 ≡ false
unfolding decode decode_found last_in
unknown_run = refl

zeroed-FitsArrays : FitsArrays zeroed
zeroed-FitsArrays = omega arith

searches_agree_run : first_in nct_chips 0xd42b ≡ last_in nct_chips 0xd42b none
searches_agree_run = searches_agree 0xd42b

nct_decode-FitsArrays_run : FitsArrays (decode rd 0xd800 tt zeroed).2
nct_decode-FitsArrays_run = nct_decode-FitsArrays rd 0xd800 tt zeroed zeroed-FitsArrays

nct_decode-InRange_run : InRange (decode rd 0xd42b tt zeroed).2
nct_decode-InRange_run = nct_decode-InRange rd 0xd42b tt zeroed zeroed-FitsArrays (tt, tt)

sources_lem_run :
    let ((seen', s'), a') =
      scan max_temps (temp_at rd true) (temp_rounds true) 0 (0, tt) zeroed.temps in
    a'.count ≡ zeroed.temps.count + bits_below 32 seen'
sources_lem_run = sources_lem rd true tt zeroed.temps

-- A monitor at 0x290, with its index and its bank.
record Monitor : Type 0 where
  index : ℕ
  bank : ℕ

abbrev outb : Monitor → ℕ → ℕ → Monitor
outb d port v =
    if port == 0x295
    then record d { index = v }
    else if port == 0x296
    then (if d.index == 0x4e then record d { bank = v } else d)
    else d

abbrev inb : Monitor → ℕ → Option ℕ × Monitor
inb d port = (
  if d.index == 0x4e then some (d.bank % 256) else some (cell ((d.bank % 256) * 256 + d.index)),
  d,
)

abbrev bank : Monitor → ℕ
bank d = d.bank % 256

monitor : IsMonitor outb inb 0x290 (λ d. d.index) bank
monitor = record {
  to_index = λ d v lt. (refl, refl);
  to_bank = λ d v lt i. ground arith;
  reads = λ d. (refl, refl);
  bank_read = λ d i. ground arith;
  bank_byte = λ d. omega arith;
}

abbrev at_bank_four : Monitor
at_bank_four = record { index = 0; bank = 4 }

read_monitor-restores_example : bank (read_monitor outb inb 0xd42b 0x290 at_bank_four zeroed).1 ≡ 4
read_monitor-restores_example =
    read_monitor-restores outb inb 0x290 (λ d. d.index) bank monitor 0xd42b at_bank_four zeroed

abbrev cached_hw : NctHw Monitor
cached_hw = record { base = 0x290; bank = some 4; dev = at_bank_four }

nct_hw_read_lem_run :
    let hw' = (nct_hw_read outb inb cached_hw 0x621).1 in
    Cached outb inb 0x290 (λ d. d.index) bank monitor hw'
    × (bank hw'.dev ≡ field 0x621 8 8)
    × (hw'.dev.index ≡ 0x621 % 256)
nct_hw_read_lem_run =
    nct_hw_read_lem outb inb 0x290 (λ d. d.index) bank monitor cached_hw 0x621
      (record { at_base = refl; cached = refl })
