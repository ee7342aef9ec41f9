-- ===== src/Nct.antt =====
-- motherboard/nct_linux.c: decoding the monitor registers of Nuvoton NCT6779 and NCT679x chips.
-- The callback `rd` and its context are a parameter: the context is a state that it returns anew, and
-- `none` is a negative result. Voltages are in units of 10 µV.
pub mod Hw
pub mod Fill
pub mod Sources
pub mod Values
mod Tests
use libhwsense.Prelude.{
  ℕ, zero, suc, String, ◌+◌, ◌-◌, ◌*◌, ◌/◌, ◌%◌, Bool, true, false, not, ◌&&◌, ◌||◌, Option, none,
  some, List, [], ◌∷◌, length, get_or, ltb, ◌==◌, if◌then◌else◌,
}
use libhwsense.Prelude.Int.{ℤ, pos, negsuc, ltb_ℤ}
use libhwsense.Prelude.Word.{word, field, signed_char, test_bit, set_bit}
use libhwsense.Slots.{Slots, scan}
use libhwsense.Superio.{
  SuperioResult, any_reading, no_nct_readings, named, max_temps, max_fans, max_voltages,
}

-- `second_layout` is the family 1.
pub record NctChip : Type 0 where
  pub id : ℕ
  pub name : String
  pub second_layout : Bool
  pub in_num : ℕ

abbrev nct_chip : ℕ → String → Bool → ℕ → NctChip
nct_chip id name second in_num = record {
  id = id;
  name = name;
  second_layout = second;
  in_num = in_num;
}

abbrev pub nct_chips : List NctChip
nct_chips =
    nct_chip 0xc560 "nct6779" false 15
    ∷ nct_chip 0xc800 "nct6791" false 15
    ∷ nct_chip 0xc910 "nct6792" false 15
    ∷ nct_chip 0xd120 "nct6793" false 15
    ∷ nct_chip 0xd350 "nct6795" false 15
    ∷ nct_chip 0xd420 "nct6796" false 15
    ∷ nct_chip 0xd450 "nct6797" false 15
    ∷ nct_chip 0xd428 "nct6798" true 15
    ∷ nct_chip 0xd800 "nct6799" true 18
    ∷ []

abbrev pub nct_vin_reg : List ℕ
nct_vin_reg =
    0x480 ∷ 0x481 ∷ 0x482 ∷ 0x483 ∷ 0x484 ∷ 0x485 ∷ 0x486 ∷ 0x487 ∷ 0x488 ∷ 0x489 ∷ 0x48a ∷ 0x48b
    ∷ 0x48c ∷ 0x48d ∷ 0x48e ∷ 0x48f ∷ 0x470 ∷ 0x471 ∷ []

abbrev pub nct_scale_in : List ℕ
nct_scale_in =
    800 ∷ 800 ∷ 1600 ∷ 1600 ∷ 800 ∷ 800 ∷ 800 ∷ 1600 ∷ 1600 ∷ 800 ∷ 800 ∷ 800 ∷ 800 ∷ 800 ∷ 800 ∷ []

abbrev pub nct_scale_in_6798 : List ℕ
nct_scale_in_6798 =
    800 ∷ 800 ∷ 1600 ∷ 1600 ∷ 800 ∷ 800 ∷ 800 ∷ 1600 ∷ 1600 ∷ 1600 ∷ 1600 ∷ 1600 ∷ 800 ∷ 800 ∷ 800
    ∷ 800 ∷ 1600 ∷ 800 ∷ []

abbrev pub nct_fan_reg : List ℕ
nct_fan_reg = 0x4c0 ∷ 0x4c2 ∷ 0x4c4 ∷ 0x4c6 ∷ 0x4c8 ∷ 0x4ca ∷ 0x4ce ∷ []

abbrev pub nct_temp_reg : Bool → List ℕ
nct_temp_reg false = 0x27 ∷ 0x150 ∷ []
nct_temp_reg true = 0x27 ∷ 0x150 ∷ 0x670 ∷ 0x672 ∷ 0x674 ∷ 0x676 ∷ 0x678 ∷ 0x67a ∷ []

abbrev pub nct_temp_src : Bool → List ℕ
nct_temp_src false = 0x621 ∷ 0x622 ∷ []
nct_temp_src true = 0x621 ∷ 0x622 ∷ 0xc26 ∷ 0xc27 ∷ 0xc28 ∷ 0xc29 ∷ 0xc2a ∷ 0xc2b ∷ []

abbrev pub nct_mon_reg : Bool → List ℕ
nct_mon_reg false = 0x73 ∷ 0x75 ∷ 0x77 ∷ 0x79 ∷ 0x7b ∷ 0x7d ∷ []
nct_mon_reg true = 0x73 ∷ 0x75 ∷ 0x77 ∷ 0x79 ∷ 0x7b ∷ 0x7d ∷ 0x4a0 ∷ []

abbrev pub nct_mon_sel : List ℕ
nct_mon_sel = 0x100 ∷ 0x200 ∷ 0x300 ∷ 0x800 ∷ 0x900 ∷ 0xa00 ∷ 0xb00 ∷ []

unfoldable pub nct_word_reg : ℕ → Bool
nct_word_reg reg =
    reg == 0x150
    || field reg 4 12 == 0x4c
    || reg == 0x73
    || reg == 0x75
    || reg == 0x77
    || reg == 0x79
    || reg == 0x7b
    || reg == 0x7d

-- `id & 0xfff8`, for the 16 bits of an ID
abbrev pub masked : ℕ → ℕ
masked id = id / 8 * 8

unfoldable pub first_in : List NctChip → ℕ → Option NctChip
first_in [] id = none
first_in (c ∷ cs) id = if c.id == masked id then some c else first_in cs id

unfoldable pub nct_chip_name : ℕ → Option String
nct_chip_name id = elim (first_in nct_chips id) [ none ↦ none | some c ↦ some c.name ]

-- the decoder's search, which goes on behind a match
unfoldable pub last_in : List NctChip → ℕ → Option NctChip → Option NctChip
last_in [] id found = found
last_in (c ∷ cs) id found = last_in cs id (if c.id == masked id then some c else found)

-- the temperature of a register's value, none if it is unconnected or invalid
unfoldable pub temp_value : ℕ → ℕ → Option ℤ
temp_value reg v =
    let t = if nct_word_reg reg then signed_char (v / 256) else signed_char v in
    if not (ltb_ℤ (negsuc 54) t)
      || not (ltb_ℤ t (pos 125))
      || not (ltb_ℤ t (pos 0)) && not (ltb_ℤ (pos 0) t)
    then none
    else some t

unfoldable pub fan_value : Option ℕ → Option ℤ
fan_value none = none
fan_value (some rpm) = if rpm == 0 || rpm == 0xffff then none else some (pos rpm)

unfoldable pub voltage_value : ℕ → Option ℕ → Option ℤ
voltage_value scale none = none
voltage_value scale (some raw) = some (pos (raw * scale))

-- `i < ntemp ? xs[i] : ys[i - ntemp]`
abbrev pub either_table : List ℕ → List ℕ → ℕ → ℕ
either_table xs ys i = if ltb i (length xs) then get_or xs i 0 else get_or ys (i - length xs) 0

abbrev pub temp_rounds : Bool → ℕ
temp_rounds second = length (nct_temp_reg second) + length (nct_mon_reg second)

abbrev pub scales : Bool → List ℕ
scales false = nct_scale_in
scales true = nct_scale_in_6798

-- the lines behind the loops
unfoldable pub finish : ℕ → NctChip → SuperioResult → SuperioResult
finish id chip r =
    let ok = any_reading r in
    record r {
      chip_name = named chip.name;
      chip_id = id;
      ok = ok;
      error = if ok then r.error else no_nct_readings chip.name;
    }

module _ {S : Type 0} (rd : S → ℕ → Option ℕ × S) where
  -- the steps behind the first byte
  unfoldable pub second_byte : ℕ → Option ℕ × S → Option ℕ × S
  second_byte reg (none, s) = (none, s)
  second_byte reg (some v, s) =
      let (lo, s') = rd s (reg + 1) in
      if nct_word_reg reg
      then (elim lo [ none ↦ none | some l ↦ some (word v l) ], s')
      else (some v, s)

  unfoldable pub nct_rd : S → ℕ → Option ℕ × S
  nct_rd s reg = second_byte reg (rd s reg)

  -- the lines behind the range check; the state is `src_seen` and the context
  unfoldable pub on_temp : ℕ → ℕ → Option ℤ → S → Option ℤ × (ℕ × S)
  on_temp src seen none s = (none, (seen, s))
  on_temp src seen (some t) s = (some t, (set_bit seen src, s))

  unfoldable pub on_value : ℕ → ℕ → ℕ → Option ℕ × S → Option ℤ × (ℕ × S)
  on_value reg src seen (none, s) = (none, (seen, s))
  on_value reg src seen (some v, s) = on_temp src seen (temp_value reg v) s

  unfoldable pub on_source : ℕ → ℕ → Option ℕ × S → Option ℤ × (ℕ × S)
  on_source reg seen (none, s) = (none, (seen, s))
  on_source reg seen (some src, s) =
      if src % 32 == 0 || test_bit seen (src % 32)
      then (none, (seen, s))
      else on_value reg (src % 32) seen (nct_rd s reg)

  unfoldable pub temp_at : Bool → ℕ → ℕ × S → Option ℤ × (ℕ × S)
  temp_at second i (seen, s) =
      on_source (either_table (nct_temp_reg second) (nct_mon_reg second) i) seen
        (nct_rd s (either_table (nct_temp_src second) nct_mon_sel i))

  unfoldable pub fan_at : ℕ → S → Option ℤ × S
  fan_at i s = let (rpm, s') = nct_rd s (get_or nct_fan_reg i 0) in (fan_value rpm, s')

  unfoldable pub voltage_at : List ℕ → ℕ → S → Option ℤ × S
  voltage_at scale i s =
      let (raw, s') = nct_rd s (get_or nct_vin_reg i 0) in
      (voltage_value (get_or scale i 0) raw, s')

  -- the three loops
  unfoldable pub read_inputs : NctChip → S → SuperioResult → S × SuperioResult
  read_inputs chip s r =
      let ((seen, s₁), temps) =
        scan max_temps (temp_at chip.second_layout) (temp_rounds chip.second_layout) 0 (0, s)
          r.temps in
      let (s₂, fans) = scan max_fans fan_at (length nct_fan_reg) 0 s₁ r.fans in
      let (s₃, voltages) =
        scan max_voltages (voltage_at (scales chip.second_layout)) chip.in_num 0 s₂ r.voltages in
      (s₃, record r { temps = temps; fans = fans; voltages = voltages })

  unfoldable pub decode_found : ℕ → Option NctChip → S → SuperioResult → Bool × S × SuperioResult
  decode_found id none s r = (false, s, r)
  decode_found id (some chip) s r =
      let (s', r') = read_inputs chip s r in let done = finish id chip r' in (done.ok, s', done)

  -- the result, the context and `*r`
  unfoldable pub decode : ℕ → S → SuperioResult → Bool × S × SuperioResult
  decode id s r = decode_found id (last_in nct_chips id none) s r
