-- ===== src/Sio/Nuvoton.antt =====
-- motherboard/superio.c: chip detection, and the registers of Nuvoton NCT679x chips.
use libhwsense.Prelude.{
  ℕ, String, ◌+◌, ◌*◌, ◌/◌, ◌%◌, Bool, Option, none, some, List, [], ◌∷◌, get_or, leb, ltb, ◌==◌,
  if◌then◌else◌,
}
use libhwsense.Prelude.Word.{word, field}
use libhwsense.Sio.Port.{
  M, ◌>>=◌, ◌>>◌, pure, or_zero, sio_enter, sio_exit, sio_read_reg, sio_write_reg,
}

pub data SioChipType : Type 0 where
  unknown nuvoton ite winbond fintek : SioChipType

pub record SioChipInfo : Type 0 where
  pub id : ℕ
  pub kind : SioChipType
  pub name : String

abbrev chip : ℕ → SioChipType → String → SioChipInfo
chip id kind name = record { id = id; kind = kind; name = name }

abbrev pub known_chips : List SioChipInfo
known_chips =
    chip 0xc803 nuvoton "NCT6791D"
    ∷ chip 0xc833 nuvoton "NCT6791D"
    ∷ chip 0xc911 nuvoton "NCT6792D"
    ∷ chip 0xc913 nuvoton "NCT6792DA"
    ∷ chip 0xd121 nuvoton "NCT6793D"
    ∷ chip 0xd122 nuvoton "NCT6793D"
    ∷ chip 0xd352 nuvoton "NCT6795D"
    ∷ chip 0xd423 nuvoton "NCT6796D"
    ∷ chip 0xd42a nuvoton "NCT6796DR"
    ∷ chip 0xd451 nuvoton "NCT6797D"
    ∷ chip 0xd42b nuvoton "NCT6798D"
    ∷ chip 0xd802 nuvoton "NCT6799D"
    ∷ chip 0xd806 nuvoton "NCT6701D"
    ∷ chip 0xa020 winbond "W83627DHG"
    ∷ chip 0xb070 winbond "W83627DHG-P"
    ∷ chip 0x0541 fintek "F71882FG"
    ∷ chip 0x0723 fintek "F71889F"
    ∷ []

-- the result for a chip that is not in the table keeps its ID
unfoldable pub look_up : List SioChipInfo → ℕ → SioChipInfo
look_up [] id = chip id unknown "Unknown"
look_up (c ∷ cs) id = if c.id == id then c else look_up cs id

abbrev pub nct679x_fan_regs : List ℕ
nct679x_fan_regs = 0x4b0 ∷ 0x4b2 ∷ 0x4b4 ∷ 0x4b6 ∷ 0x4b8 ∷ 0x4ba ∷ 0x4cc ∷ []

abbrev pub nct679x_voltage_regs : List ℕ
nct679x_voltage_regs =
    0x480 ∷ 0x481 ∷ 0x482 ∷ 0x483 ∷ 0x484 ∷ 0x485 ∷ 0x486 ∷ 0x487 ∷ 0x488 ∷ 0x489 ∷ 0x48a ∷ 0x48b
    ∷ 0x48c ∷ 0x48d ∷ 0x48e ∷ 0x48f ∷ []

abbrev pub nct679x_temp_regs : List ℕ
nct679x_temp_regs = 0x073 ∷ 0x075 ∷ 0x077 ∷ 0x079 ∷ 0x07b ∷ 0x07d ∷ 0x4a0 ∷ 0x4a2 ∷ []

abbrev pub nct679x_temp_half : List ℕ
nct679x_temp_half = 0x074 ∷ 0x076 ∷ 0x078 ∷ 0x07a ∷ 0x07c ∷ 0x07e ∷ 0x49e ∷ 0x4a1 ∷ []

abbrev pub nct679x_temp_bits : List ℕ
nct679x_temp_bits = 7 ∷ 7 ∷ 7 ∷ 7 ∷ 7 ∷ 7 ∷ 6 ∷ 7 ∷ []

-- The two bytes of a temperature register; `none` is -1. The sum is never below 0.
unfoldable pub temp_of : ℕ → ℕ → ℕ → Option ℕ
temp_of val half bit =
    let temp = (val * 2 + field half bit 1) / 2 in if ltb 150 temp then none else some temp

-- The two bytes of a fan counter.
unfoldable pub fan_of : ℕ → ℕ → ℕ
fan_of low high = let count = word (high % 32) low in if leb count 0x15 then 0 else 1350000 / count

module _ {S : Type 0} (read_port : S → ℕ → Option ℕ × S) (write_port : S → ℕ → ℕ → Bool × S) where
  unfoldable pub nct679x_read_reg : ℕ → ℕ → ℕ → M S ℕ
  nct679x_read_reg addr_port data_port reg = do
    sio_write_reg read_port write_port addr_port data_port 0x4e (field reg 8 8)
    v ← sio_read_reg read_port write_port addr_port data_port (reg % 256)
    pure (or_zero v)

  unfoldable pub sio_detect_chip : ℕ → ℕ → M S SioChipInfo
  sio_detect_chip addr_port data_port = do
    entered ← sio_enter read_port write_port addr_port
    if entered
        then (do
          hi ← sio_read_reg read_port write_port addr_port data_port 0x20
          lo ← sio_read_reg read_port write_port addr_port data_port 0x21
          sio_exit read_port write_port addr_port
          pure (look_up known_chips (word (or_zero hi) (or_zero lo))))
        else pure (chip 0 unknown "Unknown")

  -- `none` is -1
  unfoldable pub nct679x_read_temp : ℕ → ℕ → ℕ → M S (Option ℕ)
  nct679x_read_temp addr_port data_port channel = if leb 8 channel then pure none else (do
    val ← nct679x_read_reg addr_port data_port (get_or nct679x_temp_regs channel 0)
    half ← nct679x_read_reg addr_port data_port (get_or nct679x_temp_half channel 0)
    pure (temp_of val half (get_or nct679x_temp_bits channel 0)))

  unfoldable pub nct679x_read_fan : ℕ → ℕ → ℕ → M S (Option ℕ)
  nct679x_read_fan addr_port data_port fan_num = if leb 7 fan_num then pure none else (do
    let reg = get_or nct679x_fan_regs fan_num 0
    low ← nct679x_read_reg addr_port data_port reg
    high ← nct679x_read_reg addr_port data_port (reg + 1)
    pure (some (fan_of low high)))

  -- in mV
  unfoldable pub nct679x_read_voltage : ℕ → ℕ → ℕ → M S (Option ℕ)
  nct679x_read_voltage addr_port data_port channel = if leb 16 channel then pure none else (do
    val ← nct679x_read_reg addr_port data_port (get_or nct679x_voltage_regs channel 0)
    pure (some (val * 8)))
