-- ===== src/Nct/Hw.antt =====
-- motherboard/nct_linux.c: finding the chip and reading its banked registers through I/O ports.
-- `outb` and `inb` of portio_linux.h are parameters, over a device whose state they return anew; `none`
-- is the -1 of a failed `inb`. The first argument of `nct_read_linux` is the result of hwsense_port_open.
pub mod Banks
use libhwsense.Prelude.{
  ℕ, zero, suc, ◌+◌, ◌-◌, ◌*◌, ◌/◌, ◌%◌, ◌^◌, Bool, true, false, not, ◌||◌, ◌&&◌, Option, none,
  some, List, [], ◌∷◌, leb, ◌==◌, if◌then◌else◌,
}
use libhwsense.Prelude.Word.{word, field}
use libhwsense.Superio.{SuperioResult, zeroed, no_nct_chip, no_port_access}
use libhwsense.Nct.{masked, nct_chip_name, decode}

-- `nct_hw_t` with the device; `none` is the bank -1
pub record NctHw (D : Type 0) : Type 0 where
  pub base : ℕ
  pub bank : Option ℕ
  pub dev : D

unfoldable pub bank_is : Option ℕ → ℕ → Bool
bank_is none b = false
bank_is (some a) b = a == b

-- the lock register without bit 4
abbrev pub unlocked : ℕ → ℕ
unlocked lock = lock / 32 * 32 + lock % 16

-- `active & 1`, which a failed read passes
unfoldable pub is_active : Option ℕ → Bool
is_active none = true
is_active (some a) = not (a % 2 == 0)

-- `(unsigned)(((hi << 8) | lo) & ~0x7)`, on bytes or -1
unfoldable pub base_of : Option ℕ → Option ℕ → ℕ
base_of hi none = 2 ^ 32 - 8
base_of none (some lo) = 2 ^ 32 - 256 + lo / 8 * 8
base_of (some hi) (some lo) = word hi lo / 8 * 8

-- the ID, unless a read failed or no chip has it
unfoldable pub known_id : Option ℕ → Option ℕ → Option ℕ
known_id none lo = none
known_id (some hi) none = none
known_id (some hi) (some lo) = elim (nct_chip_name (word hi lo)) [
  | none ↦ none
  | some name ↦ some (word hi lo)
]

module _ {D : Type 0} (outb : D → ℕ → ℕ → D) (inb : D → ℕ → Option ℕ × D) where
  -- the lines under the test of the bank
  unfoldable pub select_bank : NctHw D → ℕ → NctHw D
  select_bank hw bank = if bank_is hw.bank bank then hw else record {
    base = hw.base;
    bank = some bank;
    dev = outb (outb hw.dev (hw.base + 5) 0x4e) (hw.base + 6) bank;
  }

  unfoldable pub nct_hw_read : NctHw D → ℕ → Option ℕ × NctHw D
  nct_hw_read hw₀ reg =
      let hw = select_bank hw₀ (field reg 8 8) in
      let (v, d) = inb (outb hw.dev (hw.base + 5) (reg % 256)) (hw.base + 6) in
      (v, record { base = hw.base; bank = hw.bank; dev = d })

  unfoldable pub cfg_read : D → ℕ → ℕ → Option ℕ × D
  cfg_read d io reg = inb (outb d io (reg % 256)) (io + 1)

  unfoldable pub cfg_write : D → ℕ → ℕ → ℕ → D
  cfg_write d io reg val = outb (outb d io (reg % 256)) (io + 1) (val % 256)

  unfoldable pub clear_lock : ℕ → ℕ → D → D
  clear_lock io id d = if leb 0xc800 (masked id) then on_lock (cfg_read d io 0x28) else d
    where
      on_lock : Option ℕ × D → D
      on_lock (none, d') = d'
      on_lock (some lock, d') =
          if lock / 16 % 2 == 0 then d' else cfg_write d' io 0x28 (unlocked lock)

  -- the steps behind the ID; the result is the ID and the base address
  unfoldable pub find_at : ℕ → ℕ → D → Option (ℕ × ℕ) × D
  find_at io id d =
      let d₁ = cfg_write d io 0x07 0x0b in
      let (active, d₂) = cfg_read d₁ io 0x30 in
      let (hi, d₃) = cfg_read d₂ io 0x60 in
      let (lo, d₄) = cfg_read d₃ io 0x61 in
      let d₅ = outb (clear_lock io id d₄) io 0xaa in
      let base = base_of hi lo in
      (if not (is_active active) || base == 0 || base == 0xfff8 then none else some (id, base), d₅)

  unfoldable pub find_in : List ℕ → D → Option (ℕ × ℕ) × D
  find_in [] d = (none, d)
  find_in (io ∷ ios) d =
      let (hi, d₁) = cfg_read (outb (outb d io 0x87) io 0x87) io 0x20 in
      let (lo, d₂) = cfg_read d₁ io 0x21 in
      let rest = find_in ios (outb d₂ io 0xaa) in
      elim (known_id hi lo) [ none ↦ rest | some id ↦ find_at io id d₂ ]

  unfoldable pub nct_find : D → Option (ℕ × ℕ) × D
  nct_find = find_in (0x2e ∷ 0x4e ∷ [])

  -- the lines behind the decoder
  unfoldable pub restore_bank : Option ℕ → NctHw D → D
  restore_bank none hw = hw.dev
  restore_bank (some saved) hw =
      if bank_is hw.bank saved
      then hw.dev
      else outb (outb hw.dev (hw.base + 5) 0x4e) (hw.base + 6) (saved % 256)

  -- the steps behind the search
  unfoldable pub read_monitor : ℕ → ℕ → D → SuperioResult → Bool × D × SuperioResult
  read_monitor id base d r =
      let (saved, d₁) = inb (outb d (base + 5) 0x4e) (base + 6) in
      let (ok, hw, r') = decode nct_hw_read id (record { base = base; bank = saved; dev = d₁ }) r in
      (ok, restore_bank saved hw, r')

  unfoldable pub read_found : Option (ℕ × ℕ) × D → Bool × D × SuperioResult
  read_found (none, d) = (false, d, record zeroed { error = no_nct_chip })
  read_found (some (id, base), d) = read_monitor id base d zeroed

  unfoldable pub nct_read_linux : Bool → D → Bool × D × SuperioResult
  nct_read_linux false d = (false, d, record zeroed { error = no_port_access })
  nct_read_linux true d = read_found (nct_find d)
