-- ===== src/Ite/Hw.antt =====
-- motherboard/ite_linux.c: finding the chip and reading its registers through I/O ports.
-- `outb` and `inb` of portio_linux.h are parameters, over a device whose state they return anew; `none`
-- is the -1 of a failed `inb`. The first argument of `ite_read_linux` is the result of hwsense_port_open.
pub mod Simulation
pub mod Ports
mod Tests
use libhwsense.Prelude.{
  ℕ, ◌+◌, ◌-◌, ◌*◌, ◌/◌, ◌%◌, ◌^◌, Bool, true, false, not, ◌||◌, Option, none, some, List, [], ◌∷◌,
  ◌==◌, if◌then◌else◌,
}
use libhwsense.Prelude.Word.{word}
use libhwsense.Superio.{SuperioResult, zeroed, no_ite_chip, no_port_access}
use libhwsense.Ite.{ite_chip_name, decode}

-- `active & 1`, which a failed read passes
unfoldable pub is_active : Option ℕ → Bool
is_active none = true
is_active (some a) = not (a % 2 == 0)

-- `(unsigned)(((hi << 8) | lo) & ~0x7)`, on bytes or -1
unfoldable pub base_of : Option ℕ → Option ℕ → ℕ
base_of hi none = 2 ^ 32 - 8
base_of none (some lo) = 2 ^ 32 - 256 + lo / 8 * 8
base_of (some hi) (some lo) = word hi lo / 8 * 8

-- the ID when it is positive and a chip has it; a failed read makes it negative
unfoldable pub known_id : Option ℕ → Option ℕ → Option ℕ
known_id none lo = none
known_id (some hi) none = none
known_id (some hi) (some lo) =
    if word hi lo == 0
    then none
    else elim (ite_chip_name (word hi lo)) [ none ↦ none | some name ↦ some (word hi lo) ]

module _ {D : Type 0} (outb : D → ℕ → ℕ → D) (inb : D → ℕ → Option ℕ × D) where
  unfoldable pub cfg_read : D → ℕ → ℕ → Option ℕ × D
  cfg_read d io reg = inb (outb d io (reg % 256)) (io + 1)

  unfoldable pub ec_read : ℕ → D → ℕ → Option ℕ × D
  ec_read base d reg = inb (outb d (base + 5) (reg % 256)) (base + 6)

  unfoldable pub ec_write : ℕ → D → ℕ → ℕ → D
  ec_write base d reg val = outb (outb d (base + 5) (reg % 256)) (base + 6) (val % 256)

  unfoldable pub enter_config : ℕ → D → D
  enter_config io d =
      outb (outb (outb (outb d io 0x87) io 0x01) io 0x55) io (if io == 0x4e then 0xaa else 0x55)

  unfoldable pub leave_config : ℕ → D → D
  leave_config io d = outb (outb d io 0x02) (io + 1) 0x02

  -- the steps behind the ID; the result is the ID and the base address
  unfoldable pub find_at : ℕ → ℕ → D → Option (ℕ × ℕ) × D
  find_at io id d =
      let (active, d₁) = cfg_read (outb (outb d io 0x07) (io + 1) 0x04) io 0x30 in
      let (hi, d₂) = cfg_read d₁ io 0x60 in
      let (lo, d₃) = cfg_read d₂ io 0x61 in
      let base = base_of hi lo in
      (
        if not (is_active active) || base == 0 || base == 0xfff8 then none else some (id, base),
        leave_config io d₃,
      )

  unfoldable pub find_in : List ℕ → D → Option (ℕ × ℕ) × D
  find_in [] d = (none, d)
  find_in (io ∷ ios) d =
      let (hi, d₁) = cfg_read (enter_config io d) io 0x20 in
      let (lo, d₂) = cfg_read d₁ io 0x21 in
      let rest = find_in ios (leave_config io d₂) in
      elim (known_id hi lo) [ none ↦ rest | some id ↦ find_at io id d₂ ]

  unfoldable pub ite_find : D → Option (ℕ × ℕ) × D
  ite_find = find_in (0x2e ∷ 0x4e ∷ [])

  unfoldable pub read_found : Option (ℕ × ℕ) × D → Bool × D × SuperioResult
  read_found (none, d) = (false, d, record zeroed { error = no_ite_chip })
  read_found (some (id, base), d) = decode (ec_read base) (ec_write base) id d zeroed

  unfoldable pub ite_read_linux : Bool → D → Bool × D × SuperioResult
  ite_read_linux false d = (false, d, record zeroed { error = no_port_access })
  ite_read_linux true d = read_found (ite_find d)
