-- ===== src/Ite/Hw/Tests.antt =====
-- motherboard/ite_linux.c on a chip at base 0x290, and the theorem at it.
use libhwsense.Prelude.{ℕ, ◌+◌, ◌≡◌, refl, Option, none, some, ◌==◌, if◌then◌else◌, ltb}
use libhwsense.Ite.{ite_reg_bank}
use libhwsense.Ite
use libhwsense.Ite.Hw.{cfg_read, known_id, enter_config, leave_config, find_in, ite_find}

-- the bank register, which holds a byte; every other register reads 40
abbrev rd : ℕ → ℕ → Option ℕ × ℕ
rd s reg = (if reg == ite_reg_bank then (if ltb s 256 then some s else none) else some 40, s)

abbrev wr : ℕ → ℕ → ℕ → ℕ
wr s reg v = if reg == ite_reg_bank then v else s

-- the index, and the bank
abbrev Chip : Type 0
Chip = ℕ × ℕ

abbrev outb : Chip → ℕ → ℕ → Chip
outb (i, s) port v =
    if port == 0x295 then (v, s) else if port == 0x296 then (i, wr s i v) else (i, s)

abbrev inb : Chip → ℕ → Option ℕ × Chip
inb (i, s) port = ((rd s i).0, (i, s))

abbrev R : Chip → ℕ → Type 0
R (i, s) t = s ≡ t

abbrev Selected : ℕ → Chip → ℕ → Type 0
Selected reg (i, s) t = (i ≡ reg) × (s ≡ t)

-- a bus that reads 0xff everywhere
abbrev no_outb : ℕ → ℕ → ℕ → ℕ
no_outb n port v = n + 1

abbrev no_inb : ℕ → ℕ → Option ℕ × ℕ
no_inb n port = (some 255, n)

no_chip_run : (ite_find no_outb no_inb 0).0 ≡ none
unfolding Ite.ite_chip_name Ite.find_chip Ite.find_in ite_find find_in cfg_read known_id
    enter_config leave_config
no_chip_run = refl
