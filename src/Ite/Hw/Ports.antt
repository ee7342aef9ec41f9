-- ===== src/Ite/Hw/Ports.antt =====
-- motherboard/ite_linux.c: the decoder on the index and data ports of a chip.
use libhwsense.Prelude.{ℕ, ◌+◌, ◌%◌, Option}
use libhwsense.Ite.Hw.Simulation.{Agree}

-- A chip's registers behind an index and a data port: `R d s` says that the device `d` has the
-- registers `s`, and `Selected reg d s` that its index is at `reg` besides.
pub record IsMonitor {D S : Type 0} (outb : D → ℕ → ℕ → D) (inb : D → ℕ → Option ℕ × D) (base : ℕ)
    (rd : S → ℕ → Option ℕ × S) (wr : S → ℕ → ℕ → S) (R : D → S → Type 0)
    (Selected : ℕ → D → S → Type 0) : Type 0 where
  pub select : (d : D) (s : S) (reg : ℕ) → R d s → Selected reg (outb d (base + 5) reg) s
  pub read_data :
      (d : D) (s : S) (reg : ℕ) → Selected reg d s → Agree R (inb d (base + 6)) (rd s reg)
  pub write_data :
      (d : D) (s : S) (reg v : ℕ) → Selected reg d s → R (outb d (base + 6) v) (wr s reg v)

module _ {S : Type 0} (rd : S → ℕ → Option ℕ × S) (wr : S → ℕ → ℕ → S) where
  -- the registers, of which a byte names one and takes one
  abbrev pub byte_rd : S → ℕ → Option ℕ × S
  byte_rd s reg = rd s (reg % 256)

  abbrev pub byte_wr : S → ℕ → ℕ → S
  byte_wr s reg v = wr s (reg % 256) (v % 256)
