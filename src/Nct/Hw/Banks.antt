-- ===== src/Nct/Hw/Banks.antt =====
-- motherboard/nct_linux.c: the bank of a read, and the bank that the reader leaves selected.
use libhwsense.Prelude.{
  ℕ, ◌+◌, ◌%◌, ◌<◌, ◌≡◌, refl, ap, sym, ◌∙◌, true, Bool-cases, inl, inr, Option, none, some, length,
  ◌||◌, ◌==◌, arith,
}
use libhwsense.Prelude.Int.{ℤ}
use libhwsense.Prelude.Word.{field, test_bit}
use libhwsense.Slots.Laws.{scan_keeps}
use libhwsense.Superio.{SuperioResult, max_temps, max_fans, max_voltages}
use libhwsense.Nct.{
  NctChip, nct_chips, nct_fan_reg, nct_word_reg, last_in, temp_value, temp_rounds, scales,
  second_byte, nct_rd, on_temp, on_value, on_source, temp_at, fan_at, voltage_at, read_inputs,
  decode_found, decode,
}
use libhwsense.Nct.Hw.{NctHw, bank_is, select_bank, nct_hw_read, restore_bank, read_monitor}

-- What the callback keeps, the decoder keeps.
module _ {S : Type 0} (rd : S → ℕ → Option ℕ × S) (P : S → Type 0)
    (rd_keeps : (s : S) (reg : ℕ) → P s → P (rd s reg).1) where
  second_keeps : (reg : ℕ) (o : Option ℕ) (s : S) → P s → P (second_byte rd reg (o, s)).1
  unfolding second_byte
  second_keeps reg none s h = h
  second_keeps reg (some v) s h = elim (Bool-cases (nct_word_reg reg)) [
    | inl e ↦ rw e (rd_keeps s (reg + 1) h)
    | inr e ↦ rw e h
  ]

  nct_rd_keeps : (s : S) (reg : ℕ) → P s → P (nct_rd rd s reg).1
  unfolding nct_rd
  nct_rd_keeps s reg h = second_keeps reg _ _ (rd_keeps s reg h)

  temp_keeps : (src seen : ℕ) (o : Option ℤ) (s : S) → P s → P (on_temp rd src seen o s).1.1
  unfolding on_temp
  temp_keeps src seen none s h = h
  temp_keeps src seen (some t) s h = h

  value_keeps :
      (reg src seen : ℕ) (o : Option ℕ) (s : S) → P s → P (on_value rd reg src seen (o, s)).1.1
  unfolding on_value
  value_keeps reg src seen none s h = h
  value_keeps reg src seen (some v) s h = temp_keeps src seen (temp_value reg v) s h

  source_keeps : (reg seen : ℕ) (o : Option ℕ) (s : S) → P s → P (on_source rd reg seen (o, s)).1.1
  unfolding on_source
  source_keeps reg seen none s h = h
  source_keeps reg seen (some v) s h = elim (Bool-cases (v % 32 == 0 || test_bit seen (v % 32))) [
    | inl e ↦ rw e h
    | inr e ↦ rw e (value_keeps reg (v % 32) seen _ _ (nct_rd_keeps s reg h))
  ]

  inputs_keeps : (chip : NctChip) (s : S) (r : SuperioResult) → P s → P (read_inputs rd chip s r).0
  unfolding read_inputs temp_at fan_at voltage_at
  inputs_keeps chip s r h =
      scan_keeps max_voltages (voltage_at rd (scales chip.second_layout)) P
        (λ i s p. nct_rd_keeps s _ p) chip.in_num 0 _ r.voltages
        (scan_keeps max_fans (fan_at rd) P (λ i s p. nct_rd_keeps s _ p) (length nct_fan_reg) 0 _
          r.fans
          (scan_keeps max_temps (temp_at rd chip.second_layout) (λ t. P t.1)
            (λ i s p. source_keeps _ _ _ _ (nct_rd_keeps s.1 _ p)) (temp_rounds chip.second_layout)
            0 (0, s) r.temps h))

  found_keeps :
      (id : ℕ) (c : Option NctChip) (s : S) (r : SuperioResult)
      → P s
      → P (decode_found rd id c s r).1
  unfolding decode_found
  found_keeps id none s r h = h
  found_keeps id (some chip) s r h = inputs_keeps chip s r h

  decode_keeps : (id : ℕ) (s : S) (r : SuperioResult) → P s → P (decode rd id s r).1
  unfolding decode
  decode_keeps id s r h = found_keeps id (last_in nct_chips id none) s r h

-- A monitor with an index port at `base + 5` and a data port at `base + 6`: register 0x4E is the bank in
-- every bank, and reads change neither.
pub record IsMonitor {D : Type 0} (outb : D → ℕ → ℕ → D) (inb : D → ℕ → Option ℕ × D) (base : ℕ)
    (index bank : D → ℕ) : Type 0 where
  pub to_index :
      (d : D) (v : ℕ)
      → v < 256
      → (index (outb d (base + 5) v) ≡ v) × (bank (outb d (base + 5) v) ≡ bank d)
  pub to_bank : (d : D) (v : ℕ) → v < 256 → index d ≡ 0x4e → bank (outb d (base + 6) v) ≡ v
  pub reads :
      (d : D) → (index (inb d (base + 6)).1 ≡ index d) × (bank (inb d (base + 6)).1 ≡ bank d)
  pub bank_read : (d : D) → index d ≡ 0x4e → (inb d (base + 6)).0 ≡ some (bank d)
  pub bank_byte : (d : D) → bank d < 256

module _ {D : Type 0} (outb : D → ℕ → ℕ → D) (inb : D → ℕ → Option ℕ × D) (base : ℕ)
    (index bank : D → ℕ) (monitor : IsMonitor outb inb base index bank) where
  -- the cached bank is the chip's
  pub record Cached (hw : NctHw D) : Type 0 where
    pub at_base : hw.base ≡ base
    pub cached : hw.bank ≡ some (bank hw.dev)

  hit : (hw : NctHw D) (b : ℕ) → Cached hw → bank_is hw.bank b ≡ true → bank hw.dev ≡ b
  unfolding bank_is
  hit hw b h e = same hw.bank e h.cached
    where
      same : (o : Option ℕ) → bank_is o b ≡ true → o ≡ some (bank hw.dev) → bank hw.dev ≡ b
      same none e k = ground arith
      same (some a) e k = ground arith

  -- writing a bank number through the two ports
  switched : (d : D) (b : ℕ) → b < 256 → bank (outb (outb d (base + 5) 0x4e) (base + 6) b) ≡ b
  switched d b lt =
      monitor.to_bank (outb d (base + 5) 0x4e) b lt (monitor.to_index d 0x4e (omega arith)).0

  select_lem :
      (hw : NctHw D) (b : ℕ)
      → b < 256
      → Cached hw
      → Cached (select_bank outb inb hw b) × (bank (select_bank outb inb hw b).dev ≡ b)
  unfolding select_bank
  select_lem hw b lt h = elim (Bool-cases (bank_is hw.bank b)) [
    | inl e ↦ rw e (h, hit hw b h e)
    | inr e ↦
        rw (e, h.at_base)
          (
            record { at_base = refl; cached = ap (λ x. some x) (sym (switched hw.dev b lt)) },
            switched hw.dev b lt,
          )
  ]

  -- If the cached bank is the chip's, then every read of a register addresses it: the chip's bank is the
  -- register's high byte and its index the low byte, and the cache still tells the truth.
  pub nct_hw_read_lem :
      (hw : NctHw D) (reg : ℕ)
      → Cached hw
      → let hw' = (nct_hw_read outb inb hw reg).1 in
        Cached hw' × (bank hw'.dev ≡ field reg 8 8) × (index hw'.dev ≡ reg % 256)
  unfolding nct_hw_read
  nct_hw_read_lem hw₀ reg h =
      let hw = select_bank outb inb hw₀ (field reg 8 8) in
      let (c, b) = select_lem hw₀ (field reg 8 8) (omega arith) h in
      let (i₁, b₁) = monitor.to_index hw.dev (reg % 256) (omega arith) in
      let (i₂, b₂) = monitor.reads (outb hw.dev (base + 5) (reg % 256)) in
      rw c.at_base (
        record { at_base = refl; cached = c.cached ∙ ap (λ x. some x) (sym (b₂ ∙ b₁)) },
        b₂ ∙ b₁ ∙ b,
        i₂ ∙ i₁,
      )

  restore_lem :
      (hw : NctHw D) (saved : ℕ)
      → Cached hw
      → saved < 256
      → bank (restore_bank outb inb (some saved) hw) ≡ saved
  unfolding restore_bank
  restore_lem hw saved h lt = elim (Bool-cases (bank_is hw.bank saved)) [
    | inl e ↦ rw e (hit hw saved h e)
    | inr e ↦ rw (e, h.at_base) (switched hw.dev (saved % 256) (omega arith) ∙ omega arith)
  ]

  -- Whatever ID is decoded and whatever the registers hold, the monitor's bank is at the end the one that
  -- was selected before.
  pub read_monitor-restores :
      (id : ℕ) (d : D) (r : SuperioResult) → bank (read_monitor outb inb id base d r).1 ≡ bank d
  unfolding read_monitor
  read_monitor-restores id d r =
      let d₀ = outb d (base + 5) 0x4e in
      let (i₀, b₀) = monitor.to_index d 0x4e (omega arith) in
      let (i₁, b₁) = monitor.reads d₀ in
      let read = monitor.bank_read d₀ i₀ in
      rw read (
        restore_lem _ (bank d₀)
          (decode_keeps (nct_hw_read outb inb) Cached (λ hw reg c. (nct_hw_read_lem hw reg c).0) id
            _ r (record { at_base = refl; cached = ap (λ x. some x) (sym b₁) }))
          (monitor.bank_byte d₀)
        ∙ b₀)
