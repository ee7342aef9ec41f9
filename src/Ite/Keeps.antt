-- ===== src/Ite/Keeps.antt =====
-- motherboard/ite_decode.c: properties of the context that the callbacks keep.
use libhwsense.Prelude.{ℕ, Option, none, some, Bool, true, false, length, ◌==◌, if◌then◌else◌}
use libhwsense.Slots.Laws.{scan_keeps}
use libhwsense.Superio.{SuperioResult, max_temps, max_fans, max_voltages}
use libhwsense.Ite.{
  IteChip, find_chip, ite_reg_bank, ite_vin, bank_bits, bank_zero, temp_at, fan_at, voltage_at,
  read_inputs, decode_in_bank_zero, decode_bank, decode_found, decode,
}

Keeps-if {ℓ} :
    {A : Type 0} (P : A → Type ℓ) (b : Bool) (x y : A) → P x → P y → P (if b then x else y)
Keeps-if P true x y hx hy = hx
Keeps-if P false x y hx hy = hy

module _ {S : Type 0} (rd : S → ℕ → Option ℕ × S) (wr : S → ℕ → ℕ → S) (P : S → Type 0)
    (rd_keeps : (s : S) (reg : ℕ) → P s → P (rd s reg).1)
    (wr_keeps : (s : S) (reg v : ℕ) → P s → P (wr s reg v)) where
  read_inputs_keeps :
      (chip : IteChip) (s : S) (r : SuperioResult) → P s → P (read_inputs rd wr chip s r).0
  unfolding read_inputs temp_at fan_at voltage_at
  read_inputs_keeps chip s r h =
      scan_keeps max_voltages (voltage_at rd wr chip.adc_lsb_x10) P (λ i s p. rd_keeps s _ p)
        (length ite_vin) 0 _ r.voltages
        (scan_keeps max_fans (fan_at rd wr) P (λ i s p. rd_keeps _ _ (rd_keeps s _ p)) chip.fans 0 _
          r.fans
          (scan_keeps max_temps (temp_at rd wr) P (λ i s p. rd_keeps s _ p) chip.temps 0 s r.temps
            h))

  bank_keeps :
      (id : ℕ) (chip : IteChip) (b : Option ℕ × S) (r : SuperioResult)
      → P b.1
      → P (decode_bank rd wr id chip b r).1
  unfolding decode_bank decode_in_bank_zero
  bank_keeps id chip (none, s) r h = h
  bank_keeps id chip (some b, s) r h =
      Keeps-if P (bank_bits b == 0) _ _ (inner h) (wr_keeps _ _ _ (inner h))
    where
      inner :
          P s
          → P
              (read_inputs rd wr chip
                (if bank_bits b == 0 then s else wr s ite_reg_bank (bank_zero b))
                r).0
      inner p = read_inputs_keeps chip _ r (Keeps-if P (bank_bits b == 0) _ _ p (wr_keeps s _ _ p))

  found_keeps :
      (id : ℕ) (c : Option IteChip) (s : S) (r : SuperioResult)
      → P s
      → P (decode_found rd wr id c s r).1
  unfolding decode_found
  found_keeps id none s r h = h
  found_keeps id (some chip) s r h = bank_keeps id chip _ r (rd_keeps s ite_reg_bank h)

  pub decode_keeps : (id : ℕ) (s : S) (r : SuperioResult) → P s → P (decode rd wr id s r).1
  unfolding decode
  decode_keeps id s r h = found_keeps id (find_chip id) s r h
