-- ===== src/Smu/PmTable/Power.antt =====
-- cpu/amd_smu.c: what the power of the PM table is.
use libhwsense.Prelude.{
  ℕ, zero, suc, ◌<◌, ◌≡◌, refl, sym, subst, Bool, true, false, Bool-cases, inl, inr, Option, none,
  some, List, [], ◌∷◌, if◌then◌else◌, arith,
}
use libhwsense.Smu.Config.{SmuConfig, get_smu_config}
use libhwsense.Smu.Mailbox.{smu_get_dram_base, smu_transfer_table_to_dram}
use libhwsense.Smu.PmTable.{
  MemoryInput, Answer, bits_1000, between, word_of, kept_watts, power_of, power_address,
  memory_input, read_physical_memory, raw_read, or_raw_read, direct_read, or_direct_read, on_header,
  read_table, on_transfer, on_base, on_config, pmtable_power_raw,
}

-- the bits of a float between 0 and 1000, which are four bytes
abbrev pub IsPower : ℕ → List ℕ → Type 0
IsPower w bytes =
    (0 < w)
    × (w < bits_1000)
    × ((a b c d : ℕ) × ((bytes ≡ a ∷ b ∷ c ∷ d ∷ []) × (w ≡ word_of a b c d)))

module _ {S : Type 0} (smn_read : ℕ → S → Option ℕ × S) (smn_write : ℕ → ℕ → S → Bool × S)
    (read_memory : MemoryInput → S → Answer × S) (sleep : ℕ → S → S) where
  -- The value is the answer to a request for the four bytes behind a base.
  abbrev pub IsRead : ℕ → Option ℕ → Type 0
  IsRead dram_base none = Unit
  IsRead dram_base (some w) =
      (s : S) × IsPower w (read_memory (memory_input (power_address dram_base) 4) s).0.bytes

  kept :
      (dram_base a b c d : ℕ) (s : S)
      → (read_memory (memory_input (power_address dram_base) 4) s).0.bytes ≡ a ∷ b ∷ c ∷ d ∷ []
      → IsRead dram_base (kept_watts (word_of a b c d))
  kept dram_base a b c d s e = elim (Bool-cases (between bits_1000 (word_of a b c d))) [
    | inl h ↦ rw h (s, (ground arith, ground arith, (a, b, c, d, (e, refl))))
    | inr h ↦ rw h tt
  ]

  power_of-IsRead :
      (dram_base : ℕ) (s : S) (bytes : List ℕ)
      → (read_memory (memory_input (power_address dram_base) 4) s).0.bytes ≡ bytes
      → IsRead dram_base (power_of bytes)
  unfolding power_of
  power_of-IsRead dram_base s [] e = tt
  power_of-IsRead dram_base s (a ∷ []) e = tt
  power_of-IsRead dram_base s (a ∷ b ∷ []) e = tt
  power_of-IsRead dram_base s (a ∷ b ∷ c ∷ []) e = tt
  power_of-IsRead dram_base s (a ∷ b ∷ c ∷ d ∷ []) e = kept dram_base a b c d s e
  power_of-IsRead dram_base s (a ∷ b ∷ c ∷ d ∷ x ∷ bytes) e = tt

  if_ok-IsRead :
      (dram_base : ℕ) (ok : Bool) (v : Option ℕ)
      → IsRead dram_base v
      → IsRead dram_base (if ok then v else none)
  if_ok-IsRead dram_base true v h = h
  if_ok-IsRead dram_base false v h = tt

  raw_read-IsRead :
      (dram_base : ℕ) (st : S × ℕ)
      → IsRead dram_base (raw_read smn_read smn_write read_memory sleep dram_base st).0
  unfolding raw_read
  raw_read-IsRead dram_base (s, e) = if_ok-IsRead dram_base _ _ (power_of-IsRead dram_base s _ refl)

  or_raw_read-IsRead :
      (dram_base : ℕ) (v : Option ℕ) (st : S × ℕ)
      → IsRead dram_base v
      → IsRead dram_base (or_raw_read smn_read smn_write read_memory sleep v dram_base st).0
  unfolding or_raw_read
  or_raw_read-IsRead dram_base none st h = raw_read-IsRead dram_base st
  or_raw_read-IsRead dram_base (some w) st h = h

  direct_read-IsRead :
      (dram_base : ℕ) (st : S × ℕ)
      → IsRead dram_base (direct_read smn_read smn_write read_memory sleep dram_base st).0
  unfolding direct_read read_physical_memory
  direct_read-IsRead dram_base (s, e) =
      or_raw_read-IsRead dram_base _ _ (power_of-IsRead dram_base s _ refl)

  or_direct_read-IsRead :
      (dram_base : ℕ) (v : Option ℕ) (st : S × ℕ)
      → IsRead dram_base v
      → IsRead dram_base (or_direct_read smn_read smn_write read_memory sleep v dram_base st).0
  unfolding or_direct_read
  or_direct_read-IsRead dram_base none st h = direct_read-IsRead dram_base st
  or_direct_read-IsRead dram_base (some w) st h = h

  on_header-IsRead :
      (dram_base : ℕ) (plausible : Bool) (st : S × ℕ)
      → IsRead dram_base (on_header smn_read smn_write read_memory sleep plausible dram_base st).0
  unfolding on_header read_physical_memory
  on_header-IsRead dram_base false st = direct_read-IsRead dram_base st
  on_header-IsRead dram_base true (s, e) =
      or_direct_read-IsRead dram_base _ _ (power_of-IsRead dram_base s _ refl)

  on_transfer-IsRead :
      (dram_base : ℕ) (a : Bool × S) (e : ℕ)
      → IsRead dram_base (on_transfer smn_read smn_write read_memory sleep dram_base a e).0
  unfolding on_transfer read_table
  on_transfer-IsRead dram_base (false, s) e = tt
  on_transfer-IsRead dram_base (true, s) e = on_header-IsRead dram_base _ _

  -- The base is one that the processor's table of mailboxes gave, and is not 0.
  abbrev pub IsTablePower : ℕ → S → Option ℕ → Type 0
  IsTablePower eax s none = Unit
  IsTablePower eax s (some w) =
      (cfg : SmuConfig) × ((get_smu_config eax ≡ some cfg)
        × ((0 < (smu_get_dram_base smn_read smn_write cfg s).0)
            × IsRead (smu_get_dram_base smn_read smn_write cfg s).0 (some w)))

  with_base :
      (eax : ℕ) (cfg : SmuConfig) (s : S) (v : Option ℕ)
      → get_smu_config eax ≡ some cfg
      → 0 < (smu_get_dram_base smn_read smn_write cfg s).0
      → IsRead (smu_get_dram_base smn_read smn_write cfg s).0 v
      → IsTablePower eax s v
  with_base eax cfg s none k lt h = tt
  with_base eax cfg s (some w) k lt h = (cfg, (k, (lt, h)))

  on_base-IsTablePower :
      (eax : ℕ) (cfg : SmuConfig) (s : S) (a : ℕ × S) (e : ℕ)
      → get_smu_config eax ≡ some cfg
      → (smu_get_dram_base smn_read smn_write cfg s).0 ≡ a.0
      → IsTablePower eax s (on_base smn_read smn_write read_memory sleep cfg a e).0
  unfolding on_base
  on_base-IsTablePower eax cfg s (zero, s') e k h = tt
  on_base-IsTablePower eax cfg s (suc n, s') e k h =
      let v =
        on_transfer smn_read smn_write read_memory sleep (suc n)
          (smu_transfer_table_to_dram smn_read smn_write cfg s') e in
      with_base eax cfg s v.0 k (ground arith)
        (subst (λ x. IsRead x v.0) (sym h) (on_transfer-IsRead (suc n) _ e))

  on_config-IsTablePower :
      (eax : ℕ) (cfg : Option SmuConfig) (s : S) (e : ℕ)
      → get_smu_config eax ≡ cfg
      → IsTablePower eax s (on_config smn_read smn_write read_memory sleep cfg (s, e)).0
  unfolding on_config
  on_config-IsTablePower eax none s e k = tt
  on_config-IsTablePower eax (some cfg) s e k = on_base-IsTablePower eax cfg s _ e k refl

  -- A power that is given has the bits of a float above 0 and below 1000, of exactly four bytes that the driver read
  -- 0x10c behind a base; that base is not 0 and is the one that the mailbox of a processor in the table answered
  -- from the state at the start.
  pub pmtable_power_raw-IsRead :
      (eax : ℕ) (s : S) (e : ℕ)
      → IsTablePower eax s (pmtable_power_raw smn_read smn_write read_memory sleep eax (s, e)).0
  unfolding pmtable_power_raw
  pmtable_power_raw-IsRead eax s e = on_config-IsTablePower eax _ s e refl
