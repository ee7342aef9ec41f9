-- ===== src/Smu/PmTable.antt =====
-- cpu/amd_smu.c: the diagnosis and the power in the PM table. The answers of DeviceIoControl to a request for
-- physical memory are a parameter. A float is its 32 bits: those of the floats above 0.0 are ordered like
-- the floats, and all others are 0 or above the bits of infinity.
pub mod Power
mod Tests
use libhwsense.Prelude.{
  ℕ, zero, suc, ◌+◌, ◌*◌, ◌%◌, ◌^◌, Bool, true, false, ◌&&◌, Option, none, some, List, [], ◌∷◌,
  take, ltb, ◌==◌, if◌then◌else◌,
}
use libhwsense.Text.{Bytes, codes}
use libhwsense.Smu.Config.{SmuConfig, get_smu_config}
use libhwsense.Smu.Mailbox.{
  smu_get_version, smu_get_pm_table_version, smu_get_dram_base, smu_transfer_table_to_dram,
}

pub record MemoryInput : Type 0 where
  pub address : ℕ
  pub unit_size : ℕ
  pub count : ℕ

-- with the error of a request that fails, and the bytes that were written, as many as `bytes_ret` says
pub record Answer : Type 0 where
  pub ok : Bool
  pub error : ℕ
  pub bytes : List ℕ

abbrev pub bits_1000 : ℕ
bits_1000 = 0x447a0000

abbrev pub bits_10000 : ℕ
bits_10000 = 0x461c4000

abbrev pub between : ℕ → ℕ → Bool
between bound w = ltb 0 w && ltb w bound

unfoldable pub word_of : ℕ → ℕ → ℕ → ℕ → ℕ
word_of a b c d = a + 2 ^ 8 * b + 2 ^ 16 * c + 2 ^ 24 * d

-- at least four bytes were read, and the first float is between 0 and 10000
unfoldable pub plausible_header : List ℕ → Bool
plausible_header (a ∷ b ∷ c ∷ d ∷ rest) = between bits_10000 (word_of a b c d)
plausible_header bytes = false

abbrev pub kept_watts : ℕ → Option ℕ
kept_watts w = if between bits_1000 w then some w else none

-- exactly four bytes were read, and the float is between 0 and 1000
unfoldable pub power_of : List ℕ → Option ℕ
power_of (a ∷ b ∷ c ∷ d ∷ []) = kept_watts (word_of a b c d)
power_of bytes = none

abbrev pub power_address : ℕ → ℕ
power_address dram_base = (dram_base + 0x10c) % 2 ^ 64

abbrev pub memory_input : ℕ → ℕ → MemoryInput
memory_input phys_addr size = record { address = phys_addr; unit_size = 1; count = size }

module _ {S : Type 0} (smn_read : ℕ → S → Option ℕ × S) (smn_write : ℕ → ℕ → S → Bool × S)
    (read_memory : MemoryInput → S → Answer × S) (sleep : ℕ → S → S) where
  -- the second part of the state is `g_last_dram_error`
  unfoldable pub read_physical_memory : ℕ → ℕ → S × ℕ → List ℕ × (S × ℕ)
  read_physical_memory phys_addr size (s, e) =
      let (a, s') = read_memory (memory_input phys_addr size) s in
      (a.bytes, (s', if a.ok then 0 else a.error))

  -- the request that is sent without `read_physical_memory`
  unfoldable pub raw_read : ℕ → S × ℕ → Option ℕ × (S × ℕ)
  raw_read dram_base (s, e) =
      let (a, s') = read_memory (memory_input (power_address dram_base) 4) s in
      ((if a.ok then power_of a.bytes else none), (s', e))

  unfoldable pub or_raw_read : Option ℕ → ℕ → S × ℕ → Option ℕ × (S × ℕ)
  or_raw_read (some w) dram_base st = (some w, st)
  or_raw_read none dram_base st = raw_read dram_base st

  unfoldable pub direct_read : ℕ → S × ℕ → Option ℕ × (S × ℕ)
  direct_read dram_base st =
      let (bytes, st') = read_physical_memory (power_address dram_base) 4 st in
      or_raw_read (power_of bytes) dram_base st'

  unfoldable pub or_direct_read : Option ℕ → ℕ → S × ℕ → Option ℕ × (S × ℕ)
  or_direct_read (some w) dram_base st = (some w, st)
  or_direct_read none dram_base st = direct_read dram_base st

  unfoldable pub on_header : Bool → ℕ → S × ℕ → Option ℕ × (S × ℕ)
  on_header false dram_base st = direct_read dram_base st
  on_header true dram_base st =
      let (bytes, st') = read_physical_memory (power_address dram_base) 4 st in
      or_direct_read (power_of bytes) dram_base st'

  -- The lines behind the transfer; the first read is a test whose result is not looked at.
  unfoldable pub read_table : ℕ → S × ℕ → Option ℕ × (S × ℕ)
  read_table dram_base st =
      let (test, st₁) = read_physical_memory 0x10000 16 st in
      let (header, st₂) = read_physical_memory dram_base 16 st₁ in
      on_header (plausible_header header) dram_base st₂

  unfoldable pub on_transfer : ℕ → Bool × S → ℕ → Option ℕ × (S × ℕ)
  on_transfer dram_base (false, s) e = (none, (s, e))
  on_transfer dram_base (true, s) e = read_table dram_base (sleep 10 s, e)

  unfoldable pub on_base : SmuConfig → ℕ × S → ℕ → Option ℕ × (S × ℕ)
  on_base cfg (zero, s) e = (none, (s, e))
  on_base cfg (suc n, s) e =
      on_transfer (suc n) (smu_transfer_table_to_dram smn_read smn_write cfg s) e

  unfoldable pub on_config : Option SmuConfig → S × ℕ → Option ℕ × (S × ℕ)
  on_config none st = (none, st)
  on_config (some cfg) (s, e) = on_base cfg (smu_get_dram_base smn_read smn_write cfg s) e

  -- with EAX of CPUID; `none` is -1.0
  unfoldable pub pmtable_power_raw : ℕ → S × ℕ → Option ℕ × (S × ℕ)
  pmtable_power_raw eax st = on_config (get_smu_config eax) st

-- what the caller wants: the size of the buffer for the name, 0 without one, and the three numbers
pub record Wanted : Type 0 where
  pub name_len : ℕ
  pub smu_ver : Bool
  pub pm_ver : Bool
  pub dram_base : Bool

-- what is written, `none` for what the caller does not want
pub record Diag : Type 0 where
  pub name : Option Bytes
  pub smu_ver : Option ℕ
  pub pm_ver : Option ℕ
  pub dram_base : Option ℕ

unfoldable pub put_name : ℕ → Bytes → Option Bytes
put_name zero text = none
put_name (suc n) text = some (take n text)

abbrev pub when : {S : Type 0} → Bool → (S → ℕ × S) → S → Option ℕ × S
when false read s = (none, s)
when true read s = let (v, s') = read s in (some v, s')

module _ {S : Type 0} (smn_read : ℕ → S → Option ℕ × S) (smn_write : ℕ → ℕ → S → Bool × S) where
  unfoldable pub diag_with : Option SmuConfig → Wanted → S → Bool × Diag × S
  diag_with none w s = (
    false,
    record {
      name = put_name w.name_len (codes "Unknown CPU");
      smu_ver = none;
      pm_ver = none;
      dram_base = none;
    },
    s,
  )
  diag_with (some cfg) w s =
      let (v, s₁) = when w.smu_ver (smu_get_version smn_read smn_write cfg) s in
      let (p, s₂) = when w.pm_ver (smu_get_pm_table_version smn_read smn_write cfg) s₁ in
      let (b, s₃) = when w.dram_base (smu_get_dram_base smn_read smn_write cfg) s₂ in
      (
        true,
        record {
          name = put_name w.name_len (codes cfg.name);
          smu_ver = v;
          pm_ver = p;
          dram_base = b;
        },
        s₃,
      )

  unfoldable pub smu_diag : ℕ → Wanted → S → Bool × Diag × S
  smu_diag eax w s = diag_with (get_smu_config eax) w s
