-- ===== src/Smu/Smn.antt =====
-- cpu/amd_zen.c: System Management Network registers through the PCI configuration space. The driver's
-- reads and writes of that space are parameters.
use libhwsense.Prelude.{ℕ, ◌+◌, ◌*◌, ◌%◌, Bool, false, Option, none, if◌then◌else◌}

unfoldable pub pci_address : ℕ → ℕ → ℕ → ℕ
pci_address bus device function = bus % 256 * 256 + device % 32 * 8 + function % 8

abbrev pub smn_index_offset : ℕ
smn_index_offset = 0x60

abbrev pub smn_data_offset : ℕ
smn_data_offset = 0x64

module _ {S : Type 0} (pci_read : S → ℕ → ℕ → Option ℕ × S)
    (pci_write : S → ℕ → ℕ → ℕ → Bool × S) where
  unfoldable pub smn_read : ℕ → S → Option ℕ × S
  smn_read smn_addr s =
      let nb = pci_address 0 0 0 in
      let (ok, s') = pci_write s nb smn_index_offset smn_addr in
      if ok then pci_read s' nb smn_data_offset else (none, s')

  unfoldable pub smn_write_dword : ℕ → ℕ → S → Bool × S
  smn_write_dword smn_addr value s =
      let nb = pci_address 0 0 0 in
      let (ok, s') = pci_write s nb smn_index_offset smn_addr in
      if ok then pci_write s' nb smn_data_offset value else (false, s')
