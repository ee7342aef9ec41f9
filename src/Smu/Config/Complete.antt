-- ===== src/Smu/Config/Complete.antt =====
-- cpu/amd_smu.c: the codename switch beside the configuration table.
use libhwsense.Prelude.{ℕ, String, ◌≡◌, Option, none, some, List, [], ◌∷◌, arith}
use libhwsense.Smu.Config.{
  AmdCodename, unknown, matisse, renoir, vermeer, cezanne, milan, castlepeak, rembrandt, raphael,
  phoenix, granite_ridge, family_of, model_of, codename_for, detect_codename, SmuConfig,
  smu_configs, config_in, get_smu_config,
}

-- The registers of the two mailboxes and the numbers of the three commands, which are those of the APUs or of
-- the other parts, and the argument of the transfer.
abbrev apu_layout : ℕ → List ℕ
apu_layout arg0 =
    0x3b10528 ∷ 0x3b10564 ∷ 0x3b10998 ∷ 0x3b10a20 ∷ 0x3b10a80 ∷ 0x3b10a88 ∷ 0x06 ∷ 0x66 ∷ 0x65
    ∷ arg0 ∷ []

abbrev desktop_layout : List ℕ
desktop_layout =
    0x3b10530 ∷ 0x3b1057c ∷ 0x3b109c4 ∷ 0x3b10524 ∷ 0x3b10570 ∷ 0x3b10a40 ∷ 0x08 ∷ 0x06 ∷ 0x05 ∷ 0
    ∷ []

-- the name and the layout of a codename; none for an unknown processor
abbrev pub entry_of : AmdCodename → Option (String × List ℕ)
entry_of unknown = none
entry_of matisse = some ("Matisse", desktop_layout)
entry_of renoir = some ("Renoir", apu_layout 3)
entry_of vermeer = some ("Vermeer", desktop_layout)
entry_of cezanne = some ("Cezanne", apu_layout 0)
entry_of milan = some ("Milan", desktop_layout)
entry_of castlepeak = some ("CastlePeak", desktop_layout)
entry_of rembrandt = some ("Rembrandt", apu_layout 0)
entry_of raphael = some ("Raphael", desktop_layout)
entry_of phoenix = some ("Phoenix", apu_layout 0)
entry_of granite_ridge = some ("Granite Ridge", desktop_layout)

abbrev pub config_entry : Option SmuConfig → Option (String × List ℕ)
config_entry none = none
config_entry (some c) = some (
  c.name,
  c.mp1_msg ∷ c.mp1_rsp ∷ c.mp1_arg ∷ c.rsmu_msg ∷ c.rsmu_rsp ∷ c.rsmu_arg ∷ c.cmd_get_version
      ∷ c.cmd_get_dram_base ∷ c.cmd_transfer_to_dram ∷ c.cmd_transfer_arg0 ∷ [],
)

entries_agree :
    (family model : ℕ)
    → config_entry (config_in smu_configs family model) ≡ entry_of (codename_for family model)
unfolding config_in codename_for
entries_agree family model = ground arith

-- For every CPUID signature the configuration table has an entry exactly for the codenames that the switch
-- knows, with that codename's name, and with the registers of both mailboxes, the numbers of the commands and the
-- argument that belong to it: those of an APU for Renoir, Cezanne, Rembrandt and Phoenix, and else those of
-- the other parts.
pub config-codename : (eax : ℕ) → config_entry (get_smu_config eax) ≡ entry_of (detect_codename eax)
unfolding get_smu_config detect_codename
config-codename eax = entries_agree (family_of eax) (model_of eax)
