-- ===== src/Smu/Config.antt =====
-- cpu/amd_smu.c: from the CPUID signature to a codename and to a mailbox layout.
pub mod Complete
use libhwsense.Prelude.{
  ℕ, String, ◌+◌, ◌*◌, Bool, true, false, ◌&&◌, ◌||◌, Option, none, some, List, [], ◌∷◌, ◌==◌,
  if◌then◌else◌,
}
use libhwsense.Prelude.Word.{field}

pub data AmdCodename : Type 0 where
  unknown matisse renoir vermeer cezanne milan castlepeak rembrandt raphael phoenix granite_ridge :
      AmdCodename

-- EAX of CPUID leaf 0x80000001
unfoldable pub family_of : ℕ → ℕ
family_of eax = field eax 8 4 + field eax 20 8

unfoldable pub model_of : ℕ → ℕ
model_of eax = field eax 16 4 * 16 + field eax 4 4

unfoldable pub codename_for : ℕ → ℕ → AmdCodename
codename_for family model =
    if family == 0x17
    then (if model == 0x71
        then matisse
        else if model == 0x60
        then renoir
        else if model == 0x31
        then castlepeak
        else unknown)
    else if family == 0x19
    then (if model == 0x21 || model == 0x20
        then vermeer
        else if model == 0x50
        then cezanne
        else if model == 0x01
        then milan
        else if model == 0x44
        then rembrandt
        else if model == 0x61
        then raphael
        else if model == 0x74 || model == 0x78
        then phoenix
        else unknown)
    else if family == 0x1a
    then (if model == 0x44 then granite_ridge else unknown)
    else unknown

unfoldable pub detect_codename : ℕ → AmdCodename
detect_codename eax = codename_for (family_of eax) (model_of eax)

pub record SmuConfig : Type 0 where
  pub mp1_msg : ℕ
  pub mp1_rsp : ℕ
  pub mp1_arg : ℕ
  pub rsmu_msg : ℕ
  pub rsmu_rsp : ℕ
  pub rsmu_arg : ℕ
  pub cmd_get_version : ℕ
  pub cmd_get_dram_base : ℕ
  pub cmd_transfer_to_dram : ℕ
  pub cmd_transfer_arg0 : ℕ
  pub cpuid_family : ℕ
  pub cpuid_model : ℕ
  pub name : String

-- the mailbox layout of the desktop and server parts
abbrev desktop : ℕ → ℕ → String → SmuConfig
desktop family model name = record {
  mp1_msg = 0x3b10530;
  mp1_rsp = 0x3b1057c;
  mp1_arg = 0x3b109c4;
  rsmu_msg = 0x3b10524;
  rsmu_rsp = 0x3b10570;
  rsmu_arg = 0x3b10a40;
  cmd_get_version = 0x08;
  cmd_get_dram_base = 0x06;
  cmd_transfer_to_dram = 0x05;
  cmd_transfer_arg0 = 0;
  cpuid_family = family;
  cpuid_model = model;
  name = name;
}

-- the layout of the APUs
abbrev apu : ℕ → ℕ → ℕ → String → SmuConfig
apu arg0 family model name = record {
  mp1_msg = 0x3b10528;
  mp1_rsp = 0x3b10564;
  mp1_arg = 0x3b10998;
  rsmu_msg = 0x3b10a20;
  rsmu_rsp = 0x3b10a80;
  rsmu_arg = 0x3b10a88;
  cmd_get_version = 0x06;
  cmd_get_dram_base = 0x66;
  cmd_transfer_to_dram = 0x65;
  cmd_transfer_arg0 = arg0;
  cpuid_family = family;
  cpuid_model = model;
  name = name;
}

abbrev pub smu_configs : List SmuConfig
smu_configs =
    desktop 0x17 0x71 "Matisse"
    ∷ apu 3 0x17 0x60 "Renoir"
    ∷ desktop 0x17 0x31 "CastlePeak"
    ∷ desktop 0x19 0x21 "Vermeer"
    ∷ desktop 0x19 0x20 "Vermeer"
    ∷ apu 0 0x19 0x50 "Cezanne"
    ∷ desktop 0x19 0x01 "Milan"
    ∷ apu 0 0x19 0x44 "Rembrandt"
    ∷ desktop 0x19 0x61 "Raphael"
    ∷ apu 0 0x19 0x74 "Phoenix"
    ∷ apu 0 0x19 0x78 "Phoenix"
    ∷ desktop 0x1a 0x44 "Granite Ridge"
    ∷ []

unfoldable pub config_in : List SmuConfig → ℕ → ℕ → Option SmuConfig
config_in [] family model = none
config_in (c ∷ cs) family model =
    if c.cpuid_family == family && c.cpuid_model == model then some c else config_in cs family model

unfoldable pub get_smu_config : ℕ → Option SmuConfig
get_smu_config eax = config_in smu_configs (family_of eax) (model_of eax)
