-- ===== src/Smu/Tests.antt =====
-- cpu/amd_smu.c over a simulated mailbox, and the theorems at it.
use libhwsense.Prelude.{ℕ, ◌≡◌, refl, Option, some, Bool, true, [], ◌==◌, if◌then◌else◌}
use libhwsense.Smu.Config.{
  vermeer, SmuConfig, family_of, model_of, codename_for, detect_codename, get_smu_config,
}
use libhwsense.Smu.Config.Complete.{config_entry, entry_of, config-codename}
use libhwsense.Smu.Mailbox.{await, write_args, await_answer, submit, send_when_idle, send_command}

vermeer_run : detect_codename 0xa20f10 ≡ vermeer
unfolding detect_codename codename_for family_of model_of
vermeer_run = refl

-- The state is the response; a command is answered with 1 at once.
abbrev reads : ℕ → ℕ → Option ℕ × ℕ
reads addr s = if addr == 0x3b10570 then (some s, s) else (some 0, s)

abbrev writes : ℕ → ℕ → ℕ → Bool × ℕ
writes addr v s =
    if addr == 0x3b10570 then (true, v) else if addr == 0x3b10524 then (true, 1) else (true, s)

command_run : (send_command reads writes 3 0x3b10524 0x3b10570 0x3b10a40 6 [] 1).0 ≡ 1
unfolding send_command send_when_idle submit await_answer write_args await
command_run = refl

-- a mailbox that never answers
silent_run : (send_command reads writes 3 0x3b10524 0x3b10570 0x3b10a40 6 [] 0).0 ≡ 0
unfolding send_command send_when_idle submit await_answer write_args await
silent_run = refl

config-codename_example :
    config_entry (get_smu_config 0xa20f10) ≡ entry_of (detect_codename 0xa20f10)
config-codename_example = config-codename 0xa20f10

abbrev vermeer_config : SmuConfig
vermeer_config = record {
  mp1_msg = 0x3b10530;
  mp1_rsp = 0x3b1057c;
  mp1_arg = 0x3b109c4;
  rsmu_msg = 0x3b10524;
  rsmu_rsp = 0x3b10570;
  rsmu_arg = 0x3b10a40;
  cmd_get_version = 0x08;
  cmd_get_dram_base = 0x06;
  cmd_transfer_to_dram = 0x05;
  cmd_transfer_arg0 = 0;
  cpuid_family = 0x19;
  cpuid_model = 0x21;
  name = "Vermeer";
}
