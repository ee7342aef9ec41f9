-- ===== src/Smu/PmTable/Tests.antt =====
-- cpu/amd_smu.c: the PM table of a simulated processor, and the theorem at it.
use libhwsense.Prelude.{ℕ, ◌≡◌, refl, Bool, true, false, Option, some, [], ◌∷◌, ◌==◌, if◌then◌else◌}
use libhwsense.Text.{codes}
use libhwsense.Smu.Config.{get_smu_config, config_in, family_of, model_of}
use libhwsense.Smu.PmTable.{
  MemoryInput, Answer, word_of, plausible_header, power_of, read_physical_memory, or_raw_read,
  direct_read, on_header, read_table, pmtable_power_raw, put_name, diag_with, smu_diag,
}
use libhwsense.Smu.PmTable.Power.{IsTablePower, pmtable_power_raw-IsRead}

-- Every command is answered with 1 at once, and the argument register holds the base 0x1000.
abbrev reads : ℕ → ℕ → Option ℕ × ℕ
reads addr s =
    if addr == 0x3b10570
    then (some s, s)
    else if addr == 0x3b10a40
    then (some 0x1000, s)
    else (some 0, s)

abbrev writes : ℕ → ℕ → ℕ → Bool × ℕ
writes addr v s =
    if addr == 0x3b10570 then (true, v) else if addr == 0x3b10524 then (true, 1) else (true, s)

-- 30.0 at the power's address, and nothing elsewhere
abbrev memory : MemoryInput → ℕ → Answer × ℕ
memory i s =
    if i.address == 0x110c
    then (record { ok = true; error = 0; bytes = 0 ∷ 0 ∷ 0xf0 ∷ 0x41 ∷ [] }, s)
    else (record { ok = false; error = 87; bytes = [] }, s)

abbrev sleeps : ℕ → ℕ → ℕ
sleeps ms s = s

table_run : (read_table reads writes memory sleeps 0x1000 (1, 0)) ≡ (some 0x41f00000, (1, 0))
unfolding read_table on_header direct_read or_raw_read read_physical_memory plausible_header
    power_of word_of
table_run = refl

unknown_run :
    (smu_diag reads writes 0
      (record { name_len = 8; smu_ver = true; pm_ver = true; dram_base = true })
      1).1.name
    ≡ some (codes "Unknown")
unfolding smu_diag diag_with get_smu_config config_in family_of model_of put_name
unknown_run = refl

pmtable_power_raw-IsRead_example :
    IsTablePower reads writes memory sleeps 0xa20f10 1
      (pmtable_power_raw reads writes memory sleeps 0xa20f10 (1, 0)).0
pmtable_power_raw-IsRead_example = pmtable_power_raw-IsRead reads writes memory sleeps 0xa20f10 1 0
