-- ===== src/Smu/Mailbox.antt =====
-- cpu/amd_smu.c: the mailbox commands, over any reads and writes of SMN registers.
use libhwsense.Prelude.{
  ℕ, zero, suc, ◌+◌, ◌*◌, ◌^◌, Bool, true, false, Option, none, some, List, [], ◌∷◌, take, ◌==◌,
  if◌then◌else◌,
}
use libhwsense.Smu.Config.{SmuConfig}

abbrev pub smu_timeout : ℕ
smu_timeout = 10000

abbrev pub or_zero : Option ℕ → ℕ
or_zero none = 0
or_zero (some v) = v

module _ {S : Type 0} (smn_read : ℕ → S → Option ℕ × S) (smn_write : ℕ → ℕ → S → Bool × S) where
  -- One of the two polling loops, with the rounds left. `none` is a failed read or a timeout, on both
  -- of which the function returns 0.
  unfoldable pub await : ℕ → ℕ → S → Option ℕ × S
  await zero rsp_addr s = (none, s)
  await (suc n) rsp_addr s =
      let (v, s') = smn_read rsp_addr s in
      let again = await n rsp_addr s' in
      elim v [ none ↦ (none, s') | some rsp ↦ if rsp == 0 then again else (some rsp, s') ]

  -- the loop over the arguments, from the address of the next one on
  unfoldable pub write_args : ℕ → List ℕ → S → Bool × S
  write_args arg_addr [] s = (true, s)
  write_args arg_addr (a ∷ args) s =
      let (ok, s') = smn_write arg_addr a s in
      let rest = write_args (arg_addr + 4) args s' in if ok then rest else (false, s')

  -- the steps behind the command's write
  unfoldable pub await_answer : ℕ → ℕ → Bool × S → ℕ × S
  await_answer rounds rsp_addr (false, s) = (0, s)
  await_answer rounds rsp_addr (true, s) = let (v, s') = await rounds rsp_addr s in (or_zero v, s')

  -- the steps behind the arguments
  unfoldable pub submit : ℕ → ℕ → ℕ → ℕ → Bool × S → ℕ × S
  submit rounds msg_addr rsp_addr cmd (false, s) = (0, s)
  submit rounds msg_addr rsp_addr cmd (true, s) =
      await_answer rounds rsp_addr (smn_write msg_addr cmd s)

  -- the steps behind the first loop; the result of clearing the response is not looked at
  unfoldable pub send_when_idle : ℕ → ℕ → ℕ → ℕ → ℕ → List ℕ → Option ℕ × S → ℕ × S
  send_when_idle rounds msg_addr rsp_addr arg_addr cmd args (none, s) = (0, s)
  send_when_idle rounds msg_addr rsp_addr arg_addr cmd args (some rsp, s) =
      submit rounds msg_addr rsp_addr cmd
        (write_args arg_addr (take 6 args) (smn_write rsp_addr 0 s).1)

  -- with the rounds of both loops, which the code takes as `smu_timeout`
  unfoldable pub send_command : ℕ → ℕ → ℕ → ℕ → ℕ → List ℕ → S → ℕ × S
  send_command rounds msg_addr rsp_addr arg_addr cmd args s =
      send_when_idle rounds msg_addr rsp_addr arg_addr cmd args (await rounds rsp_addr s)

  unfoldable pub smu_send_command : ℕ → ℕ → ℕ → ℕ → List ℕ → S → ℕ × S
  smu_send_command = send_command smu_timeout

  -- the value of a register whose read is not checked
  unfoldable pub read_or_zero : ℕ → S → ℕ × S
  read_or_zero addr s = let (v, s') = smn_read addr s in (or_zero v, s')

  unfoldable pub smu_get_version : SmuConfig → S → ℕ × S
  smu_get_version cfg s =
      let (rsp, s') = smu_send_command cfg.mp1_msg cfg.mp1_rsp cfg.mp1_arg 0x02 [] s in
      if rsp == 1 then read_or_zero cfg.mp1_arg s' else (0, s')

  unfoldable pub smu_get_pm_table_version : SmuConfig → S → ℕ × S
  smu_get_pm_table_version cfg s =
      let (rsp, s') =
        smu_send_command cfg.rsmu_msg cfg.rsmu_rsp cfg.rsmu_arg cfg.cmd_get_version [] s in
      if rsp == 1 then read_or_zero cfg.rsmu_arg s' else (0, s')

  unfoldable pub read_dram_base : ℕ → S → ℕ × S
  read_dram_base arg s =
      let (lo, s₁) = read_or_zero arg s in
      let (hi, s₂) = read_or_zero (arg + 4) s₁ in (hi * 2 ^ 32 + lo, s₂)

  unfoldable pub smu_get_dram_base : SmuConfig → S → ℕ × S
  smu_get_dram_base cfg s =
      let (rsp, s') =
        smu_send_command cfg.rsmu_msg cfg.rsmu_rsp cfg.rsmu_arg cfg.cmd_get_dram_base [] s in
      if rsp == 1 then read_dram_base cfg.rsmu_arg s' else (0, s')

  unfoldable pub smu_transfer_table_to_dram : SmuConfig → S → Bool × S
  smu_transfer_table_to_dram cfg s =
      let (rsp, s') =
        smu_send_command cfg.rsmu_msg cfg.rsmu_rsp cfg.rsmu_arg cfg.cmd_transfer_to_dram
          (cfg.cmd_transfer_arg0 ∷ []) s in
      (rsp == 1, s')
