-- ===== src/Smu/Commands.antt =====
-- cpu/amd_smu.c: the mailboxes of the configuration table, and the order of a command.
use libhwsense.Prelude.{ℕ, ◌+◌, ◌*◌, ◌<◌, ◌≡◌, ◌≢◌, Bool, Option, List}
use libhwsense.Smu.Config.{SmuConfig}
use libhwsense.Smu.Mailbox.{smu_send_command}
use libhwsense.Smu.Discipline.{waiting, answered, violated, observed_read, observed_write}

-- the message, the response and the six argument registers are different ones
abbrev pub Apart : ℕ → ℕ → ℕ → Type 0
Apart msg rsp arg = (msg ≢ rsp) × ((i : ℕ) → i < 6 → (arg + 4 * i ≢ msg) × (arg + 4 * i ≢ rsp))

abbrev BothApart : SmuConfig → Type 0
BothApart c = Apart c.mp1_msg c.mp1_rsp c.mp1_arg × Apart c.rsmu_msg c.rsmu_rsp c.rsmu_arg

module _ {S : Type 0} (smn_read : ℕ → S → Option ℕ × S) (smn_write : ℕ → ℕ → S → Bool × S) where
  -- what a command through a mailbox makes sure of, over this device
  abbrev pub Ordered : ℕ → ℕ → ℕ → Type 0
  Ordered msg rsp arg =
      (cmd : ℕ) (args : List ℕ) (s : S)
      → let (result, s') =
          smu_send_command (observed_read smn_read smn_write msg rsp cmd)
            (observed_write smn_read smn_write msg rsp cmd) msg rsp arg cmd args (s, waiting) in
        (s'.1 ≢ violated) × (result ≢ 0 → s'.1 ≡ answered)
