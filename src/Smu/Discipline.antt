-- ===== src/Smu/Discipline.antt =====
-- cpu/amd_smu.c: the order in which `smu_send_command` uses a mailbox.
use libhwsense.Prelude.{ℕ, ◌≡◌, ◌≢◌, Bool, not, ◌&&◌, Option, none, some, ◌==◌, if◌then◌else◌}

-- How far a command is, as the mailbox sees it.
pub data Phase : Type 0 where
  waiting idle cleared sent answered violated : Phase

-- a read of a response that is not 0
unfoldable pub responded : Phase → Phase
responded waiting = idle
responded sent = answered
responded p = p

-- a write of 0 to the response, and of the command's number
unfoldable pub clear : Phase → Phase
clear idle = cleared
clear p = violated

unfoldable pub command : Phase → Phase
command cleared = sent
command p = violated

-- a write of an argument
unfoldable pub argument : Phase → Phase
argument cleared = cleared
argument p = violated

-- the phase behind a read, with what it gave
unfoldable pub after_read : ℕ → ℕ → Option ℕ → Phase → Phase
after_read rsp addr none p = p
after_read rsp addr (some v) p = if addr == rsp && not (v == 0) then responded p else p

-- the phase behind a write
unfoldable pub after_write : ℕ → ℕ → ℕ → ℕ → ℕ → Phase → Phase
after_write msg rsp cmd addr value p =
    if addr == msg
    then if value == cmd then command p else violated
    else if addr == rsp
    then if value == 0 then clear p else violated
    else argument p

-- `P` while the response is 0, and `Q` from its first other value on
abbrev Response : {S : Type 0} (P Q : S → Type 0) → Option ℕ → S → Type 0
Response P Q none s = P s
Response P Q (some r) s = ((r ≡ 0) → P s) × ((r ≢ 0) → Q s)

abbrev Outcome : {S : Type 0} (P Q : S → Type 0) → Option ℕ → S → Type 0
Outcome P Q none s = P s
Outcome P Q (some r) s = (r ≢ 0) × Q s

module _ {S : Type 0} (smn_read : ℕ → S → Option ℕ × S) (smn_write : ℕ → ℕ → S → Bool × S)
    (msg rsp cmd : ℕ) where
  -- the registers, with the mailbox's phase beside them
  abbrev pub observed_read : ℕ → S × Phase → Option ℕ × (S × Phase)
  observed_read addr (s, p) = let (v, s') = smn_read addr s in (v, (s', after_read rsp addr v p))

  abbrev pub observed_write : ℕ → ℕ → S × Phase → Bool × (S × Phase)
  observed_write addr value (s, p) =
      let (ok, s') = smn_write addr value s in (ok, (s', after_write msg rsp cmd addr value p))

  At : Phase → S × Phase → Type 0
  At p s = s.1 ≡ p

  -- what the steps of a command make sure of
  Finished : ℕ × (S × Phase) → Type 0
  Finished r = (r.1.1 ≢ violated) × (r.0 ≢ 0 → r.1.1 ≡ answered)
