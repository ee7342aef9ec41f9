-- ===== src/Ec.antt =====
-- motherboard/ec.c: reading the registers of an ACPI embedded controller through two ports.
-- `DeviceIoControl` on the WinRing0 handle (`read_io`, `write_io`, which may fail) and `GetTickCount`
-- (`tick`) are parameters, over a device whose state they return anew.
pub mod Ranges
pub mod Waiting
pub mod Rules
pub mod Handshake
mod Tests
use libhwsense.Prelude.{
  ℕ, zero, suc, String, ◌+◌, ◌-◌, ◌*◌, ◌/◌, ◌%◌, ◌^◌, Bool, true, false, not, ◌||◌, Option, none,
  some, ltb, ◌==◌, if◌then◌else◌,
}
use libhwsense.Prelude.Int.{ℤ, pos, negsuc}
use libhwsense.Prelude.Word.{word, test_bit}

abbrev pub ec_data_port : ℕ
ec_data_port = 0x62

abbrev pub ec_cmd_port : ℕ
ec_cmd_port = 0x66

abbrev pub ec_cmd_read : ℕ
ec_cmd_read = 0x80

-- in milliseconds
abbrev pub ec_timeout : ℕ
ec_timeout = 100

abbrev pub obf_set : ℕ → Bool
obf_set status = not (status % 2 == 0)

abbrev pub ibf_clear : ℕ → Bool
ibf_clear status = status / 2 % 2 == 0

-- the difference of two tick counts, which are 32 bits wide
abbrev pub elapsed : ℕ → ℕ → ℕ
elapsed now start = (now + 2 ^ 32 - start) % 2 ^ 32

-- How a loop ends: TRUE, FALSE, or with no rounds left, which the code does not have.
pub data Wait : Type 0 where
  ready failed running : Wait

-- A function with an out parameter: `none` is FALSE.
abbrev pub M : Type 0 → Type 0 → Type 0
M S A = S → Option A × S

unfoldable pub bind : {S A B : Type 0} → (A → M S B) → Option A × S → Option B × S
bind f (none, s) = (none, s)
bind f (some a, s) = f a s

infixl 5 ◌>>=◌ ◌>>◌
abbrev pub ◌>>=◌ : {S A B : Type 0} → M S A → (A → M S B) → M S B
◌>>=◌ m f s = bind f (m s)

abbrev pub ◌>>◌ : {S A B : Type 0} → M S A → M S B → M S B
◌>>◌ m n s = bind (λ a. n) (m s)

unfoldable pub pure : {S A : Type 0} → A → M S A
pure a s = (some a, s)

-- the result of a function without an out parameter
unfoldable pub when : {S : Type 0} → Bool × S → Option (Unit {0}) × S
when (true, s) = (some tt, s)
when (false, s) = (none, s)

unfoldable pub when_ready : {S : Type 0} → Wait × S → Option (Unit {0}) × S
when_ready (ready, s) = (some tt, s)
when_ready (failed, s) = (none, s)
when_ready (running, s) = (none, s)

abbrev pub rpm_of : ℕ → ℤ
rpm_of raw = if raw == 0xffff || raw == 0 then pos 0 else pos raw

unfoldable pub read_as : {S : Type 0} → (ℕ → ℤ) → Option ℕ × S → ℤ × S
read_as f (none, s) = (negsuc 0, s)
read_as f (some raw, s) = (f raw, s)

pub record EcResult : Type 0 where
  pub ok : Bool
  pub cpu_fan_rpm : ℤ
  pub vrm_fan_rpm : ℤ
  pub chipset_temp : ℤ
  pub cpu_temp : ℤ
  pub mb_temp : ℤ
  pub vrm_temp : ℤ
  pub cpu_voltage_mv : ℤ
  pub cpu_current_amps : ℤ
  pub error : String

abbrev pub not_available : EcResult
not_available = record {
  ok = false;
  cpu_fan_rpm = pos 0;
  vrm_fan_rpm = pos 0;
  chipset_temp = pos 0;
  cpu_temp = pos 0;
  mb_temp = pos 0;
  vrm_temp = pos 0;
  cpu_voltage_mv = pos 0;
  cpu_current_amps = pos 0;
  error = "EC not available or not responding";
}

unfoldable pub low_byte : {S : Type 0} → Option ℕ × S → Option ℕ × S
low_byte (none, s) = (none, s)
low_byte (some v, s) = (some (v % 256), s)

-- one round of a loop, from the status; the second argument is the rest of the loop
unfoldable pub polled : {S : Type 0} → (ℕ → Bool) → Wait × S → Option ℕ × S → Wait × S
polled done again (none, s) = (failed, s)
polled done again (some status, s) = if done status then (ready, s) else again

module _ {S : Type 0} (tick : S → ℕ × S) (read_io : S → ℕ → Option ℕ × S)
    (write_io : S → ℕ → ℕ → Bool × S) where
  unfoldable pub ec_read_port : ℕ → M S ℕ
  ec_read_port port s = low_byte (read_io s port)

  unfoldable pub ec_write_port : ℕ → ℕ → M S (Unit {0})
  ec_write_port port value s =
      if port == ec_data_port || port == ec_cmd_port
      then when (write_io s port value)
      else (none, s)

  -- The two loops differ in the test of the status. The first arguments are the rounds left and the
  -- tick count at the start.
  unfoldable pub wait_for : (ℕ → Bool) → ℕ → ℕ → S → Wait × S
  wait_for done zero start s = (running, s)
  wait_for done (suc rounds) start s =
      let (now, s₁) = tick s in
      let status = ec_read_port ec_cmd_port s₁ in
      let again = wait_for done rounds start status.1 in
      if ltb (elapsed now start) ec_timeout then polled done again status else (failed, s₁)

  unfoldable pub ec_wait : (ℕ → Bool) → ℕ → S → Wait × S
  ec_wait done rounds s = let (start, s') = tick s in wait_for done rounds start s'

  unfoldable pub ec_wait_ibf : ℕ → M S (Unit {0})
  ec_wait_ibf rounds s = when_ready (ec_wait ibf_clear rounds s)

  unfoldable pub ec_wait_obf : ℕ → M S (Unit {0})
  ec_wait_obf rounds s = when_ready (ec_wait obf_set rounds s)

  unfoldable pub ec_read_reg : ℕ → ℕ → M S ℕ
  ec_read_reg rounds reg = do
    ec_wait_ibf rounds
    ec_write_port ec_cmd_port ec_cmd_read
    ec_wait_ibf rounds
    ec_write_port ec_data_port reg
    ec_wait_obf rounds
    ec_read_port ec_data_port

  unfoldable pub ec_read_word : ℕ → ℕ → M S ℕ
  ec_read_word rounds reg = do
    low ← ec_read_reg rounds reg
    high ← ec_read_reg rounds ((reg + 1) % 256)
    pure (word high low)

  unfoldable pub ec_is_available : S → Bool × S
  ec_is_available s = available (ec_read_port ec_cmd_port s)
    where
      available : Option ℕ × S → Bool × S
      available (none, s') = (false, s')
      available (some status, s') = (not (status == 0xff), s')

  unfoldable pub ec_read_fan_rpm : ℕ → ℕ → S → ℤ × S
  ec_read_fan_rpm rounds fan_reg s = read_as rpm_of (ec_read_word rounds fan_reg s)

  unfoldable pub ec_read_temp : ℕ → ℕ → S → ℤ × S
  ec_read_temp rounds temp_reg s = read_as pos (ec_read_reg rounds temp_reg s)

  unfoldable pub ec_read_voltage_mv : ℕ → ℕ → S → ℤ × S
  ec_read_voltage_mv rounds voltage_reg s = read_as pos (ec_read_word rounds voltage_reg s)

  -- the registers of ec.h, in the order of the code
  unfoldable pub read_registers : ℕ → S → EcResult × S
  read_registers rounds s =
      let (cpu_fan, s₁) = ec_read_fan_rpm rounds 0xbc s in
      let (vrm_fan, s₂) = ec_read_fan_rpm rounds 0xb2 s₁ in
      let (chipset, s₃) = ec_read_temp rounds 0x3a s₂ in
      let (cpu, s₄) = ec_read_temp rounds 0x3b s₃ in
      let (mb, s₅) = ec_read_temp rounds 0x3c s₄ in
      let (vrm, s₆) = ec_read_temp rounds 0x3e s₅ in
      let (mv, s₇) = ec_read_voltage_mv rounds 0xa2 s₆ in
      (
        record {
          ok = true;
          cpu_fan_rpm = cpu_fan;
          vrm_fan_rpm = vrm_fan;
          chipset_temp = chipset;
          cpu_temp = cpu;
          mb_temp = mb;
          vrm_temp = vrm;
          cpu_voltage_mv = mv;
          cpu_current_amps = pos 0;
          error = "";
        },
        s₇,
      )

  unfoldable pub ec_read_all_sensors : ℕ → S → EcResult × S
  ec_read_all_sensors rounds s =
      let (available, s') = ec_is_available s in
      let read = read_registers rounds s' in if available then read else (not_available, s')
