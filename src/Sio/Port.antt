-- ===== src/Sio/Port.antt =====
-- motherboard/superio.c: guarded port writes, port reads and the configuration space of a chip.
-- `DeviceIoControl` on the WinRing0 handle is a parameter: it reads or writes a port of a device whose
-- state it returns anew, and may fail.
use libhwsense.Prelude.{
  ℕ, ◌+◌, ◌*◌, ◌/◌, ◌%◌, Bool, true, false, not, ◌&&◌, ◌||◌, Option, none, some, leb, ◌==◌,
  if◌then◌else◌,
}

-- the device, and the two thread-local ports (0 while no ITE monitor is in use)
pub record World (S : Type 0) : Type 0 where
  pub dev : S
  pub sio_ec_index_port : ℕ
  pub sio_ec_data_port : ℕ

-- A function of superio.c that uses the device.
abbrev pub M : Type 0 → Type 0 → Type 0
M S A = World S → A × World S

infixl 5 ◌>>=◌ ◌>>◌
unfoldable pub ◌>>=◌ : {S A B : Type 0} → M S A → (A → M S B) → M S B
◌>>=◌ m f w = let (a, w') = m w in f a w'

unfoldable pub ◌>>◌ : {S A B : Type 0} → M S A → M S B → M S B
◌>>◌ m n w = n (m w).1

unfoldable pub pure : {S A : Type 0} → A → M S A
pure a w = (a, w)

-- `a && b` of two calls
unfoldable pub both : {S : Type 0} → M S Bool → M S Bool → M S Bool
both m n = do ok ← m; if ok then n else pure false

abbrev pub or_zero : Option ℕ → ℕ
or_zero none = 0
or_zero (some v) = v

-- the ports that `sio_validate_write_port` lets through
unfoldable pub sio_validate_write_port : {S : Type 0} → World S → ℕ → Bool
sio_validate_write_port w port =
    if leb port 0x0f
    then false
    else if port == 0x60 || port == 0x64
    then false
    else if port == 0x70 || port == 0x71
    then false
    else if not (w.sio_ec_index_port == 0)
        && (port == w.sio_ec_index_port || port == w.sio_ec_data_port)
    then true
    else port == 0x2e || port == 0x2f || port == 0x4e || port == 0x4f

module _ {S : Type 0} (read_port : S → ℕ → Option ℕ × S) (write_port : S → ℕ → ℕ → Bool × S) where
  unfoldable pub sio_read_port : ℕ → M S (Option ℕ)
  sio_read_port port w =
      let (v, d) = read_port w.dev port in
      (elim v [ none ↦ none | some x ↦ some (x % 256) ], record w { dev = d })

  unfoldable pub sio_write_port : ℕ → ℕ → M S Bool
  sio_write_port port value w =
      if sio_validate_write_port w port
      then (let (ok, d) = write_port w.dev port value in (ok, record w { dev = d }))
      else (false, w)

  unfoldable pub sio_enter : ℕ → M S Bool
  sio_enter addr_port = both (sio_write_port addr_port 0x87) (sio_write_port addr_port 0x87)

  unfoldable pub sio_exit : ℕ → M S Bool
  sio_exit addr_port = sio_write_port addr_port 0xaa

  unfoldable pub sio_read_reg : ℕ → ℕ → ℕ → M S (Option ℕ)
  sio_read_reg addr_port data_port reg = do
    ok ← sio_write_port addr_port reg
    if ok then sio_read_port data_port else pure none

  unfoldable pub sio_write_reg : ℕ → ℕ → ℕ → ℕ → M S Bool
  sio_write_reg addr_port data_port reg value =
      both (sio_write_port addr_port reg) (sio_write_port data_port value)

  -- "Disable IO space lock": clears bit 4 of register 0x28, `lock_val & ~0x10`
  unfoldable pub unlock : ℕ → ℕ → M S (Unit {0})
  unlock addr_port data_port = do
    entered ← sio_enter addr_port
    if entered
        then (do
          lock ← sio_read_reg addr_port data_port 0x28
          sio_write_reg addr_port data_port 0x28 (or_zero lock / 32 * 32 + or_zero lock % 16)
          sio_exit addr_port
          pure tt)
        else pure tt
