-- ===== src/Board/Readers.antt =====
-- core/sensors_linux.c with motherboard/ite_linux.c and nct_linux.c: the whole path to the readings.
use libhwsense.Prelude.{ℕ, ◌≡◌, refl, Bool, true, false, Option, none, some, arith}
use libhwsense.Superio.{SuperioResult, Message, FitsArrays, zeroed, any_reading}
use libhwsense.Sysfs.{Files}
use libhwsense.Ite
use libhwsense.Ite.Fill.{decode-FitsArrays}
use libhwsense.Ite.Hw.{ec_read, ec_write, ite_find, ite_read_linux}
use libhwsense.Ite.Hw as IteHw
use libhwsense.Nct
use libhwsense.Nct.Fill.{nct_decode-FitsArrays}
use libhwsense.Nct.Hw.{nct_hw_read, nct_find, nct_read_linux, read_monitor}
use libhwsense.Nct.Hw as NctHw
use libhwsense.Board.{Wants, scan_hwmon, superio_scan}
use libhwsense.Board.Linux.{read_ite, read_nct}
use libhwsense.Board.Scan.{IsAsked, Explained, superio_scan-IsAsked}

failed-FitsArrays : (m : Message) → FitsArrays (record zeroed { error = m })
failed-FitsArrays m = omega arith

-- what a reader's answer has to be
abbrev Answers : {D : Type 0} → Bool × D × SuperioResult → Type 0
Answers (ok, d, r) = FitsArrays r × (ok ≡ r.ok)

module _ {S : Type 0} (rd : S → ℕ → Option ℕ × S) (wr : S → ℕ → ℕ → S) where
  bank_ok :
      (id : ℕ) (chip : Ite.IteChip) (x : Option ℕ × S)
      → let (ok, s', r) = Ite.decode_bank rd wr id chip x zeroed in ok ≡ r.ok
  unfolding Ite.decode_bank
  bank_ok id chip (none, s) = refl
  bank_ok id chip (some b, s) = refl

  found_ok :
      (id : ℕ) (c : Option Ite.IteChip) (s : S)
      → let (ok, s', r) = Ite.decode_found rd wr id c s zeroed in ok ≡ r.ok
  unfolding Ite.decode_found
  found_ok id none s = refl
  found_ok id (some chip) s = bank_ok id chip (rd s Ite.ite_reg_bank)

  nct_ok :
      (id : ℕ) (c : Option Nct.NctChip) (s : S)
      → let (ok, s', r) = Nct.decode_found rd id c s zeroed in ok ≡ r.ok
  unfolding Nct.decode_found
  nct_ok id none s = refl
  nct_ok id (some chip) s = refl

module _ {D : Type 0} (outb : D → ℕ → ℕ → D) (inb : D → ℕ → Option ℕ × D) where
  ite_found-Answers : (x : Option (ℕ × ℕ) × D) → Answers (IteHw.read_found outb inb x)
  unfolding IteHw.read_found Ite.decode
  ite_found-Answers (none, d) = (failed-FitsArrays _, refl)
  ite_found-Answers (some (id, base), d) = (
    decode-FitsArrays (ec_read outb inb base) (ec_write outb inb base) id d zeroed
        (failed-FitsArrays _),
    found_ok (ec_read outb inb base) (ec_write outb inb base) id (Ite.find_chip id) d,
  )

  ite_linux-Answers : (opened : Bool) (d : D) → Answers (ite_read_linux outb inb opened d)
  unfolding ite_read_linux
  ite_linux-Answers false d = (failed-FitsArrays _, refl)
  ite_linux-Answers true d = ite_found-Answers (ite_find outb inb d)

  nct_found-Answers : (x : Option (ℕ × ℕ) × D) → Answers (NctHw.read_found outb inb x)
  unfolding NctHw.read_found read_monitor Nct.decode
  nct_found-Answers (none, d) = (failed-FitsArrays _, refl)
  nct_found-Answers (some (id, base), d) = (
    nct_decode-FitsArrays (nct_hw_read outb inb) id _ zeroed (failed-FitsArrays _),
    nct_ok (nct_hw_read outb inb) (λ s reg v. s) id _ _,
  )

  nct_linux-Answers : (opened : Bool) (d : D) → Answers (nct_read_linux outb inb opened d)
  unfolding nct_read_linux
  nct_linux-Answers false d = (failed-FitsArrays _, refl)
  nct_linux-Answers true d = nct_found-Answers (nct_find outb inb d)

module _ {D : Type 0} (outb : D → ℕ → ℕ → D) (inb : D → ℕ → Option ℕ × D) (port_open : D → Bool × D)
    (files : Files) where
  -- With any files and any device behind the ports, and whatever was asked for, the counts of a
  -- result stay inside the arrays, kinds of reading that were not asked for are empty, and a result
  -- that is not `ok` has a message; no port is opened, read or written when the kernel's drivers have a
  -- reading.
  pub board-IsAsked :
      (wants : Wants) (d : D)
      → let (r, d') =
          superio_scan
            (read_ite outb inb port_open files)
            (read_nct outb inb port_open files)
            files
            wants
            d in
        IsAsked wants r × Explained r × (any_reading (scan_hwmon files wants) ≡ true → d' ≡ d)
  unfolding read_ite read_nct
  board-IsAsked wants d =
      superio_scan-IsAsked _ _ (λ d. ite_linux-Answers outb inb _ _)
        (λ d. nct_linux-Answers outb inb _ _) files wants d
