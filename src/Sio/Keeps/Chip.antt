-- ===== src/Sio/Keeps/Chip.antt =====
-- motherboard/superio.c: properties of the state that the readers keep, for the larger functions.
use libhwsense.Prelude.{ℕ, ◌+◌, ◌%◌, Bool, true, false, Option, none, some, String, [], ◌∷◌}
use libhwsense.Prelude.Int.{ℤ}
use libhwsense.Slots.{Slots}
use libhwsense.Slots.Laws.{scan_keeps}
use libhwsense.Superio.{Message, SuperioResult}
use libhwsense.Ite.Keeps.{decode_keeps}
use libhwsense.Sio.Port.{
  World, M, sio_read_port, sio_write_port, sio_read_reg, sio_write_reg, unlock,
}
use libhwsense.Sio.Nuvoton.{
  SioChipInfo, nct679x_read_reg, sio_detect_chip, nct679x_read_temp, nct679x_read_fan,
  nct679x_read_voltage,
}
use libhwsense.Sio.Probe.{
  ite_enter, ite_exit, ite_win_read, ite_win_write, decode_at, ite_read_monitor, ite_read_chip,
  ite_probe_and_read,
}
use libhwsense.Sio.Read.{
  temp_body, fan_body, voltage_body, fill, chip_temps, chip_fans, chip_voltages, is_unknown, Pairs,
  try_chip, try_pairs, superio_temps, superio_fans, superio_voltages, temp_port_pairs, port_pairs,
}
use libhwsense.Sio.Keeps.{
  Keeps, Keeps-bind, Keeps-then, Keeps-pure, Keeps-if, Keeps-both, sio_enter-Keeps, sio_exit-Keeps,
  sio_read_reg-Keeps, sio_write_reg-Keeps, unlock-Keeps,
}

module _ {S : Type 0} (read_port : S → ℕ → Option ℕ × S) (write_port : S → ℕ → ℕ → Bool × S)
    (P : World S → Type 0) (reads : (port : ℕ) → Keeps P (sio_read_port read_port write_port port))
    (writes : (port value : ℕ) → Keeps P (sio_write_port read_port write_port port value)) where
  read_reg-Keeps : (addr data_ reg : ℕ) → Keeps P (sio_read_reg read_port write_port addr data_ reg)
  read_reg-Keeps = sio_read_reg-Keeps read_port write_port P reads writes

  write_reg-Keeps :
      (addr data_ reg value : ℕ) → Keeps P (sio_write_reg read_port write_port addr data_ reg value)
  write_reg-Keeps = sio_write_reg-Keeps read_port write_port P reads writes

  nct679x_read_reg-Keeps :
      (addr data_ reg : ℕ) → Keeps P (nct679x_read_reg read_port write_port addr data_ reg)
  unfolding nct679x_read_reg
  nct679x_read_reg-Keeps addr data_ reg =
      Keeps-then P _ _ (write_reg-Keeps addr data_ _ _)
        (Keeps-bind P _ _ (read_reg-Keeps addr data_ _) (λ v. Keeps-pure P _))

  pub sio_detect_chip-Keeps :
      (addr data_ : ℕ) → Keeps P (sio_detect_chip read_port write_port addr data_)
  unfolding sio_detect_chip
  sio_detect_chip-Keeps addr data_ =
      Keeps-bind P _ _ (sio_enter-Keeps read_port write_port P reads writes addr) λ entered.
        Keeps-if P entered _ _
          (Keeps-bind P _ _ (read_reg-Keeps addr data_ _) λ hi.
            Keeps-bind P _ _ (read_reg-Keeps addr data_ _) λ lo.
              Keeps-then P _ _ (sio_exit-Keeps read_port write_port P reads writes addr)
                (Keeps-pure P _))
          (Keeps-pure P _)

  temp_body-Keeps : (addr data_ i : ℕ) → Keeps P (temp_body read_port write_port addr data_ i)
  unfolding temp_body nct679x_read_temp
  temp_body-Keeps addr data_ i =
      Keeps-bind P _ _
        (Keeps-if P _ _ _ (Keeps-pure P none) (
          Keeps-bind P _ _ (nct679x_read_reg-Keeps addr data_ _)
            λ val. Keeps-bind P _ _ (nct679x_read_reg-Keeps addr data_ _) (λ half. Keeps-pure P _)))
        (λ t. Keeps-pure P _)

  fan_body-Keeps : (addr data_ i : ℕ) → Keeps P (fan_body read_port write_port addr data_ i)
  unfolding fan_body nct679x_read_fan
  fan_body-Keeps addr data_ i =
      Keeps-bind P _ _
        (Keeps-if P _ _ _ (Keeps-pure P none) (
          Keeps-bind P _ _ (nct679x_read_reg-Keeps addr data_ _)
            λ low. Keeps-bind P _ _ (nct679x_read_reg-Keeps addr data_ _) (λ high. Keeps-pure P _)))
        (λ t. Keeps-pure P _)

  voltage_body-Keeps : (addr data_ i : ℕ) → Keeps P (voltage_body read_port write_port addr data_ i)
  unfolding voltage_body nct679x_read_voltage
  voltage_body-Keeps addr data_ i =
      Keeps-bind P _ _
        (Keeps-if P _ _ _ (Keeps-pure P none)
          (Keeps-bind P _ _ (nct679x_read_reg-Keeps addr data_ _) (λ val. Keeps-pure P _)))
        (λ t. Keeps-pure P _)

  fill-Keeps :
      (max : ℕ) (body : ℕ → M S (Option ℤ)) (n : ℕ) (a : Slots ℤ)
      → ((i : ℕ) → Keeps P (body i))
      → Keeps P (fill read_port write_port max body n a)
  unfolding fill
  fill-Keeps max body n a keep w h = scan_keeps max body P (λ i s p. keep i s p) n 0 w a h

  unlocked-Keeps : (addr data_ : ℕ) → Keeps P (unlock read_port write_port addr data_)
  unlocked-Keeps = unlock-Keeps read_port write_port P reads writes

  chip_temps-Keeps :
      (addr data_ : ℕ) (c : SioChipInfo) → Keeps P (chip_temps read_port write_port addr data_ c)
  unfolding chip_temps
  chip_temps-Keeps addr data_ c =
      Keeps-then P _ _ (unlocked-Keeps addr data_)
        (Keeps-bind P _ _ (fill-Keeps _ _ _ _ (temp_body-Keeps addr data_)) (λ a. Keeps-pure P _))

  chip_fans-Keeps :
      (addr data_ : ℕ) (c : SioChipInfo) → Keeps P (chip_fans read_port write_port addr data_ c)
  unfolding chip_fans
  chip_fans-Keeps addr data_ c =
      Keeps-then P _ _ (unlocked-Keeps addr data_)
        (Keeps-bind P _ _ (fill-Keeps _ _ _ _ (fan_body-Keeps addr data_)) (λ a. Keeps-pure P _))

  chip_voltages-Keeps :
      (addr data_ : ℕ) (c : SioChipInfo) → Keeps P (chip_voltages read_port write_port addr data_ c)
  unfolding chip_voltages
  chip_voltages-Keeps addr data_ c =
      Keeps-then P _ _ (unlocked-Keeps addr data_) (
        Keeps-bind P _ _ (fill-Keeps _ _ _ _ (voltage_body-Keeps addr data_)) (λ a. Keeps-pure P _))

  ite_enter-Keeps : (addr : ℕ) → Keeps P (ite_enter read_port write_port addr)
  unfolding ite_enter
  ite_enter-Keeps addr =
      Keeps-both P _ _ (writes addr _)
        (Keeps-both P _ _ (writes addr _) (Keeps-both P _ _ (writes addr _) (writes addr _)))

  ite_exit-Keeps : (addr data_ : ℕ) → Keeps P (ite_exit read_port write_port addr data_)
  unfolding ite_exit
  ite_exit-Keeps addr data_ = write_reg-Keeps addr data_ 0x02 0x02

  win_read-Keeps :
      (base : ℕ) (w : World S) (reg : ℕ) → P w → P (ite_win_read read_port write_port base w reg).1
  unfolding ite_win_read
  win_read-Keeps base w reg h =
      Keeps-bind P _ _ (writes (base + 5) (reg % 256))
        (λ ok. Keeps-if P ok _ _ (reads (base + 6)) (Keeps-pure P none)) w h

  win_write-Keeps :
      (base : ℕ) (w : World S) (reg val : ℕ)
      → P w
      → P (ite_win_write read_port write_port base w reg val)
  unfolding ite_win_write
  win_write-Keeps base w reg val h =
      Keeps-both P _ _ (writes (base + 5) (reg % 256)) (writes (base + 6) (val % 256)) w h

  pub decode_at-Keeps :
      (id base : ℕ) (r : SuperioResult) → Keeps P (decode_at read_port write_port id base r)
  unfolding decode_at
  decode_at-Keeps id base r w h =
      decode_keeps (ite_win_read read_port write_port base)
        (ite_win_write read_port write_port base) P (win_read-Keeps base) (win_write-Keeps base) id
        w r h

  module _
      (monitor : (id : ℕ) (name : String) (active base : ℕ)
        → Keeps P (ite_read_monitor read_port write_port id name active base)) where
    read_chip-Keeps :
        (addr data_ id : ℕ) (name : Option String)
        → Keeps P (ite_read_chip read_port write_port addr data_ id name)
    unfolding ite_read_chip
    read_chip-Keeps addr data_ id none =
        Keeps-then P _ _ (ite_exit-Keeps addr data_) (Keeps-pure P none)
    read_chip-Keeps addr data_ id (some name) = Keeps-then P _ _ (write_reg-Keeps addr data_ _ _) (
        Keeps-bind P _ _ (read_reg-Keeps addr data_ _) λ active.
          Keeps-bind P _ _ (read_reg-Keeps addr data_ _) λ hi.
            Keeps-bind P _ _ (read_reg-Keeps addr data_ _) λ lo.
              Keeps-then P _ _ (ite_exit-Keeps addr data_)
                (Keeps-bind P _ _ (monitor id name _ _) (λ r. Keeps-pure P (some r))))

    pub probe-Keeps :
        (addr data_ : ℕ) → Keeps P (ite_probe_and_read read_port write_port addr data_)
    unfolding ite_probe_and_read
    probe-Keeps addr data_ = Keeps-if P _ _ _ (Keeps-pure P none) (
        Keeps-bind P _ _ (ite_enter-Keeps addr) λ entered.
          Keeps-if P entered _ _
            (Keeps-bind P _ _ (read_reg-Keeps addr data_ _) λ hi.
              Keeps-bind P _ _ (read_reg-Keeps addr data_ _) λ lo. read_chip-Keeps addr data_ _ _)
            (Keeps-pure P none))

    try_chip-Keeps :
        (keep : SuperioResult → SuperioResult) (on_chip : ℕ → ℕ → SioChipInfo → M S SuperioResult)
        (addr data_ : ℕ) (next : M S SuperioResult) (o : Option SuperioResult)
        → ((c : SioChipInfo) → Keeps P (on_chip addr data_ c))
        → Keeps P next
        → Keeps P (try_chip read_port write_port keep on_chip addr data_ next o)
    unfolding try_chip
    try_chip-Keeps keep on_chip addr data_ next (some r) chip rest = Keeps-pure P (keep r)
    try_chip-Keeps keep on_chip addr data_ next none chip rest =
        Keeps-bind P _ _ (sio_detect_chip-Keeps addr data_)
          (λ c. Keeps-if P (is_unknown c.kind) _ _ rest (chip c))

    try_pairs-Keeps :
        (nothing : Message) (keep : SuperioResult → SuperioResult)
        (on_chip : ℕ → ℕ → SioChipInfo → M S SuperioResult) (pairs : Pairs)
        → ((addr data_ : ℕ) (c : SioChipInfo) → Keeps P (on_chip addr data_ c))
        → Keeps P (try_pairs read_port write_port nothing keep on_chip pairs)
    unfolding try_pairs
    try_pairs-Keeps nothing keep on_chip [] chip = Keeps-pure P _
    try_pairs-Keeps nothing keep on_chip ((addr, data_) ∷ pairs) chip =
        Keeps-bind P _ _ (probe-Keeps addr data_) λ o.
          try_chip-Keeps keep on_chip addr data_ _ o (chip addr data_)
            (try_pairs-Keeps nothing keep on_chip pairs chip)

    pub superio_temps-Keeps : (valid : Bool) → Keeps P (superio_temps read_port write_port valid)
    unfolding superio_temps
    superio_temps-Keeps false = Keeps-pure P _
    superio_temps-Keeps true = try_pairs-Keeps _ _ _ temp_port_pairs chip_temps-Keeps

    pub superio_fans-Keeps : (valid : Bool) → Keeps P (superio_fans read_port write_port valid)
    unfolding superio_fans
    superio_fans-Keeps false = Keeps-pure P _
    superio_fans-Keeps true = try_pairs-Keeps _ _ _ port_pairs chip_fans-Keeps

    pub superio_voltages-Keeps :
        (valid : Bool) → Keeps P (superio_voltages read_port write_port valid)
    unfolding superio_voltages
    superio_voltages-Keeps false = Keeps-pure P _
    superio_voltages-Keeps true = try_pairs-Keeps _ _ _ port_pairs chip_voltages-Keeps
