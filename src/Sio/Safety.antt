-- ===== src/Sio/Safety.antt =====
-- motherboard/superio.c: which ports the readers write to, and what becomes of the monitor's two ports.
use libhwsense.Prelude.{
  ℕ, ◌+◌, ◌<◌, ◌≡◌, ◌≢◌, refl, ◌⊎◌, inl, inr, Bool, true, Bool-cases, Option, String, List, [], ◌∷◌,
  All, arith, not, ◌||◌, ◌==◌, ◌%◌,
}
use libhwsense.Superio.{SuperioResult}
use libhwsense.Sio.Port.{
  World, ◌>>=◌, ◌>>◌, pure, sio_validate_write_port, sio_read_port, sio_write_port,
}
use libhwsense.Sio.Probe.{ite_base_ok, set_ec_ports, decode_guarded, ite_read_monitor}
use libhwsense.Sio.Read.{superio_temps, superio_fans, superio_voltages}
use libhwsense.Sio.Keeps.{Keeps, Keeps-bind, Keeps-then, Keeps-pure, Keeps-if}
use libhwsense.Sio.Keeps.Chip.{
  decode_at-Keeps, superio_temps-Keeps, superio_fans-Keeps, superio_voltages-Keeps,
}

-- not a port of the two DMA controllers and their page registers, the two interrupt controllers, the
-- keyboard controller, the CMOS or the PCI configuration
pub record Safe (port : ℕ) : Type 0 where
  pub dma : (0x0f < port) × ((port < 0x80) ⊎ (0x8f < port)) × ((port < 0xc0) ⊎ (0xdf < port))
  pub pic : (port ≢ 0x20) × (port ≢ 0x21) × (port ≢ 0xa0) × (port ≢ 0xa1)
  pub keyboard : (port ≢ 0x60) × (port ≢ 0x64)
  pub cmos : (port ≢ 0x70) × (port ≢ 0x71)
  pub pci : (port < 0xcf8) ⊎ (0xcff < port)
  pub sixteen_bits : port < 0x10000

-- The monitor's ports, while they are set, are safe.
pub record Guarded {S : Type 0} (w : World S) : Type 0 where
  pub index_safe : (w.sio_ec_index_port ≡ 0) ⊎ Safe w.sio_ec_index_port
  pub data_safe : (w.sio_ec_index_port ≡ 0) ⊎ Safe w.sio_ec_data_port

pub validate-Safe :
    {S : Type 0} (w : World S) (port : ℕ)
    → Guarded w
    → sio_validate_write_port w port ≡ true
    → Safe port
unfolding sio_validate_write_port
validate-Safe w port g h = ground arith

pub record Inv {S : Type 0} (P : S → Type 0) (w : World S) : Type 0 where
  pub kept : P w.dev
  pub guarded : Guarded w

-- The two ports of a base address that `ite_base_ok` accepts are safe.
pub ite_base_ok-Safe : (base : ℕ) → ite_base_ok base ≡ true → Safe (base + 5) × Safe (base + 6)
unfolding ite_base_ok
ite_base_ok-Safe base h = ground arith

-- no monitor is in use
abbrev pub Closed : {S : Type 0} → World S → Type 0
Closed w = w.sio_ec_index_port ≡ 0

module _ {S : Type 0} (read_port : S → ℕ → Option ℕ × S) (write_port : S → ℕ → ℕ → Bool × S) where
  pub read-Closed : (port : ℕ) → Keeps Closed (sio_read_port read_port write_port port)
  unfolding sio_read_port
  read-Closed port w h = h

  pub write-Closed :
      (port value : ℕ) → Keeps Closed (sio_write_port read_port write_port port value)
  unfolding sio_write_port
  write-Closed port value w h = elim (Bool-cases (sio_validate_write_port w port)) [
    | inl e ↦ rw e h
    | inr e ↦ rw e h
  ]

  -- Whatever happens in the decoder, the ports are cleared behind it.
  guarded-Closed :
      (id base : ℕ) (out : SuperioResult)
      → Keeps Closed (decode_guarded read_port write_port id base out)
  unfolding decode_guarded set_ec_ports ◌>>=◌ ◌>>◌ pure
  guarded-Closed id base out w h = refl

  pub monitor-Closed :
      (id : ℕ) (name : String) (active base : ℕ)
      → Keeps Closed (ite_read_monitor read_port write_port id name active base)
  unfolding ite_read_monitor
  monitor-Closed id name active base =
      Keeps-if Closed _ _ _ (Keeps-pure Closed _) (guarded-Closed id base _)

  -- After each of the three readers no monitor port is left open for writing.
  pub superio-Closed :
      (valid : Bool) (w : World S)
      → Closed w
      → Closed (superio_temps read_port write_port valid w).1
        × Closed (superio_fans read_port write_port valid w).1
        × Closed (superio_voltages read_port write_port valid w).1
  superio-Closed valid w h = (
    superio_temps-Keeps read_port write_port Closed read-Closed write-Closed monitor-Closed valid w
        h,
    superio_fans-Keeps read_port write_port Closed read-Closed write-Closed monitor-Closed valid w
        h,
    superio_voltages-Keeps read_port write_port Closed read-Closed write-Closed monitor-Closed valid
        w h,
  )

module _ {S : Type 0} (read_port : S → ℕ → Option ℕ × S) (write_port : S → ℕ → ℕ → Bool × S)
    (P : S → Type 0) (reads : (d : S) (port : ℕ) → P d → P (read_port d port).1)
    (writes : (d : S) (port value : ℕ) → Safe port → P d → P (write_port d port value).1) where
  read-Inv : (port : ℕ) → Keeps (Inv P) (sio_read_port read_port write_port port)
  unfolding sio_read_port
  read-Inv port w h = record {
    kept = reads w.dev port h.kept;
    guarded = record { index_safe = h.guarded.index_safe; data_safe = h.guarded.data_safe };
  }

  write-Inv : (port value : ℕ) → Keeps (Inv P) (sio_write_port read_port write_port port value)
  unfolding sio_write_port
  write-Inv port value w h = elim (Bool-cases (sio_validate_write_port w port)) [
    | inl e ↦ rw e (record {
      kept = writes w.dev port value (validate-Safe w port h.guarded e) h.kept;
      guarded = record { index_safe = h.guarded.index_safe; data_safe = h.guarded.data_safe };
    })
    | inr e ↦ rw e h
  ]

  guarded-Inv :
      (id base : ℕ) (out : SuperioResult)
      → ite_base_ok base ≡ true
      → Keeps (Inv P) (decode_guarded read_port write_port id base out)
  unfolding decode_guarded
  guarded-Inv id base out e =
      let (index, data_) = ite_base_ok-Safe base e in
      Keeps-then (Inv P) _ _ (open_ports index data_) (
        Keeps-bind (Inv P) _ _
          (decode_at-Keeps read_port write_port (Inv P) read-Inv write-Inv id base out)
          λ r. Keeps-then (Inv P) _ _ close_ports (Keeps-pure (Inv P) r))
    where
      open_ports :
          Safe (base + 5)
          → Safe (base + 6)
          → Keeps (Inv P) (set_ec_ports read_port write_port (base + 5) (base + 6))
      open_ports index data_ w h =
          unfold set_ec_ports in
          record {
            kept = h.kept;
            guarded = record { index_safe = inr index; data_safe = inr data_ };
          }

      close_ports : Keeps (Inv P) (set_ec_ports read_port write_port 0 0)
      close_ports w h =
          unfold set_ec_ports in
          record { kept = h.kept; guarded = record { index_safe = inl refl; data_safe = inl refl } }

  monitor-Inv :
      (id : ℕ) (name : String) (active base : ℕ)
      → Keeps (Inv P) (ite_read_monitor read_port write_port id name active base)
  unfolding ite_read_monitor
  monitor-Inv id name active base = elim (Bool-cases (active % 2 == 0 || not (ite_base_ok base))) [
    | inl e ↦ rw e (Keeps-pure (Inv P) _)
    | inr e ↦ rw e (guarded-Inv id base _ (ground arith))
  ]

  -- A property of the device that every read and every write to a safe port keeps is kept by each of
  -- the three readers: they write to safe ports only.
  pub superio-Inv :
      (valid : Bool) (w : World S)
      → Inv P w
      → Inv P (superio_temps read_port write_port valid w).1
        × Inv P (superio_fans read_port write_port valid w).1
        × Inv P (superio_voltages read_port write_port valid w).1
  superio-Inv valid w h = (
    superio_temps-Keeps read_port write_port (Inv P) read-Inv write-Inv monitor-Inv valid w h,
    superio_fans-Keeps read_port write_port (Inv P) read-Inv write-Inv monitor-Inv valid w h,
    superio_voltages-Keeps read_port write_port (Inv P) read-Inv write-Inv monitor-Inv valid w h,
  )

module _ {S : Type 0} (read_port : S → ℕ → Option ℕ × S) (write_port : S → ℕ → ℕ → Bool × S) where
  -- the device with a log of the ports that are written
  abbrev pub logged_read : List ℕ × S → ℕ → Option ℕ × (List ℕ × S)
  logged_read d port = let (v, s) = read_port d.1 port in (v, (d.0, s))

  abbrev pub logged_write : List ℕ × S → ℕ → ℕ → Bool × (List ℕ × S)
  logged_write d port value = let (ok, s) = write_port d.1 port value in (ok, (port ∷ d.0, s))

  -- Whatever the device answers, every port that a reader writes is safe: none is a port of the DMA
  -- controllers and their page registers, of the interrupt controllers, the keyboard controller, the CMOS or the PCI configuration space.
  pub superio_writes-Safe :
      (valid : Bool) (s : S)
      → let w : World (List ℕ × S) = record {
        dev = ([], s);
        sio_ec_index_port = 0;
        sio_ec_data_port = 0;
      } in
        All Safe (superio_temps logged_read logged_write valid w).1.dev.0
        × All Safe (superio_fans logged_read logged_write valid w).1.dev.0
        × All Safe (superio_voltages logged_read logged_write valid w).1.dev.0
  superio_writes-Safe valid s =
      let (t, f, v) =
        superio-Inv logged_read logged_write (λ d. All Safe d.0) (λ d port h. h)
          (λ d port value safe h. (safe, h)) valid _
          (record {
            kept = tt;
            guarded = record { index_safe = inl refl; data_safe = inl refl };
          }) in
      (t.kept, f.kept, v.kept)
