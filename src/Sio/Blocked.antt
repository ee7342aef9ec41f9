-- ===== src/Sio/Blocked.antt =====
-- motherboard/superio.c: the port pairs from 0x162 on, and the port guard.
use libhwsense.Prelude.{
  ℕ, ◌≡◌, ◌≢◌, refl, ◌∙◌, Bool, true, false, not, ◌&&◌, ◌==◌, if◌then◌else◌, Option, none, some, [],
  ◌∷◌, arith,
}
use libhwsense.Superio.{Message, no_chip_among, SuperioResult}
use libhwsense.Sio.Port.{
  World, M, ◌>>=◌, pure, both, sio_validate_write_port, sio_write_port, sio_enter,
}
use libhwsense.Sio.Nuvoton.{SioChipInfo, sio_detect_chip}
use libhwsense.Sio.Probe.{ite_filter, ite_probe_and_read}
use libhwsense.Sio.Read.{is_unknown, chip_temps, Pairs, try_chip, try_pairs, superio_temps}
use libhwsense.Sio.Keeps.Chip.{sio_detect_chip-Keeps, probe-Keeps}
use libhwsense.Sio.Safety.{Closed, read-Closed, write-Closed, monitor-Closed}

-- a port that no chip's configuration space uses by the guard's list
abbrev pub Blocked : ℕ → Type 0
Blocked port = (port ≢ 0x2e) × (port ≢ 0x2f) × (port ≢ 0x4e) × (port ≢ 0x4f)

validate-Blocked :
    {S : Type 0} (w : World S) (port : ℕ)
    → Closed w
    → Blocked port
    → sio_validate_write_port w port ≡ false
unfolding sio_validate_write_port
validate-Blocked w port c b = ground arith

abbrev pub standard_pairs : Pairs
standard_pairs = (0x2e, 0x2f) ∷ (0x4e, 0x4f) ∷ []

not_standard : (addr : ℕ) → Blocked addr → (not (addr == 0x2e) && not (addr == 0x4e)) ≡ true
not_standard addr b = ground arith

module _ {S : Type 0} (read_port : S → ℕ → Option ℕ × S) (write_port : S → ℕ → ℕ → Bool × S) where
  write-Blocked :
      (port value : ℕ) (w : World S)
      → Closed w
      → Blocked port
      → sio_write_port read_port write_port port value w ≡ (false, w)
  unfolding sio_write_port
  write-Blocked port value w c b = rw (validate-Blocked w port c b)

  enter-Blocked :
      (addr : ℕ) (w : World S)
      → Closed w
      → Blocked addr
      → sio_enter read_port write_port addr w ≡ (false, w)
  unfolding sio_enter both ◌>>=◌ pure
  enter-Blocked addr w c b = rw (write-Blocked addr 0x87 w c b)

  detect-Blocked :
      (addr data_ : ℕ) (w : World S)
      → Closed w
      → Blocked addr
      → (is_unknown (sio_detect_chip read_port write_port addr data_ w).0.kind ≡ true)
        × ((sio_detect_chip read_port write_port addr data_ w).1 ≡ w)
  unfolding sio_detect_chip ◌>>=◌ pure is_unknown
  detect-Blocked addr data_ w c b = rw (enter-Blocked addr w c b) (refl, refl)

  probe-Blocked :
      (addr data_ : ℕ) (w : World S)
      → Blocked addr
      → ite_probe_and_read read_port write_port addr data_ w ≡ (none, w)
  unfolding ite_probe_and_read pure
  probe-Blocked addr data_ w b = rw (not_standard addr b)

  module _ (nothing : Message) (keep : SuperioResult → SuperioResult)
      (on_chip : ℕ → ℕ → SioChipInfo → M S SuperioResult) where
    pair-Blocked :
        (addr data_ : ℕ) (pairs : Pairs) (w : World S)
        → Closed w
        → Blocked addr
        → try_pairs read_port write_port nothing keep on_chip ((addr, data_) ∷ pairs) w
          ≡ try_pairs read_port write_port nothing keep on_chip pairs w
    unfolding try_pairs try_chip ◌>>=◌
    pair-Blocked addr data_ pairs w c b =
        let (u, same) = detect-Blocked addr data_ w c b in
        rw (probe-Blocked addr data_ w b, try_chip, u, same)

    chip_agrees :
        (addr data_ : ℕ) (next next' : M S SuperioResult) (o : Option SuperioResult) (w : World S)
        → Closed w
        → ((w : World S) → Closed w → next w ≡ next' w)
        → try_chip read_port write_port keep on_chip addr data_ next o w
          ≡ try_chip read_port write_port keep on_chip addr data_ next' o w
    unfolding try_chip ◌>>=◌
    chip_agrees addr data_ next next' (some r) w c same = refl
    chip_agrees addr data_ next next' none w c same =
        choose (is_unknown (sio_detect_chip read_port write_port addr data_ w).0.kind) _ (
          same _ (
            sio_detect_chip-Keeps read_port write_port Closed (read-Closed read_port write_port)
              (write-Closed read_port write_port) addr data_ w c))
      where
        choose :
            (b : Bool) (m : M S SuperioResult) {w' : World S}
            → next w' ≡ next' w'
            → (if b then next else m) w' ≡ (if b then next' else m) w'
        choose true m e = e
        choose false m e = refl

    pairs_agree :
        (addr data_ : ℕ) (pairs pairs' : Pairs)
        → ((w : World S)
            → Closed w
            → try_pairs read_port write_port nothing keep on_chip pairs w
              ≡ try_pairs read_port write_port nothing keep on_chip pairs' w)
        → (w : World S) → Closed w
        → try_pairs read_port write_port nothing keep on_chip ((addr, data_) ∷ pairs) w
          ≡ try_pairs read_port write_port nothing keep on_chip ((addr, data_) ∷ pairs') w
    unfolding try_pairs ◌>>=◌
    pairs_agree addr data_ pairs pairs' same w c =
        chip_agrees addr data_ _ _ _ _
          (probe-Keeps read_port write_port Closed (read-Closed read_port write_port)
            (write-Closed read_port write_port) (monitor-Closed read_port write_port) addr data_ w
            c)
          same

  -- The temperature reader behaves as if its list of port pairs ended after 0x4E, but for the message, which tells of five pairs: on the three others
  -- it writes nothing and finds nothing, since the write guard refuses their ports.
  pub superio_temps_pairs :
      (w : World S)
      → Closed w
      → superio_temps read_port write_port true w
        ≡ try_pairs read_port write_port
            (no_chip_among 5)
            (ite_filter true false false)
            (chip_temps read_port write_port)
            standard_pairs
            w
  unfolding superio_temps
  superio_temps_pairs w c =
      pairs_agree _ _ _ 0x2e 0x2f _ _
        (pairs_agree _ _ _ 0x4e 0x4f _ _ λ w c.
          pair-Blocked _ _ _ 0x162 0x163 _ w c (omega arith)
          ∙ pair-Blocked _ _ _ 0x3e0 0x3e1 _ w c (omega arith)
          ∙ pair-Blocked _ _ _ 0x4e0 0x4e1 _ w c (omega arith))
        w c
