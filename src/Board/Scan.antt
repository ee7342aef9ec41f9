-- ===== src/Board/Scan.antt =====
-- core/sensors_linux.c: what a scan returns.
use libhwsense.Prelude.{
  ℕ, zero, suc, ◌+◌, ◌≡◌, refl, Bool, true, false, not, Bool-cases, inl, inr, ◌&&◌, Option, none,
  some, length-replicate, if◌then◌else◌, arith,
}
use libhwsense.Prelude.Int.{ℤ, pos}
use libhwsense.Text.{Bytes}
use libhwsense.Slots.{Slots, IsValid, scan, cleared}
use libhwsense.Slots.Laws.{scan-IsValid}
use libhwsense.Superio.{
  SuperioResult, Message, FitsArrays, is_empty, zeroed, any_reading, max_temps, max_fans,
  max_voltages,
}
use libhwsense.Sysfs.{Files, hwmon_max, hwmon_name}
use libhwsense.Superio.{no_board_sensors}
use libhwsense.Board.{
  is_unnamed, Wants, is_non_board_chip, scan_device, name_device, scan_named, scan_devices,
  scan_hwmon, keep_wanted, conclude, after_nct, after_ite, superio_scan,
}

-- an array inside its bounds, and empty unless it was asked for
abbrev pub Asked : Bool → ℕ → Slots ℤ → Type 0
Asked want max a = IsValid max a × (want ≡ false → a.count ≡ 0)

abbrev pub IsAsked : Wants → SuperioResult → Type 0
IsAsked wants r =
    Asked wants.temps max_temps r.temps
    × Asked wants.fans max_fans r.fans
    × Asked wants.volts max_voltages r.voltages

scan-Asked :
    (want : Bool) (max n i : ℕ) (body : ℕ → Bool → Option ℤ × Bool) (found : Bool) (a : Slots ℤ)
    → Asked want max a
    → Asked want max (if want then scan max body n i found a else (found, a)).1
scan-Asked true max n i body found a (h, k) =
    (scan-IsValid max body n i found a h, λ e. absurd (ground arith))
scan-Asked false max n i body found a h = h

cleared-Asked : (want : Bool) (max : ℕ) → Asked want max (cleared max (pos 0))
cleared-Asked want max =
    (record { size = length-replicate max (pos 0); used = omega arith }, λ e. refl)

kept-Asked :
    (want : Bool) (max : ℕ) (a : Slots ℤ)
    → IsValid max a
    → Asked want max (if want then a else cleared max (pos 0))
kept-Asked true max a h = (h, λ e. absurd (ground arith))
kept-Asked false max a h = cleared-Asked false max

zeroed-IsAsked : (wants : Wants) → IsAsked wants zeroed
zeroed-IsAsked wants = (
  cleared-Asked wants.temps max_temps,
  cleared-Asked wants.fans max_fans,
  cleared-Asked wants.volts max_voltages,
)

keep_wanted-IsAsked :
    (wants : Wants) (d : SuperioResult) → FitsArrays d → IsAsked wants (keep_wanted wants d)
unfolding keep_wanted
keep_wanted-IsAsked wants d h = (
  kept-Asked wants.temps max_temps d.temps h.temps_fit,
  kept-Asked wants.fans max_fans d.fans h.fans_fit,
  kept-Asked wants.volts max_voltages d.voltages h.voltages_fit,
)

conclude-IsAsked :
    (wants : Wants) (r : SuperioResult) → IsAsked wants r → IsAsked wants (conclude wants r)
unfolding conclude
conclude-IsAsked wants r h = h

module _ (files : Files) (wants : Wants) where
  device-IsAsked :
      (hw : ℕ) (r : SuperioResult)
      → IsAsked wants r
      → IsAsked wants (scan_device files wants hw r).1
  unfolding scan_device
  device-IsAsked hw r (t, f, v) = (
    scan-Asked wants.temps max_temps _ _ _ _ r.temps t,
    scan-Asked wants.fans max_fans _ _ _ _ r.fans f,
    scan-Asked wants.volts max_voltages _ _ _ _ r.voltages v,
  )

  name-IsAsked :
      (name : Bytes) (found : Bool) (r : SuperioResult)
      → IsAsked wants r
      → IsAsked wants (name_device files name (found, r))
  unfolding name_device
  name-IsAsked name found r h = elim (Bool-cases (found && is_unnamed r.chip_name)) [
    | inl e ↦ rw e h
    | inr e ↦ rw e h
  ]

  named-IsAsked :
      (hw : ℕ) (name : Option Bytes) (r : SuperioResult)
      → IsAsked wants r
      → IsAsked wants (scan_named files wants hw name r)
  unfolding scan_named
  named-IsAsked hw none r h = h
  named-IsAsked hw (some name) r h = elim (Bool-cases (is_non_board_chip name)) [
    | inl e ↦ rw e h
    | inr e ↦ rw e (name-IsAsked name _ _ (device-IsAsked hw r h))
  ]

  devices-IsAsked :
      (n hw : ℕ) (r : SuperioResult)
      → IsAsked wants r
      → IsAsked wants (scan_devices files wants n hw r)
  unfolding scan_devices
  devices-IsAsked zero hw r h = h
  devices-IsAsked (suc n) hw r h =
      devices-IsAsked n (hw + 1) _ (named-IsAsked hw (hwmon_name files hw 64) r h)

-- A failed result says why.
abbrev pub Explained : SuperioResult → Type 0
Explained r = r.ok ≡ false → is_empty r.error ≡ false

said :
    (ok : Bool) (m : Message)
    → ok ≡ false
    → is_empty (if not ok && is_empty m then no_board_sensors else m) ≡ false
unfolding is_empty
said true m h = absurd (ground arith)
said false m h = elim (Bool-cases (is_empty m)) [ inl e ↦ rw e refl | inr e ↦ rw (e, is_empty) e ]

conclude-Explained : (wants : Wants) (r : SuperioResult) → Explained (conclude wants r)
unfolding conclude
conclude-Explained wants r h = said _ r.error h

-- what the scan relies on of a direct reader
abbrev pub IsReader : {D : Type 0} → (D → Bool × D × SuperioResult) → Type 0
IsReader {D} read = (d : D) → let (ok, d', r) = read d in FitsArrays r × (ok ≡ r.ok)

module _ {D : Type 0} (ite nct : D → Bool × D × SuperioResult) (i : IsReader ite)
    (n : IsReader nct) where
  nct_step :
      (wants : Wants) (r : SuperioResult) (m : Message) (x : Bool × D × SuperioResult)
      → IsAsked wants r
      → FitsArrays x.2
      → x.0 ≡ x.2.ok
      → let (r', d') = after_nct ite nct wants r m x in IsAsked wants r' × Explained r'
  unfolding after_nct keep_wanted
  nct_step wants r m (true, d, c) h fits e =
      (keep_wanted-IsAsked wants c fits, λ z. absurd (ground arith))
  nct_step wants r m (false, d, c) h fits e =
      (conclude-IsAsked wants _ h, conclude-Explained wants _)

  ite_step :
      (wants : Wants) (r : SuperioResult) (x : Bool × D × SuperioResult)
      → IsAsked wants r
      → FitsArrays x.2
      → x.0 ≡ x.2.ok
      → let (r', d') = after_ite ite nct wants r x in IsAsked wants r' × Explained r'
  unfolding after_ite keep_wanted
  ite_step wants r (true, d, c) h fits e =
      (keep_wanted-IsAsked wants c fits, λ z. absurd (ground arith))
  ite_step wants r (false, d, c) h fits e = nct_step wants r c.error (nct d) h (n d).0 (n d).1

  -- With any files and two direct readers that stay inside the arrays and return the `ok` of their
  -- result, the counts of a scan's result stay inside the arrays, kinds of reading that were not asked
  -- for are empty, and a result that is not `ok` has a message. When the kernel's drivers have a
  -- reading, the device is not touched.
  pub superio_scan-IsAsked :
      (files : Files) (wants : Wants) (d : D)
      → let (r, d') = superio_scan ite nct files wants d in
        IsAsked wants r × Explained r × (any_reading (scan_hwmon files wants) ≡ true → d' ≡ d)
  unfolding superio_scan scan_hwmon
  superio_scan-IsAsked files wants d =
      let h = devices-IsAsked files wants hwmon_max 0 zeroed (zeroed-IsAsked wants) in
      elim (Bool-cases (any_reading (scan_devices files wants hwmon_max 0 zeroed))) [
        | inl e ↦ rw e (conclude-IsAsked wants _ h, conclude-Explained wants _, λ z. refl)
        | inr e ↦
            let (a, x) = ite_step wants _ (ite d) h (i d).0 (i d).1 in
            rw e (a, x, λ z. absurd (ground arith))
      ]
