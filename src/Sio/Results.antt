-- ===== src/Sio/Results.antt =====
-- motherboard/superio.c: what the readers return.
use libhwsense.Prelude.{
  ℕ, String, ◌/◌, ◌%◌, ◌≤◌, ◌<◌, ◌≡◌, refl, Bool, true, false, Option, none, some, [], ◌∷◌, arith,
  if◌then◌else◌, ltb,
}
use native.Mathlib.Nat.{div-lt_iff_lt-mul}
use libhwsense.Prelude.Int.{ℤ}
use libhwsense.Prelude.Word.{word}
use libhwsense.Slots.{Slots, IsValid}
use libhwsense.Slots.Laws.{scan-IsValid}
use libhwsense.Superio.{
  Message, SuperioResult, FitsArrays, zeroed, max_temps, max_fans, max_voltages,
}
use libhwsense.Ite.Fill.{decode-FitsArrays}
use libhwsense.Sio.Port.{World, M, ◌>>=◌, ◌>>◌, pure}
use libhwsense.Sio.Nuvoton.{SioChipInfo, temp_of, fan_of}
use libhwsense.Sio.Probe.{
  ite_filter, ite_win_read, ite_win_write, decode_at, decode_guarded, ite_read_monitor,
  ite_read_chip, ite_probe_and_read,
}
use libhwsense.Sio.Read.{
  temp_body, fan_body, voltage_body, fill, channels, chip_temps, chip_fans, chip_voltages, Pairs,
  try_chip, try_pairs, superio_temps, superio_fans, temp_port_pairs, port_pairs,
}

-- The half-degree register changes nothing: a temperature is its first byte as it stands, without a
-- sign, and refused if it is above 150.
pub temp_of_lem :
    (val half bit : ℕ) → temp_of val half bit ≡ (if ltb 150 val then none else some val)
unfolding temp_of
temp_of_lem val half bit = ground arith

rpm_bound : (count : ℕ) → 21 < count → 1350000 / count ≤ 61363
rpm_bound count h = omega (arith, rpm_lt)
  where
    rpm_lt : 1350000 / count < 61364
    rpm_lt = (div-lt_iff_lt-mul (omega arith)).1 (omega arith)

-- A fan turns at most 61363 times a minute, and not at all for a counter of at most 21.
pub fan_of_bounds :
    (low high : ℕ) → (fan_of low high ≤ 61363) × (word (high % 32) low ≤ 21 → fan_of low high ≡ 0)
unfolding fan_of
fan_of_bounds low high = (ground (arith, rpm_bound (word (high % 32) low)), λ h. ground arith)

-- `Q` holds of what `m` returns, in whatever state it runs.
abbrev Ensures : {S A : Type 0} → (A → Type 0) → M S A → Type 0
Ensures {S} Q m = (w : World S) → Q (m w).0

module _ {S A B : Type 0} (Q : B → Type 0) where
  Ensures-bind : (m : M S A) (f : A → M S B) → ((a : A) → Ensures Q (f a)) → Ensures Q (m >>= f)
  unfolding ◌>>=◌
  Ensures-bind m f h w = h (m w).0 (m w).1

  Ensures-then : (m : M S A) (n : M S B) → Ensures Q n → Ensures Q (m >> n)
  unfolding ◌>>◌
  Ensures-then m n h w = h (m w).1

module _ {S B : Type 0} (Q : B → Type 0) where
  Ensures-pure : (b : B) → Q b → Ensures Q (pure {S = S} b)
  unfolding pure
  Ensures-pure b h w = h

  Ensures-if : (b : Bool) (m n : M S B) → Ensures Q m → Ensures Q n → Ensures Q (if b then m else n)
  Ensures-if true m n hm hn = hm
  Ensures-if false m n hm hn = hn

pub zeroed_fits : FitsArrays zeroed
zeroed_fits = omega arith

refit :
    (r r' : SuperioResult)
    → IsValid max_temps r'.temps
    → IsValid max_fans r'.fans
    → IsValid max_voltages r'.voltages
    → FitsArrays r'
refit r r' t f v = record { temps_fit = t; fans_fit = f; voltages_fit = v }

ite_filter-FitsArrays :
    (t f v : Bool) (r : SuperioResult) → FitsArrays r → FitsArrays (ite_filter t f v r)
unfolding ite_filter
ite_filter-FitsArrays t f v r h = record {
  temps_fit = either t h.temps_fit zeroed_fits.temps_fit;
  fans_fit = either f h.fans_fit zeroed_fits.fans_fit;
  voltages_fit = either v h.voltages_fit zeroed_fits.voltages_fit;
}
  where
    either :
        {max : ℕ} {x y : Slots ℤ} (b : Bool)
        → IsValid max x
        → IsValid max y
        → IsValid max (if b then x else y)
    either true hx hy = hx
    either false hx hy = hy

abbrev IfFound : (SuperioResult → Type 0) → Option SuperioResult → Type 0
IfFound Q none = Unit
IfFound Q (some r) = Q r

module _ {S : Type 0} (read_port : S → ℕ → Option ℕ × S) (write_port : S → ℕ → ℕ → Bool × S) where
  guarded-FitsArrays :
      (id base : ℕ) (out : SuperioResult)
      → FitsArrays out
      → Ensures FitsArrays (decode_guarded read_port write_port id base out)
  unfolding decode_guarded decode_at ◌>>=◌ ◌>>◌ pure
  guarded-FitsArrays id base out h w =
      decode-FitsArrays (ite_win_read read_port write_port base)
        (ite_win_write read_port write_port base) id _ out h

  monitor-FitsArrays :
      (id : ℕ) (name : String) (active base : ℕ)
      → Ensures FitsArrays (ite_read_monitor read_port write_port id name active base)
  unfolding ite_read_monitor
  monitor-FitsArrays id name active base =
      Ensures-if FitsArrays _ _ _
        (Ensures-pure FitsArrays _
          (refit zeroed _ zeroed_fits.temps_fit zeroed_fits.fans_fit zeroed_fits.voltages_fit))
        (guarded-FitsArrays id base _
          (refit zeroed _ zeroed_fits.temps_fit zeroed_fits.fans_fit zeroed_fits.voltages_fit))

  read_chip-FitsArrays :
      (addr data_ id : ℕ) (name : Option String)
      → Ensures (IfFound FitsArrays) (ite_read_chip read_port write_port addr data_ id name)
  unfolding ite_read_chip
  read_chip-FitsArrays addr data_ id none =
      Ensures-then (IfFound FitsArrays) _ _ (Ensures-pure (IfFound FitsArrays) none tt)
  read_chip-FitsArrays addr data_ id (some name) = Ensures-then Q _ _ (
      Ensures-bind Q _ _ λ active. Ensures-bind Q _ _ λ hi.
        Ensures-bind Q _ _ λ lo. Ensures-then Q _ _ (found _ (monitor-FitsArrays id name _ _)))
    where
      Q : Option SuperioResult → Type 0
      Q = IfFound FitsArrays

      found :
          (m : M S SuperioResult)
          → Ensures FitsArrays m
          → Ensures (IfFound FitsArrays) (m >>= λ r. pure (some r))
      found m h w = unfold ◌>>=◌ pure in h w

  probe-FitsArrays :
      (addr data_ : ℕ)
      → Ensures (IfFound FitsArrays) (ite_probe_and_read read_port write_port addr data_)
  unfolding ite_probe_and_read
  probe-FitsArrays addr data_ =
      Ensures-if (IfFound FitsArrays) _ _ _ (Ensures-pure (IfFound FitsArrays) none tt) (
        Ensures-bind (IfFound FitsArrays) _ _ λ entered.
          Ensures-if (IfFound FitsArrays) entered _ _
            (Ensures-bind (IfFound FitsArrays) _ _
              λ hi. Ensures-bind (IfFound FitsArrays) _ _ λ lo. read_chip-FitsArrays addr data_ _ _)
            (Ensures-pure (IfFound FitsArrays) none tt))

  fill-IsValid :
      (max : ℕ) (body : ℕ → M S (Option ℤ)) (n : ℕ) (a : Slots ℤ)
      → IsValid max a
      → Ensures (IsValid max) (fill read_port write_port max body n a)
  unfolding fill
  fill-IsValid max body n a h w = scan-IsValid max body n 0 w a h

  chip_temps-FitsArrays :
      (addr data_ : ℕ) (c : SioChipInfo)
      → Ensures FitsArrays (chip_temps read_port write_port addr data_ c)
  unfolding chip_temps ◌>>=◌ ◌>>◌ pure
  chip_temps-FitsArrays addr data_ c w =
      refit zeroed _
        (fill-IsValid max_temps (temp_body read_port write_port addr data_) _ _
          zeroed_fits.temps_fit _)
        zeroed_fits.fans_fit zeroed_fits.voltages_fit

  -- Seven fans at most are read, so the eight temperatures that they also count as are there.
  chip_fans-FitsArrays :
      (addr data_ : ℕ) (c : SioChipInfo)
      → Ensures FitsArrays (chip_fans read_port write_port addr data_ c)
  unfolding chip_fans ◌>>=◌ ◌>>◌ pure
  chip_fans-FitsArrays addr data_ c w =
      let fans =
        fill-IsValid max_fans (fan_body read_port write_port addr data_) (channels c.kind 7) _
          zeroed_fits.fans_fit _ in
      refit zeroed _ (record { size = refl; used = omega (arith, fans.used) }) fans
        zeroed_fits.voltages_fit

  try_chip-FitsArrays :
      (keep : SuperioResult → SuperioResult) (on_chip : ℕ → ℕ → SioChipInfo → M S SuperioResult)
      (addr data_ : ℕ) (next : M S SuperioResult) (o : Option SuperioResult)
      → ((r : SuperioResult) → FitsArrays r → FitsArrays (keep r))
      → ((c : SioChipInfo) → Ensures FitsArrays (on_chip addr data_ c))
      → Ensures FitsArrays next
      → IfFound FitsArrays o
      → Ensures FitsArrays (try_chip read_port write_port keep on_chip addr data_ next o)
  unfolding try_chip
  try_chip-FitsArrays keep on_chip addr data_ next (some r) filtered chip rest h =
      Ensures-pure FitsArrays (keep r) (filtered r h)
  try_chip-FitsArrays keep on_chip addr data_ next none filtered chip rest h =
      Ensures-bind FitsArrays _ _ (λ c. Ensures-if FitsArrays _ _ _ rest (chip c))

  try_pairs-FitsArrays :
      (nothing : Message) (keep : SuperioResult → SuperioResult)
      (on_chip : ℕ → ℕ → SioChipInfo → M S SuperioResult) (pairs : Pairs)
      → ((r : SuperioResult) → FitsArrays r → FitsArrays (keep r))
      → ((addr data_ : ℕ) (c : SioChipInfo) → Ensures FitsArrays (on_chip addr data_ c))
      → Ensures FitsArrays (try_pairs read_port write_port nothing keep on_chip pairs)
  unfolding try_pairs ◌>>=◌
  try_pairs-FitsArrays nothing keep on_chip [] filtered chip w =
      Ensures-pure FitsArrays _
        (refit zeroed _ zeroed_fits.temps_fit zeroed_fits.fans_fit zeroed_fits.voltages_fit) w
  try_pairs-FitsArrays nothing keep on_chip ((addr, data_) ∷ pairs) filtered chip w =
      try_chip-FitsArrays keep on_chip addr data_ _ _ filtered (chip addr data_)
        (try_pairs-FitsArrays nothing keep on_chip pairs filtered chip)
        (probe-FitsArrays addr data_ w) _

  -- The temperature and the fan reader return counts that lie inside the arrays, whatever the ports
  -- return.
  pub superio-FitsArrays :
      (valid : Bool) (w : World S)
      → FitsArrays (superio_temps read_port write_port valid w).0
        × FitsArrays (superio_fans read_port write_port valid w).0
  unfolding superio_temps superio_fans
  superio-FitsArrays false w =
      let h = refit zeroed _ zeroed_fits.temps_fit zeroed_fits.fans_fit zeroed_fits.voltages_fit in
      (Ensures-pure FitsArrays _ h w, Ensures-pure FitsArrays _ h w)
  superio-FitsArrays true w = (
    try_pairs-FitsArrays _ _ _ temp_port_pairs (ite_filter-FitsArrays true false false)
        chip_temps-FitsArrays w,
    try_pairs-FitsArrays _ _ _ port_pairs (ite_filter-FitsArrays false true false)
        chip_fans-FitsArrays w,
  )

  -- For a chip that is not an ITE chip, the voltage reader returns as its number of temperatures the
  -- number of voltages, up to 16, although no temperature is read and the array holds 8.
  pub chip_voltages_count :
      (addr data_ : ℕ) (c : SioChipInfo) (w : World S)
      → let r = (chip_voltages read_port write_port addr data_ c w).0 in
        (r.temps.count ≡ r.voltages.count)
        × (r.voltages.count ≤ 16)
        × (r.temps.cells ≡ zeroed.temps.cells)
  unfolding chip_voltages ◌>>=◌ ◌>>◌ pure
  chip_voltages_count addr data_ c w =
      let volts =
        fill-IsValid max_voltages (voltage_body read_port write_port addr data_)
          (channels c.kind 16) _ zeroed_fits.voltages_fit _ in
      (omega arith, volts.used, refl)
