-- ===== src/Thermal/Hottest.antt =====
-- core/soc_linux.c: the zones that are listed, and the hottest of those that match.
use libhwsense.Prelude.{
  ℕ, zero, suc, ◌+◌, ◌-◌, ◌≡◌, refl, sym, ap, ◌∙◌, subst, Bool-cases, inl, inr, ◌⊎◌, Bool, Option,
  none, some, List, [], ◌∷◌, ◌++◌, take, All, if◌then◌else◌, arith,
}
use libhwsense.Prelude.Int.{ℤ, ◌≤ℤ◌, ltb_ℤ}
use libhwsense.Text.{Bytes}
use libhwsense.Slots.{Slots, IsValid, readings}
use libhwsense.Slots.Laws.{scan_lem, scan-IsValid, yields}
use libhwsense.Sysfs.{Files}
use libhwsense.Hwmon.Drives.{AtMost, IsReading}
use libhwsense.Thermal.{
  Zone, matching, hotter, read_zone, zone_at, thermal_scan, thermal_zone_max, hottest_from,
  hottest_zone,
}

-- nothing, or the highest of the readings
abbrev pub Hottest : List (Option ℤ) → Option ℤ → Type 0
Hottest os none = All (λ o. o ≡ none) os
Hottest os (some c) = IsReading c os × All (AtMost c) os

-- With a first reading in hand: one of the readings is it or above it.
Hotter : Option ℤ → List (Option ℤ) → Option ℤ → Type 0
Hotter none os r = Hottest os r
Hotter (some b) os none = ⊥
Hotter (some b) os (some c) = (b ≤ℤ c) × All (AtMost c) os × ((c ≡ b) ⊎ IsReading c os)

higher :
    (b v : ℤ) (os : List (Option ℤ)) (r : Option ℤ)
    → b ≤ℤ v
    → Hotter (some v) os r
    → Hotter (some b) (some v ∷ os) r
unfolding Hotter
higher b v os none l h = h
higher b v os (some c) l (k, a, inl e) = (omega arith, (k, a), inr (inl (ap some (sym e))))
higher b v os (some c) l (k, a, inr i) = (omega arith, (k, a), inr (inr i))

lower :
    (b v : ℤ) (os : List (Option ℤ)) (r : Option ℤ)
    → v ≤ℤ b
    → Hotter (some b) os r
    → Hotter (some b) (some v ∷ os) r
unfolding Hotter
lower b v os none l h = h
lower b v os (some c) l (k, a, inl e) = (k, (omega arith, a), inl e)
lower b v os (some c) l (k, a, inr i) = (k, (omega arith, a), inr (inr i))

hotter_step :
    (best o : Option ℤ) (os : List (Option ℤ)) (r : Option ℤ)
    → Hotter (hotter best o) os r
    → Hotter best (o ∷ os) r
unfolding Hotter hotter
hotter_step none none os none h = (refl, h)
hotter_step none none os (some c) (i, a) = (inr i, (tt, a))
hotter_step none (some v) os none h = elim h [ ]
hotter_step none (some v) os (some c) (l, a, inl e) = (inl (ap some (sym e)), (l, a))
hotter_step none (some v) os (some c) (l, a, inr i) = (inr i, (l, a))
hotter_step (some b) none os none h = elim h [ ]
hotter_step (some b) none os (some c) (l, a, inl e) = (l, (tt, a), inl e)
hotter_step (some b) none os (some c) (l, a, inr i) = (l, (tt, a), inr (inr i))
hotter_step (some b) (some v) os r h = elim (Bool-cases (ltb_ℤ b v)) [
  | inl e ↦
      higher b v os r (ground arith) (subst (λ t. Hotter (if t then some v else some b) os r) e h)
  | inr e ↦
      lower b v os r (ground arith) (subst (λ t. Hotter (if t then some v else some b) os r) e h)
]

empty_start :
    (max : ℕ) (out : Slots Zone) (zs : List Zone)
    → out.count ≡ 0
    → readings out ++ take (max - out.count) zs ≡ take max zs
empty_start max out zs e = rw e (ap (λ n. take n zs) (omega arith))

module _ (files : Files) (root : Bytes) where
  -- the temperatures of `n` zones that satisfy a test
  abbrev pub zone_values : (Bytes → Bool) → ℕ → ℕ → List (Option ℤ)
  zone_values test zero idx = []
  zone_values test (suc n) idx =
      matching test (read_zone files root idx) ∷ zone_values test n (idx + 1)

  from_Hotter :
      (test : Bytes → Bool) (n idx : ℕ) (best : Option ℤ)
      → Hotter best (zone_values test n idx) (hottest_from files root test n idx best)
  unfolding hottest_from Hotter
  from_Hotter test zero idx none = tt
  from_Hotter test zero idx (some b) = (omega arith, tt, inl refl)
  from_Hotter test (suc n) idx best =
      hotter_step best (matching test (read_zone files root idx)) _ _
        (from_Hotter test n (idx + 1) _)

  -- With any files, the temperature of the zones that satisfy a test is the highest of these among the
  -- 256 zones, and is missing exactly when none of them has one.
  pub hottest_zone-Hottest :
      (test : Bytes → Bool)
      → Hottest (zone_values test thermal_zone_max 0) (hottest_zone files root test)
  unfolding hottest_zone Hotter
  hottest_zone-Hottest test = from_Hotter test thermal_zone_max 0 none

  -- Into an empty array of `max` cells, a scan writes the first `max` zones that have a type and a
  -- valid temperature, in order, and stays inside the array.
  pub thermal_scan_lem :
      (max : ℕ) (out : Slots Zone)
      → IsValid max out
      → out.count ≡ 0
      → (readings (thermal_scan files root max out)
          ≡ take max (yields (read_zone files root) thermal_zone_max 0))
        × IsValid max (thermal_scan files root max out)
  unfolding thermal_scan zone_at
  thermal_scan_lem max out h e =
      let (t, r) =
        scan_lem max (zone_at files root) tt (read_zone files root) (λ i. refl) thermal_zone_max 0
          out h in
      (
        r ∙ empty_start max out (yields (read_zone files root) thermal_zone_max 0) e,
        scan-IsValid max (zone_at files root) thermal_zone_max 0 tt out h,
      )
