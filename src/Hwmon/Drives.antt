-- ===== src/Hwmon/Drives.antt =====
-- core/sensors_linux.c: the temperature of the hottest drive.
use libhwsense.Prelude.{
  ℕ, zero, suc, ◌+◌, ◌≡◌, refl, sym, subst, ap, Bool-cases, inl, inr, ◌⊎◌, true, Option, none, some,
  List, [], ◌∷◌, All, if◌then◌else◌, arith,
}
use libhwsense.Prelude.Int.{ℤ, pos, negsuc, ◌≤ℤ◌, ltb_ℤ}
use libhwsense.Board.{degrees}
use libhwsense.Sysfs.{Files, hwmon_max}
use libhwsense.Hwmon.{drive_reading, improved, best_drive, nvme_temperature}

-- at most `r`, when there is a reading
abbrev pub AtMost : ℤ → Option ℤ → Type 0
AtMost r none = Unit
AtMost r (some v) = v ≤ℤ r

-- `r` is one of the readings.
abbrev pub IsReading : ℤ → List (Option ℤ) → Type 0
IsReading r [] = ⊥
IsReading r (o ∷ os) = (o ≡ some r) ⊎ IsReading r os

Best : List (Option ℤ) → ℤ → ℤ → Type 0
Best os best r = (best ≤ℤ r) × All (AtMost r) os × ((r ≡ best) ⊎ IsReading r os)

step_none : (os : List (Option ℤ)) (best r : ℤ) → Best os best r → Best (none ∷ os) best r
unfolding Best
step_none os best r (b, all, inl e) = (b, (tt, all), inl e)
step_none os best r (b, all, inr h) = (b, (tt, all), inr (inr h))

step_better :
    (os : List (Option ℤ)) (best v r : ℤ) → best ≤ℤ v → Best os v r → Best (some v ∷ os) best r
unfolding Best
step_better os best v r l (b, all, inl e) = (omega arith, (b, all), inr (inl (ap some (sym e))))
step_better os best v r l (b, all, inr h) = (omega arith, (b, all), inr (inr h))

step_worse :
    (os : List (Option ℤ)) (best v r : ℤ) → v ≤ℤ best → Best os best r → Best (some v ∷ os) best r
unfolding Best
step_worse os best v r l (b, all, inl e) = (b, (omega arith, all), inl e)
step_worse os best v r l (b, all, inr h) = (b, (omega arith, all), inr (inr h))

improved_step :
    (os : List (Option ℤ)) (best : ℤ) (o : Option ℤ) (r : ℤ)
    → Best os (improved best o) r
    → Best (o ∷ os) best r
unfolding improved
improved_step os best none r h = step_none os best r h
improved_step os best (some v) r h = elim (Bool-cases (ltb_ℤ best v)) [
  | inl e ↦
      step_better os best v r (ground arith) (subst (λ b. Best os (if b then v else best) r) e h)
  | inr e ↦
      step_worse os best v r (ground arith) (subst (λ b. Best os (if b then v else best) r) e h)
]

-- the last line
abbrev rounded : ℤ → ℤ
rounded best = if ltb_ℤ best (pos 0) then negsuc 0 else degrees best

below_zero : (r : ℤ) → negsuc 0 ≤ℤ r → ltb_ℤ r (pos 0) ≡ true → r ≡ negsuc 0
below_zero r h e = ground arith

rounded_lem :
    (rs : List (Option ℤ)) (r : ℤ)
    → Best rs (negsuc 0) r
    → ((rounded r ≡ negsuc 0) × All (AtMost (negsuc 0)) rs)
      ⊎ ((v : ℤ) × IsReading v rs × All (AtMost v) rs × (rounded r ≡ degrees v))
unfolding Best
rounded_lem rs r (b, all, inl e) = inl (rw e refl, subst (λ x. All (AtMost x) rs) e all)
rounded_lem rs r (b, all, inr h) = elim (Bool-cases (ltb_ℤ r (pos 0))) [
  | inl e ↦ inl (rw e refl, subst (λ x. All (AtMost x) rs) (below_zero r b e) all)
  | inr e ↦ inr (r, h, all, rw e refl)
]

module _ (files : Files) where
  -- the readings of `n` devices
  abbrev pub drive_readings : ℕ → ℕ → List (Option ℤ)
  drive_readings zero hw = []
  drive_readings (suc n) hw = drive_reading files hw ∷ drive_readings n (hw + 1)

  best_drive-Best :
      (n hw : ℕ) (best : ℤ) → Best (drive_readings n hw) best (best_drive files n hw best)
  unfolding best_drive Best
  best_drive-Best zero hw best = (omega arith, tt, inl refl)
  best_drive-Best (suc n) hw best =
      improved_step (drive_readings n (hw + 1)) best (drive_reading files hw) _
        (best_drive-Best n (hw + 1) (improved best (drive_reading files hw)))

  -- With any files, the result is -1 and no drive reports 0 or more, or it is the highest reading of
  -- the drives among the 64 devices, in degrees.
  pub nvme_temperature_lem :
      let rs = drive_readings hwmon_max 0 in
      ((nvme_temperature files ≡ negsuc 0) × All (AtMost (negsuc 0)) rs)
      ⊎ ((r : ℤ) × IsReading r rs × All (AtMost r) rs × (nvme_temperature files ≡ degrees r))
  unfolding nvme_temperature
  nvme_temperature_lem =
      rounded_lem (drive_readings hwmon_max 0) _ (best_drive-Best hwmon_max 0 (negsuc 0))
