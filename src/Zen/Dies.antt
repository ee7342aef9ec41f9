-- ===== src/Zen/Dies.antt =====
-- cpu/amd_zen.c: the entries of the die temperatures.
use libhwsense.Prelude.{
  ℕ, zero, suc, ◌+◌, ◌*◌, ◌≡◌, refl, true, Bool-cases, inl, inr, Option, none, some, List, [], ◌∷◌,
  All, length, ap, arith,
}
use libhwsense.Prelude.Int.{ℤ, pos, negsuc, ◌≤ℤ◌}
use libhwsense.Sensor.{amd_ccd_temp_c, amd_ccd_temp_plausible}
use libhwsense.Zen.{CcdTemps, max_ccd, ccd_temp, with_entry, ccd_temp_base, ccds_from, ccd_temps}

-- the number of entries that are there
abbrev pub available : List (Option ℤ) → ℕ
available [] = 0
available (none ∷ ts) = available ts
available (some t ∷ ts) = available ts + 1

-- nothing, or a temperature from -40 to 150 degrees
abbrev pub IsPlausible : Option ℤ → Type 0
IsPlausible none = Unit
IsPlausible (some t) = (negsuc 39999 ≤ℤ t) × (t ≤ℤ pos 150000)

plausible_range :
    (raw : ℕ)
    → amd_ccd_temp_plausible raw ≡ true
    → (negsuc 39999 ≤ℤ amd_ccd_temp_c raw) × (amd_ccd_temp_c raw ≤ℤ pos 150000)
unfolding amd_ccd_temp_plausible
plausible_range raw h = ground arith

ccd_temp-IsPlausible : (o : Option ℕ) → IsPlausible (ccd_temp o)
unfolding ccd_temp
ccd_temp-IsPlausible none = tt
ccd_temp-IsPlausible (some raw) = elim (Bool-cases (amd_ccd_temp_plausible raw)) [
  | inl e ↦ rw e (plausible_range raw e)
  | inr e ↦ rw e tt
]

abbrev Good : ℕ → CcdTemps → Type 0
Good n r = (length r.celsius ≡ n) × (r.count ≡ available r.celsius) × All IsPlausible r.celsius

with_entry-Good :
    (n : ℕ) (o : Option ℤ) (r : CcdTemps) → IsPlausible o → Good n r → Good (suc n) (with_entry o r)
unfolding with_entry
with_entry-Good n none r p (l, c, a) = (ap suc l, c, (p, a))
with_entry-Good n (some t) r p (l, c, a) = (ap suc l, ap (λ (k : ℕ). k + 1) c, (p, a))

module _ {S : Type 0} (smn_read : ℕ → S → Option ℕ × S) where
  ccds-Good : (n i : ℕ) (s : S) → Good n (ccds_from smn_read n i s).0
  unfolding ccds_from
  ccds-Good zero i s = (refl, refl, tt)
  ccds-Good (suc n) i s =
      with_entry-Good n (ccd_temp (smn_read (ccd_temp_base + i * 4) s).0) _ (ccd_temp-IsPlausible _)
        (ccds-Good n (i + 1) _)

  -- Whatever the registers hold, the reader fills an entry for each of the four dies, counts exactly the
  -- entries that are there, and gives only temperatures from -40 to 150 degrees.
  pub ccd_temps_lem :
      (s : S)
      → let r = (ccd_temps smn_read s).0 in
        (length r.celsius ≡ max_ccd) × (r.count ≡ available r.celsius) × All IsPlausible r.celsius
  unfolding ccd_temps
  ccd_temps_lem s = ccds-Good max_ccd 0 s
