-- ===== src/Zen.antt =====
-- cpu/amd_zen.c: the temperatures of an AMD processor and of its dies. The SMN read is a parameter, and
-- temperatures are in thousandths of a degree.
pub mod Dies
mod Tests
use libhwsense.Prelude.{
  ℕ, zero, suc, ◌+◌, ◌*◌, Bool, true, false, Option, none, some, List, [], ◌∷◌, if◌then◌else◌,
}
use libhwsense.Prelude.Int.{ℤ}
use libhwsense.Sensor.{amd_tctl_c, amd_ccd_temp_c, amd_ccd_temp_plausible}

abbrev pub temp_register : ℕ
temp_register = 0x00059800

abbrev pub ccd_temp_base : ℕ
ccd_temp_base = 0x00059954

abbrev pub max_ccd : ℕ
max_ccd = 4

-- `hwsense_ccd_temps_t`: an entry with `available` 0 is `none`
pub record CcdTemps : Type 0 where
  pub count : ℕ
  pub celsius : List (Option ℤ)

-- what a read gives
unfoldable pub ccd_temp : Option ℕ → Option ℤ
ccd_temp none = none
ccd_temp (some raw) = if amd_ccd_temp_plausible raw then some (amd_ccd_temp_c raw) else none

-- one entry more in front of the others
unfoldable pub with_entry : Option ℤ → CcdTemps → CcdTemps
with_entry none r = record { count = r.count; celsius = none ∷ r.celsius }
with_entry (some t) r = record { count = r.count + 1; celsius = some t ∷ r.celsius }

module _ {S : Type 0} (smn_read : ℕ → S → Option ℕ × S) where
  -- `none` is the error of a failed read
  unfoldable pub package_temp : S → Option ℤ × S
  package_temp s =
      let (raw, s') = smn_read temp_register s in
      (elim raw [ none ↦ none | some r ↦ some (amd_tctl_c r) ], s')

  -- the loop from die `i` on, with the rounds left
  unfoldable pub ccds_from : ℕ → ℕ → S → CcdTemps × S
  ccds_from zero i s = (record { count = 0; celsius = [] }, s)
  ccds_from (suc n) i s =
      let (raw, s₁) = smn_read (ccd_temp_base + i * 4) s in
      let (rest, s₂) = ccds_from n (i + 1) s₁ in (with_entry (ccd_temp raw) rest, s₂)

  -- for a valid context; for another the result is zero and nothing is read
  unfoldable pub ccd_temps : S → CcdTemps × S
  ccd_temps = ccds_from max_ccd 0
