-- ===== src/Zen/Tests.antt =====
-- cpu/amd_zen.c on simulated registers, and the theorem at them.
use libhwsense.Prelude.{ℕ, ◌≡◌, refl, Option, none, some, [], ◌∷◌, All, length, ◌==◌, if◌then◌else◌}
use libhwsense.Prelude.Int.{pos, ◌-ℤ◌}
use libhwsense.Sensor.{amd_ccd_temp_c, amd_ccd_temp_plausible}
use libhwsense.Zen.{max_ccd, ccd_temp, with_entry, ccds_from, ccd_temps, package_temp}
use libhwsense.Zen.Dies.{available, IsPlausible, ccd_temps_lem}

-- the first die at 57 degrees, the second not there, and reads of the others fail
abbrev smn : ℕ → Unit {0} → Option ℕ × Unit {0}
smn addr s = (if addr == 0x59954 then some 0xb50 else if addr == 0x59958 then some 0 else none, s)

ccd_run : (ccd_temps smn tt).0.celsius ≡ some (pos 57000) ∷ none ∷ none ∷ none ∷ []
unfolding ccd_temps ccds_from with_entry ccd_temp amd_ccd_temp_c amd_ccd_temp_plausible ◌-ℤ◌
ccd_run = refl

package_run : (package_temp smn tt).0 ≡ none
unfolding package_temp
package_run = refl

ccd_temps_lem_run :
    let r = (ccd_temps smn tt).0 in
    (length r.celsius ≡ max_ccd) × (r.count ≡ available r.celsius) × All IsPlausible r.celsius
ccd_temps_lem_run = ccd_temps_lem smn tt
