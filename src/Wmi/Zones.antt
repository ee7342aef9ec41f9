-- ===== src/Wmi/Zones.antt =====
-- core/wmi.c: where the temperatures come from, and numbers that the 16 bits of `iVal` hold.
use libhwsense.Prelude.{ℕ, zero, suc, ◌<◌, ◌≡◌, refl, true, List, [], ◌∷◌, take, arith}
use libhwsense.Prelude.Int.{ℤ, pos}
use libhwsense.Slots.Chosen.{chosen, collect-take}
use libhwsense.Text.{codes}
use libhwsense.Wmi.{
  Object, Wmi, short, answer, zone_temp, probe_temp, or_probes, read_thermal_zones,
}

-- the first `n` of the zones, or of the probes when there is no zone
first_ones :
    (n : ℕ) (zones probes : List ℤ)
    → or_probes (take n zones) (take n probes) ≡ take n (or_probes zones probes)
first_ones zero [] probes = refl
first_ones zero (z ∷ zones) probes = refl
first_ones (suc n) [] probes = refl
first_ones (suc n) (z ∷ zones) probes = refl

-- After the initialisation, the temperatures are the first `max_temps` of those that the thermal zones give, or,
-- when no zone gives any, of those that the temperature probes give.
pub read_thermal_zones_lem :
    (w : Wmi) (max_temps : ℕ)
    → w.initialized ≡ true
    → read_thermal_zones w max_temps
      ≡ take max_temps (
          or_probes
            (chosen zone_temp
              (answer w.svc_wmi (codes "SELECT * FROM MSAcpi_ThermalZoneTemperature")))
            (chosen probe_temp (answer w.svc_cim (codes "SELECT * FROM Win32_TemperatureProbe"))))
unfolding read_thermal_zones
read_thermal_zones_lem w max_temps h =
    rw (h, collect-take {A = Object} zone_temp, collect-take {A = Object} probe_temp)
      (first_ones max_temps _ _)

-- A property of the type VT_I4 is read exactly when it is below 2^15, and otherwise as another number.
pub short_lem : (n : ℕ) → (n < 32768 → short n ≡ pos n) × (short n ≡ pos n → n < 32768)
unfolding short
short_lem n = (λ h. ground arith, λ h. ground arith)
