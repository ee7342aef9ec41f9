-- ===== src/Wmi/Tests.antt =====
-- core/wmi.c on a few objects, and the theorem at them.
use libhwsense.Prelude.{ℕ, ◌≡◌, refl, true, none, some, [], ◌∷◌, take, if◌then◌else◌}
use libhwsense.Prelude.Int.{pos, ◌-ℤ◌, ◌*ℤ◌}
use libhwsense.Text.{Bytes, codes}
use libhwsense.Sysfs.{same}
use libhwsense.Slots.Chosen.{collect, chosen}
use libhwsense.Wmi.{
  bstr, i4, Object, Service, Wmi, short, i_val, int_of, get_int, answer, zone_temp, probe_temp,
  or_probes, read_thermal_zones, read_cpu_info, fan_of,
}
use libhwsense.Wmi.Zones.{read_thermal_zones_lem}

abbrev with_number : Bytes → ℕ → Object
with_number name n key = if same key name then some (i4 n) else none

-- a zone without a temperature, and two with one
abbrev zones : Service
zones query = some (
    with_number (codes "Name") 0
    ∷ with_number (codes "CurrentTemperature") 3032
    ∷ with_number (codes "CurrentTemperature") 2982
    ∷ [])

abbrev wmi : Wmi
wmi = record { initialized = true; svc_wmi = some zones; svc_cim = none }

zones_run : read_thermal_zones wmi 1 ≡ pos 300 ∷ []
unfolding read_thermal_zones collect zone_temp get_int int_of short same ◌-ℤ◌
zones_run = refl

read_thermal_zones_lem_run :
    read_thermal_zones wmi 1
    ≡ take 1 (
        or_probes
          (chosen zone_temp
            (answer wmi.svc_wmi (codes "SELECT * FROM MSAcpi_ThermalZoneTemperature")))
          (chosen probe_temp (answer wmi.svc_cim (codes "SELECT * FROM Win32_TemperatureProbe"))))
read_thermal_zones_lem_run = read_thermal_zones_lem wmi 1 refl

-- A processor whose object has no voltage: what the caller's memory held is multiplied and kept.
no_voltage_run :
    (read_cpu_info
      (record {
        initialized = true;
        svc_wmi = none;
        svc_cim = some (λ q. some (with_number (codes "MaxClockSpeed") 3600 ∷ []));
      })
      (record {
        name = [];
        max_clock_mhz = pos 0;
        current_clock_mhz = pos 0;
        voltage_mv = pos 77;
        load_percent = pos 0;
        temperature = pos 0;
      })).1.voltage_mv
    ≡ pos 7700
unfolding read_cpu_info get_int int_of same ◌*ℤ◌
no_voltage_run = refl

-- WMI gives the 64-bit `DesiredSpeed` as a text, of which `iVal` is a part of the address.
fan_text_run :
    (fan_of
      (record { name = []; active_cooling = true; desired_speed = pos 0 })
      (λ key.
        if same key (codes "DesiredSpeed")
        then some (bstr (codes "1200") 0x4a10)
        else none)).desired_speed
    ≡ pos 0x4a10
unfolding fan_of i_val short same
fan_text_run = refl
