-- ===== src/Svi2/Tests.antt =====
-- cpu/amd_svi2.c on simulated registers, and the theorem at them.
use libhwsense.Prelude.{ℕ, ◌+◌, ◌*◌, ◌≡◌, refl, Option, some, true, ◌==◌, if◌then◌else◌}
use libhwsense.Svi2.{plane0, core_voltage, soc_voltage, package_power, package_power_lem}

-- 1.1 V with 40 A, and a plane that is off
abbrev smn : ℕ → Unit {0} → Option ℕ × Unit {0}
smn addr s = (if addr == plane0 then some 0xb00028 else some 0x1ff0009, s)

package_power_lem_run :
    let core = (core_voltage smn tt).0 in
    let soc = (soc_voltage smn tt).0 in
    ((package_power smn tt).0.ok ≡ true)
    × ((package_power smn tt).0.volts ≡ core.volts * core.amps + soc.volts * soc.amps)
package_power_lem_run = package_power_lem smn tt tt tt 0xb00028 0x1ff0009 refl refl
