-- ===== src/Sensor/Energy.antt =====
-- The energy counters of core/sensor_math.h.
use libhwsense.Prelude.{ℕ, zero, suc, ◌+◌, ◌*◌, ◌/◌, ◌%◌, ◌^◌, ◌<◌, ◌≡◌, ap, some, arith}
use native.Mathlib.Nat.{pow-suc}
use libhwsense.Prelude.Int.{pos}
use libhwsense.Prelude.Word.{field}
use libhwsense.Sensor.{doubled, rapl_energy_unit, rapl_delta, rapl_power_w}

doubled-pow : (n d : ℕ) → doubled n d ≡ d * 2 ^ n
unfolding doubled
doubled-pow zero d = omega arith
doubled-pow (suc n) d = omega (arith, doubled-pow n (d * 2), ap (λ (t : ℕ). d * t) (pow-suc 2 n))

-- The loop of `hwsense_rapl_energy_unit` computes the power of two that bits 12 to 8 name.
pub rapl_energy_unit_lem : (raw : ℕ) → rapl_energy_unit raw ≡ 2 ^ (raw / 2 ^ 8 % 2 ^ 5)
unfolding rapl_energy_unit
rapl_energy_unit_lem raw = omega (arith, doubled-pow (field raw 8 5) 1)

pub rapl_delta_lem :
    (before spent : ℕ)
    → before < 2 ^ 32
    → spent < 2 ^ 32
    → rapl_delta before ((before + spent) % 2 ^ 32) ≡ spent
unfolding rapl_delta
rapl_delta_lem before spent hb hs = omega arith

-- Less than 2^32 units of energy spent between two samples are counted exactly, whether the 32-bit
-- counter wrapped or not, and divided by the positive time.
pub rapl_power_w_lem :
    (before spent unit_den ms : ℕ)
    → before < 2 ^ 32
    → spent < 2 ^ 32
    → 0 < ms
    → rapl_power_w before ((before + spent) % 2 ^ 32) unit_den (pos ms)
      ≡ some (record { num = spent * 1000; den = unit_den * ms })
unfolding rapl_power_w
rapl_power_w_lem before spent unit_den ms hb hs ht =
    ground (arith, rapl_delta_lem before spent hb hs)
