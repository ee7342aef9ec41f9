-- ===== src/Soc.antt =====
-- core/soc_math.h: thermal zones of phones and ARM boards. Temperatures are in thousandths of a degree,
-- in which both readings of a raw value are exact.
pub mod Zones
mod Tests
use libhwsense.Prelude.{ℕ, Bool, true, false, not, ◌&&◌, ◌||◌, Option, none, some, if◌then◌else◌}
use libhwsense.Prelude.Int.{ℤ, pos, negsuc, ltb_ℤ, ◌*ℤ◌}
use libhwsense.Text.{Bytes, codes, starts_with}

abbrev pub is_zero : ℤ → Bool
is_zero raw = not (ltb_ℤ raw (pos 0)) && not (ltb_ℤ (pos 0) raw)

unfoldable pub thermal_decode : ℤ → Option ℤ
thermal_decode raw =
    let c = if ltb_ℤ (negsuc 999) raw && ltb_ℤ raw (pos 1000) then raw *ℤ pos 1000 else raw in
    if is_zero raw
    then none
    else if ltb_ℤ c (negsuc 39999) || ltb_ℤ (pos 150000) c
    then none
    else some c

unfoldable pub thermal_is_cpu_zone : Bytes → Bool
thermal_is_cpu_zone kind =
    starts_with kind (codes "cpu")
    || starts_with kind (codes "mtktscpu")
    || starts_with kind (codes "x86_pkg_temp")
    || starts_with kind (codes "soc-thermal")
    || starts_with kind (codes "soc_thermal")

unfoldable pub thermal_is_gpu_zone : Bytes → Bool
thermal_is_gpu_zone kind = starts_with kind (codes "gpu")
