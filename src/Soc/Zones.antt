-- ===== src/Soc/Zones.antt =====
-- core/soc_math.h: which raw values are temperatures, and which zones name a processor.
use libhwsense.Prelude.{
  ℕ, ◌+◌, ◌*◌, ◌≤◌, ◌<◌, ◌≡◌, ◌↔◌, refl, true, false, none, some, [], ◌∷◌, arith,
}
use libhwsense.Prelude.Int.{pos, negsuc, ◌*ℤ◌}
use libhwsense.Text.{Bytes, starts_with}
use libhwsense.Soc.{thermal_decode, thermal_is_cpu_zone, thermal_is_gpu_zone}

-- A raw value from 1 to 999 is accepted exactly up to 150 and is whole degrees, one from 1000 on is
-- accepted exactly up to 150000 and is millidegrees; a value below 0 likewise, whole degrees down to -40
-- and, from -1000 on downwards, millidegrees down to -40000; and 0 is refused.
pub thermal_decode_lem :
    (n : ℕ)
    → (thermal_decode (pos 0) ≡ none)
      × (0 < n → n < 1000 → (thermal_decode (pos n) ≡ some (pos (n * 1000))) ↔ (n ≤ 150))
      × (1000 ≤ n → (thermal_decode (pos n) ≡ some (pos n)) ↔ (n ≤ 150000))
      × (n < 999 → (thermal_decode (negsuc n) ≡ some (negsuc (n * 1000 + 999))) ↔ (n < 40))
      × (999 ≤ n → (thermal_decode (negsuc n) ≡ some (negsuc n)) ↔ (n < 40000))
unfolding thermal_decode ◌*ℤ◌
thermal_decode_lem n = (
  refl,
  λ a b. (ground arith, ground arith),
  λ a. (ground arith, ground arith),
  λ a. (ground arith, ground arith),
  λ a. (ground arith, ground arith),
)

-- No zone is taken for a sensor of the CPU and of the GPU at once.
pub zones_apart :
    (kind : Bytes) → thermal_is_cpu_zone kind ≡ true → thermal_is_gpu_zone kind ≡ false
unfolding thermal_is_cpu_zone thermal_is_gpu_zone starts_with
zones_apart [] h = refl
zones_apart (c ∷ kind) h = ground arith
