-- ===== src/Intel/Power.antt =====
-- cpu/intel.c: what the power readers count, beside core/sensor_math.h.
use libhwsense.Prelude.{
  ℕ, suc, ◌+◌, ◌*◌, ◌/◌, ◌%◌, ◌^◌, ◌≤◌, ◌<◌, ◌≡◌, ◌↔◌, ◌∙◌, refl, ap, sym, false, Option, some,
  List, [], ◌∷◌, All, ◌==◌, arith,
}
use native.Mathlib.Nat.{pow-suc, pow-le-pow_right}
use libhwsense.Prelude.Word.{field}
use libhwsense.Sensor.{Watts, rapl_energy_unit}
use libhwsense.Sensor.Energy.{rapl_energy_unit_lem}
use libhwsense.Intel.Rapl.{
  PowerState, sampled, dword_sub, energy_unit_of, get_rapl_energy_unit, on_sample,
}

pow_lt : (a b : ℕ) → a < b → 2 ^ a < 2 ^ b
pow_lt a b h =
    let le : 2 ^ suc a ≤ 2 ^ b = pow-le-pow_right (omega arith) (omega arith) in
    let one : 2 ^ 0 ≤ 2 ^ a = pow-le-pow_right (omega arith) {i = 0} (omega arith) in
    omega (arith, le, one, pow-suc 2 a)

pow_inj : (a b : ℕ) → 2 ^ a ≡ 2 ^ b → a ≡ b
pow_inj a b h = grind (arith, h, pow_lt a b, pow_lt b a)

-- This reader's energy unit, from bits 4 to 0 of the register, is that of core/sensor_math.h, from
-- bits 12 to 8, exactly for the registers that hold the same number in both fields.
pub energy_unit_iff :
    (raw : ℕ)
    → raw < 2 ^ 32
    → (energy_unit_of (some raw) ≡ rapl_energy_unit raw) ↔ (raw % 2 ^ 5 ≡ raw / 2 ^ 8 % 2 ^ 5)
unfolding energy_unit_of
energy_unit_iff raw h =
    let same : field (raw % 2 ^ 32) 0 5 ≡ raw % 2 ^ 5 = omega arith in
    (
      λ e. pow_inj _ _ (ap (λ x. 2 ^ x) (sym same) ∙ e ∙ rapl_energy_unit_lem raw),
      λ e. ap (λ x. 2 ^ x) (same ∙ e) ∙ sym (rapl_energy_unit_lem raw),
    )

dword_sub-elapsed : (a d : ℕ) → d < 2 ^ 32 → dword_sub ((a + d) % 2 ^ 32) (a % 2 ^ 32) ≡ d
unfolding dword_sub
dword_sub-elapsed a d h = omega arith

-- The samples that a reader takes, from a total of `E` units of energy and `T` milliseconds on, when
-- the given energies are spent in the given times.
abbrev pub samples : ℕ → ℕ → List (ℕ × ℕ) → List (ℕ × ℕ)
samples E T [] = []
samples E T ((spent, ms) ∷ rest) =
    ((E + spent) % 2 ^ 32, (T + ms) % 2 ^ 32) ∷ samples (E + spent) (T + ms) rest

-- the sum of the numerators, a thousand times the units of energy that the calls counted
abbrev pub counted : List Watts → ℕ
counted [] = 0
counted (w ∷ ws) = w.num + counted ws

abbrev pub spent_in : List (ℕ × ℕ) → ℕ
spent_in [] = 0
spent_in ((spent, ms) ∷ rest) = spent + spent_in rest

abbrev pub Paced : ℕ × ℕ → Type 0
Paced (spent, ms) = (spent < 2 ^ 32) × (0 < ms) × (ms < 2 ^ 32)

module _ {S : Type 0} (set_affinity : ℕ → S → Option ℕ × S) (rdmsr : ℕ → S → Option ℕ × S)
    (get_tick : S → ℕ × S) where
  -- A call that follows a sample by less than 2^32 units of energy and less than 2^32 ms, but not 0 ms,
  -- returns the energy spent over the time, also across a wrap of either 32-bit counter, and keeps the
  -- new sample.
  pub on_sample_lem :
      (E T spent ms : ℕ) (s : S)
      → spent < 2 ^ 32
      → 0 < ms
      → ms < 2 ^ 32
      → let (unit, s') = get_rapl_energy_unit set_affinity rdmsr get_tick s in
        on_sample set_affinity rdmsr get_tick
          (sampled (E % 2 ^ 32) (T % 2 ^ 32))
          ((E + spent) % 2 ^ 32)
          ((T + ms) % 2 ^ 32)
          s
        ≡ (
          record { num = spent * 1000; den = unit * ms },
          (sampled ((E + spent) % 2 ^ 32) ((T + ms) % 2 ^ 32), s'),
        )
  unfolding on_sample
  on_sample_lem E T spent ms s he h0 ht =
      let de : dword_sub ((E + spent) % 2 ^ 32) (E % 2 ^ 32) ≡ spent =
        dword_sub-elapsed E spent he in
      let dt : dword_sub ((T + ms) % 2 ^ 32) (T % 2 ^ 32) ≡ ms = dword_sub-elapsed T ms ht in
      let z : (ms == 0) ≡ false = ground arith in rw (de, dt, z) refl

  -- the calls of a reader with these samples
  unfoldable pub run : List (ℕ × ℕ) → PowerState → S → List Watts
  run [] st s = []
  run ((energy, tick) ∷ rest) st s =
      let (w, (st', s')) = on_sample set_affinity rdmsr get_tick st energy tick s in
      w ∷ run rest st' s'

  -- No energy is lost or counted twice over any number of calls: if each follows the one before by less
  -- than 2^32 units and by 1 to 2^32 - 1 ms, what they count adds up to all the units spent, in
  -- thousandths.
  pub run_counts :
      (steps : List (ℕ × ℕ)) (E T : ℕ) (s : S)
      → All Paced steps
      → counted (run (samples E T steps) (sampled (E % 2 ^ 32) (T % 2 ^ 32)) s)
        ≡ 1000 * spent_in steps
  unfolding run
  run_counts [] E T s h = refl
  run_counts ((spent, ms) ∷ rest) E T s ((he, h0, ht), h) =
      rw (on_sample_lem E T spent ms s he h0 ht) (
        omega (
          arith,
          run_counts rest (E + spent) (T + ms)
              (get_rapl_energy_unit set_affinity rdmsr get_tick s).1 h,
        ))
