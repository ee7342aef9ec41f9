-- ===== src/Nvme.antt =====
-- storage/nvme_linux.c: decoding the SMART / Health Information log. The log is its list of bytes.
-- Temperatures are in hundredths of a degree.
mod Tests
use libhwsense.Prelude.{
  ℕ, zero, suc, ◌+◌, ◌-◌, ◌*◌, ◌/◌, ◌%◌, ◌^◌, ◌≤◌, ◌<◌, ◌≡◌, refl, subst, sym, ◌∙◌, ap, Bool, true,
  false, Option, none, some, List, [], ◌∷◌, ◌++◌, length, get_or, take, ◌==◌, if◌then◌else◌, arith,
}
use native.Mathlib.Nat.{pow-suc, div-div-eq-div-mul, div-eq_of_lt, div-one, pow-le-pow_right}
use libhwsense.Prelude.Int.{ℤ, pos, ◌-ℤ◌}
use libhwsense.Slots.{Slots, readings, scan, cleared, IsValid}
use libhwsense.Slots.Laws.{scan_lem, yields, scan-IsValid}

-- the loop of `le`, with the rounds left and `v` so far, in `unsigned long long`
unfoldable pub le_from : List ℕ → ℕ → ℕ → ℕ → ℕ
le_from b p zero v = v
le_from b p (suc i) v = le_from b p i ((v * 256 + get_or b (p + i) 0) % 2 ^ 64)

unfoldable pub le : List ℕ → ℕ → ℕ → ℕ
le b p bytes = le_from b p bytes 0

pub record NvmeSmart : Type 0 where
  pub ok : Bool
  pub critical_warning : ℕ
  pub composite_celsius : ℤ
  pub available_spare_pct : ℕ
  pub available_spare_threshold_pct : ℕ
  pub percentage_used : ℕ
  pub data_units_read : ℕ
  pub data_units_written : ℕ
  pub host_read_commands : ℕ
  pub host_write_commands : ℕ
  pub controller_busy_minutes : ℕ
  pub power_cycles : ℕ
  pub power_on_hours : ℕ
  pub unsafe_shutdowns : ℕ
  pub media_errors : ℕ
  pub error_log_entries : ℕ
  pub warning_temp_minutes : ℕ
  pub critical_temp_minutes : ℕ
  pub sensors : Slots ℤ

-- `(double)k - 273.15`
unfoldable pub kelvin : ℕ → ℤ
kelvin k = pos (k * 100) -ℤ pos 27315

-- 0 is a sensor that is not implemented
unfoldable pub sensor_at : List ℕ → ℕ → Option ℤ
sensor_at b i = let k = le b (200 + i * 2) 2 in if k == 0 then none else some (kelvin k)

abbrev pub max_sensors : ℕ
max_sensors = 8

-- the loop over the sensors
unfoldable pub sensors_of : List ℕ → Slots ℤ
sensors_of b =
    (scan {S = Unit {0}} max_sensors (λ i s. (sensor_at b i, s)) 8 0 tt
      (cleared max_sensors (pos 0))).1

unfoldable pub smart_decode : List ℕ → NvmeSmart
smart_decode b = record {
  ok = true;
  critical_warning = get_or b 0 0;
  composite_celsius = kelvin (le b 1 2);
  available_spare_pct = get_or b 3 0;
  available_spare_threshold_pct = get_or b 4 0;
  percentage_used = get_or b 5 0;
  data_units_read = le b 32 8;
  data_units_written = le b 48 8;
  host_read_commands = le b 64 8;
  host_write_commands = le b 80 8;
  controller_busy_minutes = le b 96 8;
  power_cycles = le b 112 8;
  power_on_hours = le b 128 8;
  unsafe_shutdowns = le b 144 8;
  media_errors = le b 160 8;
  error_log_entries = le b 176 8;
  warning_temp_minutes = le b 192 4 % 2 ^ 32;
  critical_temp_minutes = le b 196 4 % 2 ^ 32;
  sensors = sensors_of b;
}

-- the little-endian bytes of a number
unfoldable pub bytes_of : ℕ → ℕ → List ℕ
bytes_of zero x = []
bytes_of (suc n) x = x % 256 ∷ bytes_of n (x / 256)

-- `x >> 8 * i`
unfoldable shifted : ℕ → ℕ → ℕ
shifted zero x = x
shifted (suc i) x = shifted i x / 256

shifted_once : (i x : ℕ) → shifted i (x / 256) ≡ shifted i x / 256
unfolding shifted
shifted_once zero x = refl
shifted_once (suc i) x = ap (λ y. y / 256) (shifted_once i x)

shifted_lem : (i x : ℕ) → shifted i x ≡ x / 256 ^ i
unfolding shifted
shifted_lem zero x = sym (div-one x)
shifted_lem (suc i) x =
    ap (λ y. y / 256) (shifted_lem i x)
    ∙ div-div-eq-div-mul x (256 ^ i) 256
    ∙ ap (λ y. x / y) (sym (pow-suc 256 i))

shifted_le : (i x : ℕ) → shifted i x ≤ x
unfolding shifted
shifted_le zero x = omega arith
shifted_le (suc i) x = omega (arith, shifted_le i x)

get_or-append :
    (before xs : List ℕ) (i : ℕ) → get_or (before ++ xs) (length before + i) 0 ≡ get_or xs i 0
get_or-append [] xs i = ap (λ j. get_or xs j 0) (omega arith)
get_or-append (b ∷ before) xs i =
    let e : suc (length before) + i ≡ suc (length before + i) = omega arith in
    rw e (get_or-append before xs i)

get_or-bytes :
    (n x i : ℕ) (after : List ℕ) → i < n → get_or (bytes_of n x ++ after) i 0 ≡ shifted i x % 256
unfolding bytes_of shifted
get_or-bytes zero x i after h = elim h [ ]
get_or-bytes (suc n) x zero after h = refl
get_or-bytes (suc n) x (suc i) after h =
    get_or-bytes n (x / 256) i after (omega arith) ∙ ap (λ y. y % 256) (shifted_once i x)

le_from_lem :
    (before after : List ℕ) (n x i : ℕ)
    → x < 2 ^ 64
    → i ≤ n
    → le_from (before ++ (bytes_of n x ++ after)) (length before) i (shifted i x) ≡ x
unfolding le_from shifted
le_from_lem before after n x zero h k = refl
le_from_lem before after n x (suc i) h k =
    let byte =
      get_or-append before (bytes_of n x ++ after) i ∙ get_or-bytes n x i after (omega arith) in
    let joined : (shifted i x / 256 * 256 + shifted i x % 256) % 2 ^ 64 ≡ shifted i x =
      omega (arith, shifted_le i x) in
    let log = before ++ (bytes_of n x ++ after) in
    ap (λ y. le_from log (length before) i ((shifted i x / 256 * 256 + y) % 2 ^ 64)) byte
    ∙ ap (λ y. le_from log (length before) i y) joined
    ∙ le_from_lem before after n x i h (omega arith)

-- A little-endian field of up to 8 bytes is read back exactly, wherever it stands in the log.
pub le-bytes_of :
    (before after : List ℕ) (n x : ℕ)
    → n ≤ 8
    → x < 256 ^ n
    → le (before ++ (bytes_of n x ++ after)) (length before) n ≡ x
unfolding le
le-bytes_of before after n x hn hx =
    let none_left : shifted n x ≡ 0 = shifted_lem n x ∙ div-eq_of_lt hx in
    let small : 256 ^ n ≤ 256 ^ 8 = pow-le-pow_right (omega arith) hn in
    subst (λ v. le_from (before ++ (bytes_of n x ++ after)) (length before) n v ≡ x) none_left
      (le_from_lem before after n x n (omega arith) (omega arith))

-- The implemented sensors are recorded in the order of their fields, and those without one are left
-- out; the 8 cells hold them all.
pub smart_sensors_lem :
    (b : List ℕ)
    → (readings (smart_decode b).sensors ≡ take 8 (yields (sensor_at b) 8 0))
      × IsValid max_sensors (smart_decode b).sensors
unfolding smart_decode sensors_of
smart_sensors_lem b = (
  (scan_lem max_sensors (λ i s. (sensor_at b i, s)) tt (sensor_at b) (λ i. refl) 8 0
      (cleared max_sensors (pos 0)) (omega arith)).1,
  scan-IsValid max_sensors (λ i s. (sensor_at b i, s)) 8 0 tt (cleared max_sensors (pos 0))
      (omega arith),
)
