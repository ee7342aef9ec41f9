-- ===== src/CpuClock/Mean.antt =====
-- core/sensors_linux.c: the clock lies between those of the processors.
use native.Mathlib.Nat.{le-div_iff_mul-le, div-le_of_le-mul, mul_comm, mul-le-mul_right}
use libhwsense.Prelude.{
  ℕ, zero, suc, ◌+◌, ◌*◌, ◌/◌, ◌≤◌, ◌<◌, ◌≡◌, refl, subst, Bool, true, false, ◌⊎◌, inl, inr, Option,
  none, some, List, [], ◌∷◌, All, ◌==◌, if◌then◌else◌, arith,
}
use libhwsense.Prelude.Int.{ℤ, pos, negsuc, ◌≤ℤ◌, ◌+ℤ◌, to_int, to_long}
use libhwsense.Text.{Bytes, codes}
use libhwsense.CpuTemp.{lines_of}
use libhwsense.Sysfs.{Files}
use libhwsense.CpuClock.{
  Total, cpu_khz, sum_khz, line_mhz, add_some, add_long, go_on, sum_mhz, mean_or_minus_one,
  cpuinfo_clock, cpu_core_clock,
}

-- every value that is given is from `lo` to `hi` MHz, in thousandths
abbrev pub IsWithin : ℕ → ℕ → Option ℤ → Type 0
IsWithin lo hi none = Unit
IsWithin lo hi (some v) = (pos (lo * 1000) ≤ℤ v) × (v ≤ℤ pos (hi * 1000))

abbrev SumWithin : ℕ → ℕ → Total → Type 0
SumWithin lo hi (sum, n) = (pos (n * (lo * 1000)) ≤ℤ sum) × (sum ≤ℤ pos (n * (hi * 1000)))

one_more : (n x : ℕ) → (n + 1) * x ≡ n * x + x
one_more n x = grind arith

add-SumWithin :
    (lo hi : ℕ) (t : Total) (v : Option ℤ)
    → SumWithin lo hi t
    → IsWithin lo hi v
    → SumWithin lo hi (add_some v t)
unfolding ◌+ℤ◌
add-SumWithin lo hi (sum, n) none h k = h
add-SumWithin lo hi (pos s, n) (some (pos v)) (h, h') (k, k') =
    (ground (arith, one_more n (lo * 1000)), ground (arith, one_more n (hi * 1000)))
add-SumWithin lo hi (negsuc s, n) (some v) (h, h') k = absurd (omega arith)
add-SumWithin lo hi (pos s, n) (some (negsuc v)) h (k, k') = absurd (omega arith)

div_lo : (s n x : ℕ) → 0 < n → n * x ≤ s → x ≤ s / n
div_lo s n x p h = (le-div_iff_mul-le p).1 (subst (λ (m : ℕ). m ≤ s) (mul_comm n x) h)

div_hi : (s n x : ℕ) → 0 < n → s ≤ n * x → s / n ≤ x
div_hi s n x p h = div-le_of_le-mul n h

fits_int : (n : ℕ) → n < 2147483648 → to_int (pos n) ≡ pos n
fits_int n h = ground arith

mean-Within :
    (lo hi : ℕ) (t : Total)
    → hi < 2147483648
    → SumWithin lo hi t
    → (mean_or_minus_one 1000 t ≡ negsuc 0)
      ⊎ ((pos lo ≤ℤ mean_or_minus_one 1000 t) × (mean_or_minus_one 1000 t ≤ℤ pos hi))
unfolding mean_or_minus_one
mean-Within lo hi (negsuc s, n) small (h, h') = absurd (omega arith)
mean-Within lo hi (pos s, zero) small h = inl refl
mean-Within lo hi (pos s, suc n) small (h, h') =
    let some_of_them : (suc n == 0) ≡ false = ground arith in
    let low = div_lo s (suc n) (lo * 1000) (omega arith) (omega arith) in
    let high = div_hi s (suc n) (hi * 1000) (omega arith) (omega arith) in
    rw (some_of_them, fits_int (s / suc n / 1000) (omega (arith, high, small)))
      (inr (omega (arith, low), omega (arith, high)))

go_on-SumWithin :
    (lo hi : ℕ) (v : Option ℤ) (rest t : Total)
    → SumWithin lo hi rest
    → SumWithin lo hi t
    → SumWithin lo hi (go_on v rest t)
go_on-SumWithin lo hi none rest t h k = k
go_on-SumWithin lo hi (some v) rest t h k = h

fits_long : (n : ℕ) → n < 9223372036854775808 → to_long (pos n) ≡ pos n
fits_long n h = ground arith

times_small : (n hi : ℕ) → n ≤ 1024 → n * (hi * 1000) ≤ 1024 * (hi * 1000)
times_small n hi h = mul-le-mul_right (hi * 1000) h

-- The sum of at most 1024 values fits a `long`.
long-SumWithin :
    (lo hi : ℕ) (t : Total)
    → hi < 2147483648
    → t.1 ≤ 1024
    → SumWithin lo hi t
    → SumWithin lo hi (to_long t.0, t.1)
long-SumWithin lo hi (negsuc s, n) small few h = absurd (omega arith)
long-SumWithin lo hi (pos s, n) small few (h, h') =
    rw (fits_long s (omega (arith, times_small n hi few, small, h'))) (h, h')

add_long-SumWithin :
    (lo hi : ℕ) (t : Total) (v : Option ℤ)
    → hi < 2147483648
    → t.1 < 1024
    → SumWithin lo hi t
    → IsWithin lo hi v
    → SumWithin lo hi (add_long v t)
add_long-SumWithin lo hi (sum, n) none small few h k = h
add_long-SumWithin lo hi (sum, n) (some v) small few h k =
    long-SumWithin lo hi (sum +ℤ v, n + 1) small (omega arith)
      (add-SumWithin lo hi (sum, n) (some v) h k)

add_long-le : (v : Option ℤ) (t : Total) → (add_long v t).1 ≤ t.1 + 1
add_long-le none t = omega arith
add_long-le (some v) (sum, n) = omega arith

khz-SumWithin :
    (files : Files) (lo hi n cpu : ℕ) (t : Total)
    → hi < 2147483648
    → t.1 + n ≤ 1024
    → ((c : ℕ) → IsWithin lo hi (cpu_khz files c))
    → SumWithin lo hi t
    → SumWithin lo hi (sum_khz files n cpu t)
unfolding sum_khz
khz-SumWithin files lo hi zero cpu t small few w h = h
khz-SumWithin files lo hi (suc n) cpu t small few w h =
    go_on-SumWithin lo hi (cpu_khz files cpu) _ t
      (khz-SumWithin files lo hi n (cpu + 1) _ small
        (omega (arith, add_long-le (cpu_khz files cpu) t)) w
        (add_long-SumWithin lo hi t (cpu_khz files cpu) small (omega arith) h (w cpu)))
      h

mhz-SumWithin :
    (scan_double : Bytes → Option ℤ) (lo hi : ℕ) (lines : List Bytes) (t : Total)
    → All (λ line. IsWithin lo hi (line_mhz scan_double line)) lines
    → SumWithin lo hi t
    → SumWithin lo hi (sum_mhz scan_double lines t)
unfolding sum_mhz
mhz-SumWithin scan_double lo hi [] t w h = h
mhz-SumWithin scan_double lo hi (line ∷ lines) t (k, w) h =
    mhz-SumWithin scan_double lo hi lines _ w
      (add-SumWithin lo hi t (line_mhz scan_double line) h k)

abbrev pub ClockWithin : ℕ → ℕ → ℤ → Type 0
ClockWithin lo hi clock = (clock ≡ negsuc 0) ⊎ ((pos lo ≤ℤ clock) × (clock ≤ℤ pos hi))

-- so too in the lines of a file
abbrev pub LinesWithin : (Bytes → Option ℤ) → ℕ → ℕ → Option Bytes → Type 0
LinesWithin scan_double lo hi none = Unit
LinesWithin scan_double lo hi (some text) =
    All (λ line. IsWithin lo hi (line_mhz scan_double line)) (lines_of 256 text)

cpuinfo-Within :
    (scan_double : Bytes → Option ℤ) (lo hi : ℕ) (text : Option Bytes)
    → hi < 2147483648
    → LinesWithin scan_double lo hi text
    → ClockWithin lo hi (cpuinfo_clock scan_double text)
unfolding cpuinfo_clock
cpuinfo-Within scan_double lo hi none small w = inl refl
cpuinfo-Within scan_double lo hi (some text) small w =
    mean-Within lo hi _ small
      (mhz-SumWithin scan_double lo hi (lines_of 256 text) (pos 0, 0) w (omega arith, omega arith))

if-ClockWithin :
    (lo hi : ℕ) (b : Bool) (x y : ℤ)
    → ClockWithin lo hi x
    → ClockWithin lo hi y
    → ClockWithin lo hi (if b then x else y)
if-ClockWithin lo hi true x y h k = h
if-ClockWithin lo hi false x y h k = k

-- If every frequency that the kernel gives, in the files of the processors and in /proc/cpuinfo, is from
-- `lo` to `hi` MHz, and `hi` fits an `int`, then the clock is from `lo` to `hi` too, or it is -1.
pub cpu_core_clock-Within :
    (files : Files) (scan_double : Bytes → Option ℤ) (lo hi : ℕ)
    → hi < 2147483648
    → ((cpu : ℕ) → IsWithin lo hi (cpu_khz files cpu))
    → LinesWithin scan_double lo hi (files (codes "/proc/cpuinfo"))
    → ClockWithin lo hi (cpu_core_clock files scan_double)
unfolding cpu_core_clock
cpu_core_clock-Within files scan_double lo hi small w w' =
    let h =
      khz-SumWithin files lo hi 1024 0 (pos 0, 0) small (omega arith) w
        (omega arith, omega arith) in
    if-ClockWithin lo hi _ _ _ (cpuinfo-Within scan_double lo hi _ small w')
      (mean-Within lo hi _ small h)
