-- ===== src/CpuTemp/Sources.antt =====
-- core/driver_linux.c: the lines that are read, and the source of the temperature.
use libhwsense.Prelude.{
  ℕ, ◌-◌, ◌≤◌, ◌<◌, ◌≡◌, refl, ap, ◌∙◌, Bool-cases, inl, inr, Bool, true, false, ◌&&◌, ◌||◌, Option,
  some, List, [], ◌∷◌, ◌++◌, length, All, ◌==◌, arith,
}
use libhwsense.Prelude.Int.{ℤ}
use libhwsense.Text.{Bytes}
use libhwsense.Sysfs.{Files}
use libhwsense.Export.Append.{concat}
use libhwsense.Hwmon.{TempResult, celsius, failure, hwmon_cpu_temp}
use libhwsense.Thermal.{thermal_cpu_temp}
use libhwsense.CpuTemp.{
  as_lines, split, lines_of, Vendor, intel, amd, arm, unknown, intel_core_temp, thermal_root,
  first_source, cpu_package_temp,
}

as_lines-concat : (r : Bytes × List Bytes) → concat (as_lines r) ≡ r.0 ++ concat r.1
unfolding as_lines
as_lines-concat ([], lines) = refl
as_lines-concat (c ∷ s, lines) = refl

split-concat :
    (size room : ℕ) (s : Bytes) → (split size room s).0 ++ concat (split size room s).1 ≡ s
unfolding split
split-concat size room [] = refl
split-concat size room (c ∷ s) =
    let full = ap (λ t. c ∷ t) (as_lines-concat (split size size s) ∙ split-concat size size s) in
    elim (Bool-cases (c == 10)) [
      | inl e ↦ rw e full
      | inr e ↦ elim (Bool-cases (room == 1)) [
        | inl f ↦ rw (e, f) full
        | inr f ↦ rw (e, f) (ap (λ t. c ∷ t) (split-concat size (room - 1) s))
      ]
    ]

-- a line that a buffer of `size` bytes and a terminator holds
IsLine : ℕ → Bytes → Type 0
IsLine size line = (0 < length line) × (length line ≤ size)

as_lines-IsLine :
    (size : ℕ) (r : Bytes × List Bytes)
    → length r.0 ≤ size
    → All (IsLine size) r.1
    → All (IsLine size) (as_lines r)
unfolding as_lines IsLine
as_lines-IsLine size ([], lines) h a = a
as_lines-IsLine size (c ∷ s, lines) h a = ((omega arith, h), a)

split-IsLine :
    (size room : ℕ) (s : Bytes)
    → 1 ≤ room
    → room ≤ size
    → (length (split size room s).0 ≤ room) × All (IsLine size) (split size room s).1
unfolding split
split-IsLine size room [] h k = (omega arith, tt)
split-IsLine size room (c ∷ s) h k =
    let (l, a) = split-IsLine size size s (omega arith) (omega arith) in
    let rest = as_lines-IsLine size (split size size s) l a in
    elim (Bool-cases (c == 10)) [
      | inl e ↦ rw e (omega arith, rest)
      | inr e ↦ elim (Bool-cases (room == 1)) [
        | inl f ↦ rw (e, f) (omega arith, rest)
        | inr f ↦
            let (l', a') = split-IsLine size (room - 1) s (ground arith) (omega arith) in
            rw (e, f) (ground arith, a')
      ]
    ]

with_terminator :
    (n : ℕ) (lines : List Bytes)
    → 1 ≤ n
    → All (IsLine (n - 1)) lines
    → All (λ line. (0 < length line) × (length line < n)) lines
unfolding IsLine
with_terminator n [] h a = tt
with_terminator n (line ∷ lines) h ((some_byte, fits), a) =
    ((some_byte, omega arith), with_terminator n lines h a)

-- Reading a text line by line into a buffer of at least two bytes loses nothing and repeats nothing:
-- the lines are not empty, fit into the buffer, and are together the text.
pub lines_of-concat :
    (n : ℕ) (text : Bytes)
    → 2 ≤ n
    → (concat (lines_of n text) ≡ text)
      × All (λ line. (0 < length line) × (length line < n)) (lines_of n text)
unfolding lines_of
lines_of-concat n text h =
    let (l, a) = split-IsLine (n - 1) (n - 1) text (omega arith) (omega arith) in
    let r = split (n - 1) (n - 1) text in
    (
      as_lines-concat r ∙ split-concat (n - 1) (n - 1) text,
      with_terminator n (as_lines r) (omega arith) (as_lines-IsLine (n - 1) r l a),
    )

abbrev pub is_intel : Vendor → Bool
is_intel intel = true
is_intel _ = false

-- the temperature, when there is one
abbrev pub has_temp : TempResult → Bool
has_temp (celsius c) = true
has_temp (failure e) = false

first_source_lem :
    (vendor : Vendor) (h m z : TempResult)
    → has_temp (first_source vendor h m z)
      ≡ (has_temp h || is_intel vendor && has_temp m || has_temp z)
unfolding first_source
first_source_lem intel (celsius c) m z = refl
first_source_lem amd (celsius c) m z = refl
first_source_lem arm (celsius c) m z = refl
first_source_lem unknown (celsius c) m z = refl
first_source_lem intel (failure e) (celsius c) z = refl
first_source_lem intel (failure e) (failure m) (celsius c) = refl
first_source_lem intel (failure e) (failure m) (failure z) = refl
first_source_lem amd (failure e) m (celsius c) = refl
first_source_lem amd (failure e) m (failure z) = refl
first_source_lem arm (failure e) m (celsius c) = refl
first_source_lem arm (failure e) m (failure z) = refl
first_source_lem unknown (failure e) m (celsius c) = refl
first_source_lem unknown (failure e) m (failure z) = refl

-- On Linux a context has a CPU temperature exactly when hwmon has one, or the vendor is Intel and the
-- registers give one, or a CPU thermal zone has one.
pub cpu_package_temp_lem :
    (files : Files) (atof : Bytes → ℤ) (read_msr : ℕ → Option ℕ) (vendor : Vendor)
    → has_temp (cpu_package_temp files atof read_msr (some vendor)) ≡ (
        has_temp (hwmon_cpu_temp files atof)
        || is_intel vendor && has_temp (intel_core_temp read_msr)
        || has_temp (thermal_cpu_temp files thermal_root))
unfolding cpu_package_temp
cpu_package_temp_lem files atof read_msr vendor = first_source_lem vendor _ _ _
