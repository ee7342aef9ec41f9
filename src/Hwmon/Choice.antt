-- ===== src/Hwmon/Choice.antt =====
-- cpu/hwmon_linux.c: which reading is the CPU temperature.
use libhwsense.Prelude.{
  ℕ, zero, suc, ◌+◌, ◌≤◌, ◌≡◌, refl, ap, ◌∙◌, Bool, true, false, Option, none, some, ◌==◌,
  if◌then◌else◌, arith,
}
use libhwsense.Prelude.Int.{ℤ}
use libhwsense.Sysfs.{Files, hwmon_name}
use libhwsense.Text.{Bytes}
use libhwsense.Hwmon.{
  TempResult, celsius, failure, try_input, or_rest, no_cpu_sensor, is_cpu_sensor, is_preferred,
  input_value, scan_inputs, device_temp, scan_devices, hwmon_cpu_temp,
}

abbrev pub or_else : {A : Type 0} → Option A → Option A → Option A
or_else none b = b
or_else (some a) b = some a

-- the first value of `f` at `n` indices
unfoldable pub first_of : {A : Type 0} → (ℕ → Option A) → ℕ → ℕ → Option A
first_of f zero i = none
first_of f (suc n) i = or_else (f i) (first_of f n (i + 1))

abbrev pub only_if : Bool → Option ℤ → Option ℤ
only_if true v = v
only_if false v = none

-- Behind the first input only the preferred ones count.
later_step :
    (p : Bool) (v rest r go_on : Option ℤ)
    → try_input p false v (or_else rest r) go_on ≡ or_else (or_else (only_if p v) rest) r
unfolding try_input
later_step false v rest r go_on = refl
later_step true none rest r go_on = refl
later_step true (some x) rest r go_on = refl

first_step :
    (p : Bool) (v rest : Option ℤ)
    → try_input p true v (or_else rest none) (or_else rest v)
      ≡ or_else (or_else (only_if p v) rest) v
unfolding try_input
first_step false none rest = refl
first_step false (some x) rest = refl
first_step true none rest = refl
first_step true (some x) rest = refl

abbrev pub of_cpu_sensor : Option Bytes → Option ℤ → Option ℤ
of_cpu_sensor none v = none
of_cpu_sensor (some name) v = if is_cpu_sensor name then v else none

abbrev pub reported : Option ℤ → TempResult
reported none = failure no_cpu_sensor
reported (some v) = celsius v

reported_step : (a b : Option ℤ) → or_rest a (reported b) ≡ reported (or_else a b)
unfolding or_rest
reported_step none b = refl
reported_step (some v) b = refl

module _ (files : Files) (atof : Bytes → ℤ) where
  abbrev pub preferred_value : ℕ → ℕ → Option ℤ
  preferred_value hw i = only_if (is_preferred files hw i) (input_value files atof hw i)

  later_inputs :
      (n hw i : ℕ) (r : Option ℤ)
      → 2 ≤ i
      → scan_inputs files atof n hw i r ≡ or_else (first_of (preferred_value hw) n i) r
  unfolding scan_inputs first_of
  later_inputs zero hw i r h = refl
  later_inputs (suc n) hw i r h =
      let later : (i == 1) ≡ false = ground arith in
      ap
        (λ b.
          try_input (is_preferred files hw i) b (input_value files atof hw i)
            (scan_inputs files atof n hw (i + 1) r)
            (scan_inputs files atof n hw (i + 1) (input_value files atof hw i)))
        later
      ∙ ap
          (λ s.
            try_input (is_preferred files hw i) false (input_value files atof hw i) s
              (scan_inputs files atof n hw (i + 1) (input_value files atof hw i)))
          (later_inputs n hw (i + 1) r (omega arith))
      ∙ later_step (is_preferred files hw i) (input_value files atof hw i)
          (first_of (preferred_value hw) n (i + 1)) r _

  -- the choice of a device: the first of 16 inputs that is preferred and has a value, and otherwise the
  -- first input
  abbrev pub inputs_choice : ℕ → Option ℤ
  inputs_choice hw = or_else (first_of (preferred_value hw) 16 1) (input_value files atof hw 1)

  first_inputs :
      (n hw : ℕ)
      → scan_inputs files atof (suc n) hw 1 none
        ≡ or_else
            (or_else (preferred_value hw 1) (first_of (preferred_value hw) n 2))
            (input_value files atof hw 1)
  unfolding scan_inputs
  first_inputs n hw =
      let p = is_preferred files hw 1 in
      let v = input_value files atof hw 1 in
      let rest = first_of (preferred_value hw) n 2 in
      ap (λ s. try_input p true v s (scan_inputs files atof n hw 2 v))
        (later_inputs n hw 2 none (omega arith))
      ∙ ap (try_input p true v (or_else rest none)) (later_inputs n hw 2 v (omega arith))
      ∙ first_step p v rest

  inputs_lem : (hw : ℕ) → scan_inputs files atof 16 hw 1 none ≡ inputs_choice hw
  unfolding first_of
  inputs_lem hw = first_inputs 15 hw

  abbrev pub device_choice : ℕ → Option ℤ
  device_choice hw = of_cpu_sensor (hwmon_name files hw 64) (inputs_choice hw)

  device_lem :
      (hw : ℕ) (name : Option Bytes)
      → device_temp files atof hw name ≡ of_cpu_sensor name (inputs_choice hw)
  unfolding device_temp
  device_lem hw none = refl
  device_lem hw (some name) = ap (λ v. if is_cpu_sensor name then v else none) (inputs_lem hw)

  devices_lem : (n hw : ℕ) → scan_devices files atof n hw ≡ reported (first_of device_choice n hw)
  unfolding scan_devices first_of
  devices_lem zero hw = refl
  devices_lem (suc n) hw =
      ap (λ a. or_rest a (scan_devices files atof n (hw + 1)))
        (device_lem hw (hwmon_name files hw 64))
      ∙ ap (or_rest (device_choice hw)) (devices_lem n (hw + 1))
      ∙ reported_step (device_choice hw) (first_of device_choice n (hw + 1))

  -- With any files, and however `atof` reads the numbers in them, the CPU temperature is that of the first of the 32 devices that is a CPU sensor and
  -- has one: its first input, of 16, with a label that is preferred and a value, and otherwise its
  -- first input's value. Without one the result is the failure.
  pub hwmon_cpu_temp_lem : hwmon_cpu_temp files atof ≡ reported (first_of device_choice 32 0)
  unfolding hwmon_cpu_temp
  hwmon_cpu_temp_lem = devices_lem 32 0
