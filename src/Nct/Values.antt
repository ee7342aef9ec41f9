-- ===== src/Nct/Values.antt =====
-- motherboard/nct_linux.c: the range of the values that the decoder records.
use libhwsense.Prelude.{
  ℕ, ◌%◌, ◌≡◌, ◌≢◌, refl, sym, Option, none, some, true, false, Bool, ◌||◌, ◌==◌, ◌∙◌,
  if◌then◌else◌, All, length, arith,
}
use libhwsense.Prelude.Int.{ℤ, pos, negsuc, ◌≤ℤ◌}
use libhwsense.Prelude.Word.{test_bit}
use libhwsense.Slots.{readings}
use libhwsense.Slots.Laws.{scan-All}
use libhwsense.Superio.{SuperioResult, FitsArrays, max_temps, max_fans}
use libhwsense.Nct.{
  NctChip, nct_chips, nct_fan_reg, last_in, temp_value, fan_value, nct_rd, on_temp, on_value,
  on_source, temp_at, fan_at, temp_rounds, read_inputs, finish, decode_found, decode,
}

-- between -54 and 124 degrees, and not 0
abbrev pub IsTemp : ℤ → Type 0
IsTemp t = (negsuc 53 ≤ℤ t) × (t ≤ℤ pos 124) × (t ≢ pos 0)

-- a number of revolutions that is neither 0 nor 65535
abbrev pub IsFan : ℤ → Type 0
IsFan f = (pos 1 ≤ℤ f) × (f ≢ pos 65535)

abbrev pub InRange : SuperioResult → Type 0
InRange r = All IsTemp (readings r.temps) × All IsFan (readings r.fans)

temp_value-IsTemp : (reg v : ℕ) (t : ℤ) → temp_value reg v ≡ some t → IsTemp t
unfolding temp_value
temp_value-IsTemp reg v t h = ground arith

fan_value-IsFan : (o : Option ℕ) (f : ℤ) → fan_value o ≡ some f → IsFan f
unfolding fan_value
fan_value-IsFan none f h = ground arith
fan_value-IsFan (some n) f h = ground arith

module _ {S : Type 0} (rd : S → ℕ → Option ℕ × S) where
  on_temp_same : (src seen : ℕ) (o : Option ℤ) (s : S) → (on_temp rd src seen o s).0 ≡ o
  unfolding on_temp
  on_temp_same src seen none s = refl
  on_temp_same src seen (some t) s = refl

  on_value-IsTemp :
      (reg src seen : ℕ) (o : Option ℕ) (s : S) (t : ℤ)
      → (on_value rd reg src seen (o, s)).0 ≡ some t
      → IsTemp t
  unfolding on_value
  on_value-IsTemp reg src seen none s t h = ground arith
  on_value-IsTemp reg src seen (some v) s t h =
      temp_value-IsTemp reg v t (sym (on_temp_same src seen (temp_value reg v) s) ∙ h)

  on_source-IsTemp :
      (reg seen : ℕ) (o : Option ℕ) (s : S) (t : ℤ)
      → (on_source rd reg seen (o, s)).0 ≡ some t
      → IsTemp t
  unfolding on_source
  on_source-IsTemp reg seen none s t h = ground arith
  on_source-IsTemp reg seen (some v) s t h = go (v % 32 == 0 || test_bit seen (v % 32)) h
    where
      go :
          (b : Bool)
          → (if b then (none, (seen, s)) else on_value rd reg (v % 32) seen (nct_rd rd s reg)).0
            ≡ some t
          → IsTemp t
      go true k = ground arith
      go false k = on_value-IsTemp reg (v % 32) seen _ _ t k

  temp_at-IsTemp :
      (second : Bool) (i : ℕ) (s : ℕ × S) (t : ℤ) → (temp_at rd second i s).0 ≡ some t → IsTemp t
  unfolding temp_at
  temp_at-IsTemp second i (seen, s) t h = on_source-IsTemp _ seen _ _ t h

  fan_at-IsFan : (i : ℕ) (s : S) (f : ℤ) → (fan_at rd i s).0 ≡ some f → IsFan f
  unfolding fan_at
  fan_at-IsFan i s f h = fan_value-IsFan _ f h

  found-InRange :
      (id : ℕ) (c : Option NctChip) (s : S) (r : SuperioResult)
      → FitsArrays r
      → InRange r
      → InRange (decode_found rd id c s r).2
  unfolding decode_found read_inputs finish
  found-InRange id none s r fits h = h
  found-InRange id (some chip) s r fits (ts, fs) = (
    scan-All max_temps (temp_at rd chip.second_layout) IsTemp (temp_at-IsTemp chip.second_layout)
        (temp_rounds chip.second_layout) 0 _ r.temps fits.temps_fit ts,
    scan-All max_fans (fan_at rd) IsFan fan_at-IsFan (length nct_fan_reg) 0 _ r.fans fits.fans_fit
        fs,
  )

  -- Decoding into a result that is in range, whatever the callback returns, records only temperatures
  -- from -54 to 124 degrees other than 0, and only fan speeds other than 0 and 65535.
  pub nct_decode-InRange :
      (id : ℕ) (s : S) (r : SuperioResult) → FitsArrays r → InRange r → InRange (decode rd id s r).2
  unfolding decode
  nct_decode-InRange id s r fits h = found-InRange id (last_in nct_chips id none) s r fits h
