-- ===== src/Storage/Drives.antt =====
-- storage/storage.c: which drive's temperature is returned.
use libhwsense.Prelude.{
  ℕ, zero, suc, ◌+◌, ◌*◌, ◌<◌, ◌≤◌, ◌≡◌, refl, sym, subst, Bool, true, false, Bool-cases, inl, inr,
  Option, none, some, get_or, ltb, ◌==◌, ◌&&◌, ◌||◌, if◌then◌else◌, arith,
}
use libhwsense.Text.{Bytes}
use libhwsense.Storage.{
  AtaPassThrough, max_drives, StorageResult, drive_temp, no_temp, no_drive, when_positive, or_later,
  temp_of_identify, attribute_temp, scan_attributes, temp_of_smart, read_smart_temp,
  read_drive_temp_ata, drive_temp_of, scan_drives, nvme_temperature_full,
}

-- at most a bound, when there is a value
Below : ℕ → Option ℕ → Type 0
Below n none = Unit
Below n (some v) = v ≤ n

or_later-Below : (n : ℕ) (a b : Option ℕ) → Below n a → Below n b → Below n (or_later a b)
unfolding or_later Below
or_later-Below n none b h k = k
or_later-Below n (some v) b h k = h

attribute-Below : (bytes : Bytes) (i : ℕ) → Below 127 (attribute_temp bytes i)
unfolding attribute_temp Below
attribute-Below bytes i =
    let id = get_or bytes (2 + i * 12) 0 in
    in_range (id == 0xe2 || id == 0xc2) (get_or bytes (2 + i * 12 + 3) 0)
  where
    in_range :
        (test : Bool) (v : ℕ) → Below 127 (if test && (ltb 0 v && ltb v 127) then some v else none)
    in_range false v = tt
    in_range true v = elim (Bool-cases (ltb 0 v && ltb v 127)) [
      | inl e ↦ rw e (ground arith)
      | inr e ↦ rw e tt
    ]

attributes-Below : (bytes : Bytes) (n i : ℕ) → Below 127 (scan_attributes bytes n i)
unfolding scan_attributes Below
attributes-Below bytes zero i = tt
attributes-Below bytes (suc n) i =
    or_later-Below 127 _ _ (attribute-Below bytes i) (attributes-Below bytes n (i + 1))

smart-Below : (o : Option Bytes) → Below 127 (temp_of_smart o)
unfolding temp_of_smart Below
smart-Below none = tt
smart-Below (some bytes) = attributes-Below bytes 30 0

identify-Below : (o : Option Bytes) → Below 127 (temp_of_identify o)
unfolding temp_of_identify Below
identify-Below none = tt
identify-Below (some bytes) = elim (Bool-cases (ltb 127 (get_or bytes 418 0))) [
  | inl e ↦ rw e tt
  | inr e ↦ rw e (ground arith)
]

-- no temperature, or 0 degrees
abbrev pub NotPositive : Option ℕ → Type 0
NotPositive none = Unit
NotPositive (some v) = v ≡ 0

from_next :
    (Q : ℕ → Type 0) (i k : ℕ)
    → Q i
    → ((m : ℕ) → i + 1 ≤ m → m < k → Q m)
    → (m : ℕ) → i ≤ m
    → m < k
    → Q m
from_next Q i k q f m a c = elim (Bool-cases (m == i)) [
  | inl e ↦ subst Q (ground arith) q
  | inr e ↦ f m (ground arith) c
]

module _ (ata : ℕ → AtaPassThrough → Option Bytes) where
  drive-Below : (i : ℕ) → Below 127 (drive_temp_of ata i)
  unfolding drive_temp_of read_smart_temp read_drive_temp_ata
  drive-Below i = or_later-Below 127 _ _ (smart-Below _) (identify-Below _)

  -- what a scan from the drive `i` up to the drive `k` finds
  abbrev pub Found : ℕ → ℕ → StorageResult → Type 0
  Found i k (drive_temp j t) =
      (j < k)
      × (0 < t)
      × (t ≤ 127)
      × (drive_temp_of ata j ≡ some t)
      × ((m : ℕ) → i ≤ m → m < j → NotPositive (drive_temp_of ata m))
  Found i k (no_temp e) =
      (e ≡ no_drive) × ((m : ℕ) → i ≤ m → m < k → NotPositive (drive_temp_of ata m))

  -- a drive that is passed over
  passed :
      (i k : ℕ) (r : StorageResult)
      → NotPositive (drive_temp_of ata i)
      → Found (i + 1) k r
      → Found i k r
  passed i k (drive_temp j t) h (l, p, b, e, none_before) =
      (l, p, b, e, from_next (λ m. NotPositive (drive_temp_of ata m)) i j h none_before)
  passed i k (no_temp e) h (x, none_before) =
      (x, from_next (λ m. NotPositive (drive_temp_of ata m)) i k h none_before)

  -- one round, with the answer of the drive
  round-Found :
      (i k : ℕ) (o : Option ℕ) (rest : StorageResult)
      → i < k
      → drive_temp_of ata i ≡ o
      → Found (i + 1) k rest
      → Found i k (when_positive i o rest)
  unfolding when_positive Below
  round-Found i k none rest h e f = passed i k rest (subst NotPositive (sym e) tt) f
  round-Found i k (some zero) rest h e f = passed i k rest (subst NotPositive (sym e) refl) f
  round-Found i k (some (suc t)) rest h e f =
      (h, omega arith, subst (Below 127) e (drive-Below i), e, λ m a c. absurd (omega arith))

  scan-Found : (n i : ℕ) → Found i (i + n) (scan_drives ata n i)
  unfolding scan_drives
  scan-Found zero i = (refl, λ m a c. absurd (omega arith))
  scan-Found (suc n) i =
      round-Found i (i + suc n) (drive_temp_of ata i) (scan_drives ata n (i + 1)) (omega arith) refl
        (subst (λ k. Found (i + 1) k (scan_drives ata n (i + 1))) (omega arith)
          (scan-Found n (i + 1)))

  -- Whatever the drives answer, a success is the temperature, from 1 to 127 degrees, of the first of
  -- the 16 drives that has one above 0; the failure means that none of them has.
  pub nvme_temperature_full-Found : Found 0 max_drives (nvme_temperature_full ata)
  unfolding nvme_temperature_full
  nvme_temperature_full-Found =
      subst (λ k. Found 0 k (scan_drives ata max_drives 0)) (omega arith) (scan-Found max_drives 0)
