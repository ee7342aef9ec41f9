-- ===== src/Prelude/Word.antt =====
-- Machine words as native numbers: bit fields, the shifts and masks of the source, and signed bytes.
use libhwsense.Prelude.{ℕ, zero, suc, ◌+◌, ◌-◌, ◌*◌, ◌/◌, ◌%◌, ◌^◌, ◌<◌, ◌≡◌, ◌≢◌, refl, ap, ◌∙◌}
use libhwsense.Prelude.{Bool, true, false, ltb, ◌==◌, if◌then◌else◌, arith}
use libhwsense.Prelude.Int.{ℤ, pos, negsuc}

-- `x >> lo & (2^width - 1)`
abbrev pub field : ℕ → ℕ → ℕ → ℕ
field x lo width = x / 2 ^ lo % 2 ^ width

-- `hi << 8 | lo`, for a byte `lo`
abbrev pub word : ℕ → ℕ → ℕ
word hi lo = hi * 256 + lo

-- `(signed char)b`
abbrev pub signed_char : ℕ → ℤ
signed_char b = if ltb (b % 256) 128 then pos (b % 256) else negsuc (255 - b % 256)

-- `x >> i & 1`, and `x | 1 << i`
unfoldable pub test_bit : ℕ → ℕ → Bool
test_bit x zero = x % 2 == 1
test_bit x (suc i) = test_bit (x / 2) i

unfoldable pub set_bit : ℕ → ℕ → ℕ
set_bit x zero = x / 2 * 2 + 1
set_bit x (suc i) = set_bit (x / 2) i * 2 + x % 2

half_pushed : (y r : ℕ) → r < 2 → (y * 2 + r) / 2 ≡ y
half_pushed y r h = omega arith

-- Setting a bit changes that bit and no other.
pub test_bit-set_bit_self : (x i : ℕ) → test_bit (set_bit x i) i ≡ true
unfolding test_bit set_bit
test_bit-set_bit_self x zero = ground arith
test_bit-set_bit_self x (suc i) =
    ap (λ y. test_bit y i) (half_pushed (set_bit (x / 2) i) (x % 2) (omega arith))
    ∙ test_bit-set_bit_self (x / 2) i

pub test_bit-set_bit_ne : (x i j : ℕ) → i ≢ j → test_bit (set_bit x i) j ≡ test_bit x j
unfolding test_bit set_bit
test_bit-set_bit_ne x zero zero h = absurd (h refl)
test_bit-set_bit_ne x zero (suc j) h = ap (λ y. test_bit y j) (half_pushed (x / 2) 1 (omega arith))
test_bit-set_bit_ne x (suc i) zero h = ground arith
test_bit-set_bit_ne x (suc i) (suc j) h =
    ap (λ y. test_bit y j) (half_pushed (set_bit (x / 2) i) (x % 2) (omega arith))
    ∙ test_bit-set_bit_ne (x / 2) i j (λ e. h (ap suc e))

pub test_bit_zero : (i : ℕ) → test_bit 0 i ≡ false
unfolding test_bit
test_bit_zero zero = refl
test_bit_zero (suc i) = test_bit_zero i
