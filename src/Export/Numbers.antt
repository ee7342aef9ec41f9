-- ===== src/Export/Numbers.antt =====
-- core/export.c: the integers as `%d` and `%lld` print them.
use libhwsense.Prelude.{
  ℕ, zero, suc, ◌+◌, ◌-◌, ◌*◌, ◌/◌, ◌%◌, ◌^◌, ◌<◌, ◌≡◌, ap, ◌∙◌, Bool-cases, inl, inr, ltb, [], ◌∷◌,
  ◌==◌, if◌then◌else◌, arith,
}
use native.Mathlib.Numerals.{unary_clauses}
use libhwsense.Prelude.Int.{ℤ, pos, negsuc, neg_part, pos_part}
use libhwsense.Text.{Bytes}
use libhwsense.Export.{digits, integer}

-- the number that decimal digits stand for, behind a number
unfoldable pub value : ℕ → Bytes → ℕ
value acc [] = acc
value acc (c ∷ s) = value (acc * 10 + (c - 48)) s

abbrev negated : ℕ → ℤ
negated n = if n == 0 then pos 0 else negsuc (n - 1)

unfoldable pub read_integer : Bytes → ℤ
read_integer [] = pos 0
read_integer (c ∷ s) = if c == 45 then negated (value 0 s) else pos (value 0 (c ∷ s))

ten_times : (n : ℕ) → 10 ^ suc n ≡ 10 ^ n * 10
ten_times n = simp unary_clauses

value-digits :
    (places n : ℕ) (s : Bytes) → n < 10 ^ places → value 0 (digits places n s) ≡ value n s
unfolding value digits
value-digits zero n s h = ap (λ k. value k s) (omega arith)
value-digits (suc places) n s h = elim (Bool-cases (ltb n 10)) [
  | inl e ↦ rw e (ap (λ k. value k s) (omega arith))
  | inr e ↦ rw e (
      value-digits places (n / 10) ((48 + n % 10) ∷ s) (omega (arith, h, ten_times places))
      ∙ ap (λ k. value k s) (omega arith))
]

read_digit : (d : ℕ) (s : Bytes) → read_integer ((48 + d) ∷ s) ≡ pos (value 0 ((48 + d) ∷ s))
unfolding read_integer
read_digit d s = ground arith

-- A printed number starts with a digit.
negated-suc : (n : ℕ) → negated (suc n) ≡ negsuc n
negated-suc n = ground arith

read_integer-digits :
    (places n : ℕ) (s : Bytes)
    → read_integer (digits (suc places) n s) ≡ pos (value 0 (digits (suc places) n s))
unfolding digits
read_integer-digits zero n s = elim (Bool-cases (ltb n 10)) [
  | inl e ↦ rw e (read_digit n s)
  | inr e ↦ rw e (read_digit (n % 10) s)
]
read_integer-digits (suc places) n s = elim (Bool-cases (ltb n 10)) [
  | inl e ↦ rw e (read_digit n s)
  | inr e ↦ rw e (read_integer-digits places (n / 10) ((48 + n % 10) ∷ s))
]

-- An integer of at most twenty digits, which every `int` and `long long` has, is read back from its
-- text.
pub read_integer-integer :
    (z : ℤ) → pos_part z < 10 ^ 20 → neg_part z < 10 ^ 20 → read_integer (integer z) ≡ z
unfolding integer value read_integer
read_integer-integer (pos n) h k = read_integer-digits 19 n [] ∙ ap pos (value-digits 20 n [] h)
read_integer-integer (negsuc n) h k = ap negated (value-digits 20 (suc n) [] k) ∙ negated-suc n
