-- ===== src/Export/Buffer.antt =====
-- core/export.c: one `vsnprintf` into the room behind another.
use libhwsense.Prelude.{
  ℕ, zero, suc, ◌+◌, ◌-◌, ◌<◌, ◌≤◌, ◌≡◌, refl, ap, ◌∙◌, [], ◌∷◌, ◌++◌, length, length-drop, take,
  drop, get_elem?, some, sym, arith,
}
use Prim.Native.Nat.{min}
use native.Mathlib.Numerals.{unary_clauses}
use libhwsense.Text.{Bytes}
use libhwsense.Export.{put}

-- `put 0`, along the buffer
unfoldable pub prefix : ℕ → Bytes → Bytes → Bytes
prefix zero t b = b
prefix (suc n) t [] = []
prefix (suc zero) t (x ∷ b) = 0 ∷ b
prefix (suc (suc n)) [] (x ∷ b) = 0 ∷ b
prefix (suc (suc n)) (c ∷ t) (x ∷ b) = c ∷ prefix (suc n) t b

suc_add : (m n : ℕ) → suc m + n ≡ suc (m + n)
suc_add m n = omega arith

pred_suc : (n : ℕ) → suc n - 1 ≡ n
pred_suc n = omega arith

add_suc : (m n : ℕ) → suc (m + n) ≡ m + suc n
add_suc m n = omega arith

drop-drop : (m n : ℕ) (b : Bytes) → drop (m + n) b ≡ drop n (drop m b)
drop-drop zero n b = ground arith
drop-drop (suc m) zero [] = simp unary_clauses
drop-drop (suc m) (suc n) [] = simp unary_clauses
drop-drop (suc m) n (x ∷ b) = ap (λ k. drop k (x ∷ b)) (suc_add m n) ∙ drop-drop m n b

prefix_lem :
    (n : ℕ) (t b : Bytes)
    → n < length b
    → take n t ++ (0 ∷ drop (suc (length (take n t))) b) ≡ prefix (suc n) t b
unfolding prefix
prefix_lem n t [] h = absurd (omega arith)
prefix_lem zero t (x ∷ b) h = refl
prefix_lem (suc n) [] (x ∷ b) h = refl
prefix_lem (suc n) (c ∷ t) (x ∷ b) h = ap (λ s. c ∷ s) (prefix_lem n t b (omega arith))

-- what was there before a write is of no consequence
prefix-prefix_nil : (n : ℕ) (t b : Bytes) → prefix n t (prefix n [] b) ≡ prefix n t b
unfolding prefix
prefix-prefix_nil zero t b = refl
prefix-prefix_nil (suc n) t [] = refl
prefix-prefix_nil (suc zero) t (x ∷ b) = refl
prefix-prefix_nil (suc (suc n)) [] (x ∷ b) = refl
prefix-prefix_nil (suc (suc n)) (c ∷ t) (x ∷ b) = refl

-- a further text in the room that is left
pub prefix-append :
    (n : ℕ) (s t b : Bytes)
    → length s < n
    → let p = prefix n s b in
      take (length s) p ++ prefix (n - length s) t (drop (length s) p) ≡ prefix n (s ++ t) b
unfolding prefix
prefix-append n [] t b h = simp unary_clauses (prefix-prefix_nil n t b)
prefix-append zero (c ∷ s) t b h = absurd (omega arith)
prefix-append (suc zero) (c ∷ s) t b h = absurd (omega arith)
prefix-append (suc (suc n)) (c ∷ s) t [] h = nil_prefix (suc (suc n) - suc (length s)) t
  where
    nil_prefix : (n : ℕ) (t : Bytes) → prefix n t [] ≡ []
    nil_prefix zero t = refl
    nil_prefix (suc n) t = refl
prefix-append (suc (suc n)) (c ∷ s) t (x ∷ b) h =
    ap (λ s. c ∷ s) (simp unary_clauses (prefix-append (suc n) s t b (omega arith)))

-- and when none is left
pub prefix_full : (n : ℕ) (s t b : Bytes) → n ≤ length s → prefix n s b ≡ prefix n (s ++ t) b
unfolding prefix
prefix_full zero s t b h = refl
prefix_full (suc n) s t [] h = refl
prefix_full (suc zero) s t (x ∷ b) h = refl
prefix_full (suc (suc n)) [] t (x ∷ b) h = absurd (omega arith)
prefix_full (suc (suc n)) (c ∷ s) t (x ∷ b) h =
    ap (λ s. c ∷ s) (prefix_full (suc n) s t b (omega arith))

pub length-prefix : (n : ℕ) (t b : Bytes) → length (prefix n t b) ≡ length b
unfolding prefix
length-prefix zero t b = refl
length-prefix (suc n) t [] = refl
length-prefix (suc zero) t (x ∷ b) = refl
length-prefix (suc (suc n)) [] (x ∷ b) = refl
length-prefix (suc (suc n)) (c ∷ t) (x ∷ b) = ap suc (length-prefix (suc n) t b)

pub put-prefix :
    (at n : ℕ) (t b : Bytes)
    → at + n < length b
    → put at (suc n) t b ≡ take at b ++ prefix (suc n) t (drop at b)
unfolding put
put-prefix at n t b h =
    let k = length (take n t) in
    rw (pred_suc n) (
      ap (λ s. take at b ++ s)
        (ap (λ d. take n t ++ (0 ∷ d)) (ap (λ m. drop m b) (add_suc at k) ∙ drop-drop at (suc k) b)
          ∙ prefix_lem n t (drop at b) (omega (arith, length-drop at b))))

drop-prefix : (n : ℕ) (t b : Bytes) → drop n (prefix n t b) ≡ drop n b
unfolding prefix
drop-prefix zero t b = refl
drop-prefix (suc n) t [] = refl
drop-prefix (suc zero) t (x ∷ b) = refl
drop-prefix (suc (suc n)) [] (x ∷ b) = refl
drop-prefix (suc (suc n)) (c ∷ t) (x ∷ b) = drop-prefix (suc n) t b

suc-min : (m n : ℕ) → suc (min m n) ≡ min (suc m) (suc n)
suc-min m n = omega arith

min_nil : (m : ℕ) → 0 ≡ min m 0
min_nil m = omega arith

min_zero : (n : ℕ) → 0 ≡ min 0 n
min_zero n = omega arith

prefix_ends :
    (m : ℕ) (t b : Bytes)
    → m < length b
    → get_elem? (prefix (suc m) t b) (min m (length t)) ≡ some 0
unfolding prefix
prefix_ends m t [] h = absurd (omega arith)
prefix_ends zero t (x ∷ b) h = rw (sym (min_zero (length t))) refl
prefix_ends (suc m) [] (x ∷ b) h = rw (sym (min_nil (suc m))) refl
prefix_ends (suc m) (c ∷ t) (x ∷ b) h =
    rw (sym (suc-min m (length t))) (prefix_ends m t b (omega arith))

-- A write into a size keeps the length and what is behind the size, and is terminated.
pub put_stays :
    (n : ℕ) (t b : Bytes)
    → n < length b
    → (length (put 0 (suc n) t b) ≡ length b)
      × (drop (suc n) (put 0 (suc n) t b) ≡ drop (suc n) b)
      × (get_elem? (put 0 (suc n) t b) (min n (length t)) ≡ some 0)
put_stays n t b h =
    rw (put-prefix 0 n t b (omega arith))
      (length-prefix (suc n) t b, drop-prefix (suc n) t b, prefix_ends n t b h)
