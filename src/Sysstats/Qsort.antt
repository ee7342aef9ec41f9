-- ===== src/Sysstats/Qsort.antt =====
-- What core/win_sysstats.c relies on of the C library's `qsort`, whose algorithm is not specified.
use libhwsense.Prelude.{◌≡◌, ◌⊎◌, List, [], ◌∷◌, length, All}
use libhwsense.Prelude.Int.{ℤ, pos, ◌≤ℤ◌}
use mathlib.Core.List.{Perm}

module _ {A : Type 0} where
  -- a comparison that is no order has no defined result
  pub record IsOrder (cmp : A → A → ℤ) : Type 0 where
    pub total : (a b : A) → (cmp a b ≤ℤ pos 0) ⊎ (cmp b a ≤ℤ pos 0)
    pub trans : (a b c : A) → cmp a b ≤ℤ pos 0 → cmp b c ≤ℤ pos 0 → cmp a c ≤ℤ pos 0

  abbrev pub Ordered : (A → A → ℤ) → List A → Type 0
  Ordered cmp [] = Unit
  Ordered cmp (x ∷ xs) = All (λ b. cmp x b ≤ℤ pos 0) xs × Ordered cmp xs

  pub record IsQsort (qsort : (A → A → ℤ) → List A → List A) : Type 0 where
    pub permutes : (cmp : A → A → ℤ) (xs : List A) → IsOrder cmp → Perm (qsort cmp xs) xs
    pub sorts : (cmp : A → A → ℤ) (xs : List A) → IsOrder cmp → Ordered cmp (qsort cmp xs)
    pub in_place : (cmp : A → A → ℤ) (xs : List A) → length (qsort cmp xs) ≡ length xs
