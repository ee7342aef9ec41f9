-- ===== src/Slots/Chosen.antt =====
-- The other loop that fills an array: over a list, for those elements that give a value.
--   for (x in xs && count < max) { ...; if (none) continue; cells[count++] = value; }
use libhwsense.Prelude.{
  ℕ, zero, suc, ◌≡◌, refl, sym, ap, Option, none, some, List, [], ◌∷◌, take, take-nil,
}

abbrev pub cons_some : {B : Type 0} → Option B → List B → List B
cons_some none rest = rest
cons_some (some b) rest = b ∷ rest

-- the free cells behind an answer, of one more than `n`
abbrev left : {B : Type 0} → Option B → ℕ → ℕ
left none n = suc n
left (some b) n = n

module _ {A B : Type 0} where
  -- the cells that are filled, with the number of free ones
  unfoldable pub collect : (A → Option B) → List A → ℕ → List B
  collect read [] n = []
  collect read (x ∷ xs) zero = []
  collect read (x ∷ xs) (suc n) = cons_some (read x) (collect read xs (left (read x) n))

  -- the values there are
  abbrev pub chosen : (A → Option B) → List A → List B
  chosen read [] = []
  chosen read (x ∷ xs) = cons_some (read x) (chosen read xs)

  one_more :
      (read : A → Option B) (xs : List A) (n : ℕ) (o : Option B)
      → ((m : ℕ) → collect read xs m ≡ take m (chosen read xs))
      → cons_some o (collect read xs (left o n)) ≡ take (suc n) (cons_some o (chosen read xs))
  one_more read xs n none h = h (suc n)
  one_more read xs n (some b) h = ap (λ l. b ∷ l) (h n)

  pub collect-take :
      (read : A → Option B) (xs : List A) (n : ℕ) → collect read xs n ≡ take n (chosen read xs)
  unfolding collect
  collect-take read [] n = sym (take-nil B n)
  collect-take read (x ∷ xs) zero = refl
  collect-take read (x ∷ xs) (suc n) = one_more read xs n (read x) (collect-take read xs)
