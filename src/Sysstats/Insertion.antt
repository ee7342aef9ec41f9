-- ===== src/Sysstats/Insertion.antt =====
-- A sort that keeps what core/win_sysstats.c relies on of `qsort`.
use libhwsense.Prelude.{
  suc, ◌≡◌, refl, ap, ◌∙◌, true, Bool-cases, inl, inr, List, [], ◌∷◌, length, All, arith,
  if◌then◌else◌, ltb_false→le,
}
use libhwsense.Prelude.Int.{ℤ, pos, ◌≤ℤ◌, ltb_ℤ}
use mathlib.Core.List.{Perm}
use mathlib.Core.List.Perm
use libhwsense.Sysstats.Qsort.{IsOrder, Ordered, IsQsort}

module _ {A : Type 0} (cmp : A → A → ℤ) where
  -- behind all that are smaller
  unfoldable pub insert : A → List A → List A
  insert a [] = a ∷ []
  insert a (b ∷ bs) = if ltb_ℤ (pos 0) (cmp a b) then b ∷ insert a bs else a ∷ b ∷ bs

  unfoldable pub insertion_sort : List A → List A
  insertion_sort [] = []
  insertion_sort (a ∷ xs) = insert a (insertion_sort xs)

  insert-perm : (a : A) (bs : List A) → Perm (insert a bs) (a ∷ bs)
  unfolding insert
  insert-perm a [] = Perm.refl _
  insert-perm a (b ∷ bs) = elim (Bool-cases (ltb_ℤ (pos 0) (cmp a b))) [
    | inl e ↦ rw e (Perm.trans (Perm.cons b (insert-perm a bs)) (Perm.swap a b bs))
    | inr e ↦ rw e (Perm.refl _)
  ]

  sort-perm : (xs : List A) → Perm (insertion_sort xs) xs
  unfolding insertion_sort
  sort-perm [] = Perm.refl []
  sort-perm (a ∷ xs) = Perm.trans (insert-perm a (insertion_sort xs)) (Perm.cons a (sort-perm xs))

  length-insert : (a : A) (bs : List A) → length (insert a bs) ≡ suc (length bs)
  unfolding insert
  length-insert a [] = refl
  length-insert a (b ∷ bs) = ground (arith, length-insert a bs)

  length-sort : (xs : List A) → length (insertion_sort xs) ≡ length xs
  unfolding insertion_sort
  length-sort [] = refl
  length-sort (a ∷ xs) = length-insert a (insertion_sort xs) ∙ ap suc (length-sort xs)

  module _ (o : IsOrder cmp) where
    All-insert : (P : A → Type 0) (a : A) (bs : List A) → P a → All P bs → All P (insert a bs)
    unfolding insert
    All-insert P a [] p ps = (p, tt)
    All-insert P a (b ∷ bs) p (pb, ps) = elim (Bool-cases (ltb_ℤ (pos 0) (cmp a b))) [
      | inl e ↦ rw e (pb, All-insert P a bs p ps)
      | inr e ↦ rw e (p, (pb, ps))
    ]

    All-above :
        (a b : A) (bs : List A)
        → cmp a b ≤ℤ pos 0
        → All (λ c. cmp b c ≤ℤ pos 0) bs
        → All (λ c. cmp a c ≤ℤ pos 0) bs
    All-above a b [] h hs = tt
    All-above a b (c ∷ bs) h (k, hs) = (o.trans a b c h k, All-above a b bs h hs)

    not_above : (a b : A) → ltb_ℤ (pos 0) (cmp a b) ≡ true → cmp b a ≤ℤ pos 0
    not_above a b e = elim (o.total a b) [ inl h ↦ absurd (ground arith) | inr h ↦ h ]

    insert-Ordered : (a : A) (bs : List A) → Ordered cmp bs → Ordered cmp (insert a bs)
    unfolding insert
    insert-Ordered a [] h = (tt, tt)
    insert-Ordered a (b ∷ bs) (h, hs) = elim (Bool-cases (ltb_ℤ (pos 0) (cmp a b))) [
      | inl e ↦
          rw e (All-insert (λ c. cmp b c ≤ℤ pos 0) a bs (not_above a b e) h, insert-Ordered a bs hs)
      | inr e ↦
          let le : cmp a b ≤ℤ pos 0 = ltb_false→le _ _ e in
          rw e ((le, All-above a b bs le h), (h, hs))
    ]

    sort-Ordered : (xs : List A) → Ordered cmp (insertion_sort xs)
    unfolding insertion_sort
    sort-Ordered [] = tt
    sort-Ordered (a ∷ xs) = insert-Ordered a (insertion_sort xs) (sort-Ordered xs)

pub insertion_sort-IsQsort : {A : Type 0} → IsQsort (insertion_sort {A = A})
insertion_sort-IsQsort = record {
  permutes = λ cmp xs o. sort-perm cmp xs;
  sorts = λ cmp xs o. sort-Ordered cmp o xs;
  in_place = λ cmp xs. length-sort cmp xs;
}
