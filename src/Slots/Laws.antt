-- ===== src/Slots/Laws.antt =====
-- The loop that fills an array: its bounds, its state and the readings that it appends.
use mathlib.Core.List.{append-nil, append_assoc}
use libhwsense.Prelude.{
  ℕ, zero, suc, ◌+◌, ◌-◌, ◌<◌, ◌≡◌, refl, ap, inl, inr, Bool-cases, ltb, ltb→lt, ltb_false→le,
  take-nil, ◌∙◌, Option, none, some, List, [], ◌∷◌, ◌++◌, length, set, take, length-set, All,
  All-append, arith,
}
use libhwsense.Slots.{Slots, readings, push, push?, scan, IsValid}

pub take-set :
    {A : Type 0} (xs : List A) (n : ℕ) (v : A)
    → n < length xs
    → take (suc n) (set xs n v) ≡ take n xs ++ (v ∷ [])
take-set [] n v h = elim h [ ]
take-set (x ∷ xs) zero v h = refl
take-set (x ∷ xs) (suc n) v h = ap (λ ys. x ∷ ys) (take-set xs n v (omega arith))

pub push?-IsValid :
    {A : Type 0} {max : ℕ} (a : Slots A) (v : Option A)
    → IsValid max a
    → a.count < max
    → IsValid max (push? a v)
unfolding push? push
push?-IsValid a none h lt = h
push?-IsValid a (some v) h lt = ground (arith, length-set a.cells a.count v)

count-push : {A : Type 0} (a : Slots A) (v : A) → (push a v).count ≡ a.count + 1
unfolding push
count-push a v = refl

pub readings-push :
    {A : Type 0} {max : ℕ} (a : Slots A) (v : A)
    → IsValid max a
    → a.count < max
    → readings (push a v) ≡ readings a ++ (v ∷ [])
unfolding push
readings-push a v h lt =
    let e : a.count + 1 ≡ suc a.count = omega arith in
    rw e (take-set a.cells a.count v (omega arith))

-- the values that `f` yields at the next `n` indices, in order
abbrev pub cons? : {A : Type 0} → Option A → List A → List A
cons? none vs = vs
cons? (some v) vs = v ∷ vs

unfoldable pub yields : {A : Type 0} → (ℕ → Option A) → ℕ → ℕ → List A
yields f zero i = []
yields f (suc n) i = cons? (f i) (yields f n (i + 1))

module _ {A S : Type 0} (max : ℕ) (body : ℕ → S → Option A × S) where
  pub scan-IsValid :
      (n i : ℕ) (s : S) (a : Slots A) → IsValid max a → IsValid max (scan max body n i s a).1
  unfolding scan
  scan-IsValid zero i s a h = h
  scan-IsValid (suc n) i s a h = ground (
    arith,
    push?-IsValid a (body i s).0 h,
    scan-IsValid n (i + 1) (body i s).1 (push? a (body i s).0),
  )

  -- A property of the state that `body` keeps is kept by the loop.
  pub scan_keeps :
      (P : S → Type 0)
      → ((i : ℕ) (s : S) → P s → P (body i s).1)
      → (n i : ℕ) (s : S) (a : Slots A) → P s
      → P (scan max body n i s a).0
  unfolding scan
  scan_keeps P keep zero i s a h = h
  scan_keeps P keep (suc n) i s a h = elim (Bool-cases (ltb a.count max)) [
    | inl e ↦
        rw (e, scan) (scan_keeps P keep n (i + 1) (body i s).1 (push? a (body i s).0) (keep i s h))
    | inr e ↦ rw (e, scan) h
  ]

append_push? :
    {A : Type 0} {max : ℕ} (a : Slots A) (o : Option A) (vs : List A)
    → IsValid max a
    → a.count < max
    → readings (push? a o) ++ take (max - (push? a o).count) vs
      ≡ readings a ++ take (max - a.count) (cons? o vs)
unfolding push?
append_push? a none vs ok lt = refl
append_push? {max} a (some v) vs ok lt =
    let e : max - a.count ≡ suc (max - (a.count + 1)) = omega arith in
    rw (readings-push a v ok lt, append_assoc, e)
      (ap (λ k. readings a ++ v ∷ take (max - k) vs) (count-push a v))

-- One value more keeps what holds of all readings.
pub push?-All :
    {A : Type 0} {max : ℕ} (Q : A → Type 0) (a : Slots A) (o : Option A)
    → IsValid max a
    → a.count < max
    → ((v : A) → o ≡ some v → Q v)
    → All Q (readings a)
    → All Q (readings (push? a o))
unfolding push?
push?-All Q a none ok lt good h = h
push?-All Q a (some v) ok lt good h =
    rw (readings-push a v ok lt) (All-append Q (readings a) (v ∷ []) h (good v refl, tt))

module _ {A S : Type 0} (max : ℕ) (body : ℕ → S → Option A × S) where
  -- Whatever holds of every value that `body` yields holds of the readings, if it held before.
  pub scan-All :
      (Q : A → Type 0)
      → ((i : ℕ) (s : S) (v : A) → (body i s).0 ≡ some v → Q v)
      → (n i : ℕ) (s : S) (a : Slots A) → IsValid max a
      → All Q (readings a)
      → All Q (readings (scan max body n i s a).1)
  unfolding scan
  scan-All Q good zero i s a ok h = h
  scan-All Q good (suc n) i s a ok h = elim (Bool-cases (ltb a.count max)) [
    | inr e ↦ rw (e, scan) h
    | inl e ↦
        let lt = ltb→lt a.count max e in
        rw (e, scan)
          (scan-All Q good n (i + 1) (body i s).1 (push? a (body i s).0)
            (push?-IsValid a (body i s).0 ok lt) (push?-All Q a (body i s).0 ok lt (good i s) h))
  ]

  -- If `body` leaves the state alone, so does the loop, and it appends what `body` yields, in order,
  -- until the array is full.
  pub scan_lem :
      (s : S) (f : ℕ → Option A)
      → ((i : ℕ) → body i s ≡ (f i, s))
      → (n i : ℕ) (a : Slots A) → IsValid max a
      → ((scan max body n i s a).0 ≡ s)
        × (readings (scan max body n i s a).1 ≡ readings a ++ take (max - a.count) (yields f n i))
  unfolding scan yields
  scan_lem s f pure zero i a ok = (refl, rw (take-nil A (max - a.count), append-nil))
  scan_lem s f pure (suc n) i a ok = elim (Bool-cases (ltb a.count max)) [
    | inr e ↦
        let full : max - a.count ≡ 0 = omega (arith, ltb_false→le a.count max e) in
        rw (e, scan) (refl, rw (full, append-nil))
    | inl e ↦
        let lt = ltb→lt a.count max e in
        let (same, rest) =
          scan_lem s f pure n (i + 1) (push? a (f i)) (push?-IsValid a (f i) ok lt) in
        rw (e, scan, pure i) (same, rest ∙ append_push? a (f i) (yields f n (i + 1)) ok lt)
  ]
