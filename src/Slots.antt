-- ===== src/Slots.antt =====
-- A fixed C array with a count of the cells in use, such as `temperatures` and `count` of
-- hwsense_superio_result_t, and the loop that fills it in every reader:
--   for (i = 0; i < n && count < MAX; i++) { ...; if (invalid) continue; cells[count++] = value; }
pub mod Laws
pub mod Chosen
use libhwsense.Prelude.{
  ℕ, zero, suc, ◌+◌, ◌-◌, ◌≤◌, ◌≡◌, Bool, true, false, Option, none, some, List, [], ◌∷◌, length,
  set, take, ltb, replicate,
}

pub record Slots (A : Type 0) : Type 0 where
  pub cells : List A
  pub count : ℕ

-- the cells in use
abbrev pub readings : {A : Type 0} → Slots A → List A
readings a = take a.count a.cells

-- `cells[count++] = value`. A `set` out of range changes nothing; `Laws.scan-IsValid` rules it out.
unfoldable pub push : {A : Type 0} → Slots A → A → Slots A
push a v = record { cells = set a.cells a.count v; count = a.count + 1 }

-- `none` is the `continue` of the loop.
unfoldable pub push? : {A : Type 0} → Slots A → Option A → Slots A
push? a none = a
push? a (some v) = push a v

-- the array after `memset`, with its count at zero
abbrev pub cleared : {A : Type 0} → ℕ → A → Slots A
cleared n zero_value = record { cells = replicate n zero_value; count = 0 }

module _ {A S : Type 0} (max : ℕ) (body : ℕ → S → Option A × S) where
  -- the rounds left, the index, the state that `body` reads and changes, and the array
  unfoldable pub scan : ℕ → ℕ → S → Slots A → S × Slots A
  scan zero i s a = (s, a)
  scan (suc n) i s a =
      let (v, s') = body i s in
      let rest = scan n (i + 1) s' (push? a v) in
      elim (ltb a.count max) [ true ↦ rest | false ↦ (s, a) ]

-- No write of the loop leaves the array.
pub record IsValid {A : Type 0} (max : ℕ) (a : Slots A) : Type 0 where
  pub size : length a.cells ≡ max
  pub used : a.count ≤ max
