-- ===== src/Export/Csv/Reader.antt =====
-- core/export.c: a CSV record as the code writes it, and a reader of records by RFC 4180.
use libhwsense.Prelude.{
  ℕ, ◌≡◌, refl, ap, ◌∙◌, true, false, List, [], ◌∷◌, ◌++◌, map, ◌==◌, ◌||◌, if◌then◌else◌, arith,
}
use mathlib.Core.List.{append_assoc}
use libhwsense.Text.{Bytes}
use libhwsense.Export.Append.{concat}
use libhwsense.Export.Csv.{needs_quotes, double_quotes}

-- at a field's first byte, in a bare one, in a quoted one, and behind a quote in a quoted one
pub data Mode : Type 0 where
  first bare quoted closing : Mode

pub data Kind : Type 0 where
  quote comma line_break other : Kind

abbrev pub kind : ℕ → Kind
kind c =
    if c == 34
    then quote
    else if c == 44
    then comma
    else if c == 10 || c == 13
    then line_break
    else other

-- a byte more in front of the first field
abbrev pub onto : ℕ → List Bytes → List Bytes
onto c [] = []
onto c (f ∷ fs) = (c ∷ f) ∷ fs

-- The fields of the first record, which ends at a line break outside quotes.
unfoldable pub fields : Mode → Bytes → List Bytes
fields m [] = [] ∷ []
fields first (c ∷ s) = elim (kind c) [
  | quote ↦ fields quoted s
  | comma ↦ [] ∷ fields first s
  | line_break ↦ [] ∷ []
  | other ↦ onto c (fields bare s)
]
fields bare (c ∷ s) = elim (kind c) [
  | quote ↦ onto c (fields bare s)
  | comma ↦ [] ∷ fields first s
  | line_break ↦ [] ∷ []
  | other ↦ onto c (fields bare s)
]
fields quoted (c ∷ s) = elim (c == 34) [
  | true ↦ fields closing s
  | false ↦ onto c (fields quoted s)
]
fields closing (c ∷ s) = elim (kind c) [
  | quote ↦ onto 34 (fields quoted s)
  | comma ↦ [] ∷ fields first s
  | line_break ↦ [] ∷ []
  | other ↦ onto c (fields bare s)
]

-- what stands behind a field: nothing, or a comma and more
unfoldable pub Ends : Bytes → List Bytes → Type 0
Ends s more =
    (fields first s ≡ [] ∷ more) × (fields bare s ≡ [] ∷ more) × (fields closing s ≡ [] ∷ more)

pub Ends-nil : Ends [] []
unfolding Ends fields
Ends-nil = (refl, refl, refl)

pub Ends-comma : (s : Bytes) → Ends (44 ∷ s) (fields first s)
unfolding Ends fields
Ends-comma s = (refl, refl, refl)

bare_read :
    (f s : Bytes) (more : List Bytes)
    → needs_quotes f ≡ false
    → Ends s more
    → fields bare (f ++ s) ≡ f ∷ more
unfolding fields Ends needs_quotes
bare_read [] s more h e = e.1
bare_read (c ∷ f) s more h e = ground (arith, bare_read f s more)

pub first_read :
    (f s : Bytes) (more : List Bytes)
    → needs_quotes f ≡ false
    → Ends s more
    → fields first (f ++ s) ≡ f ∷ more
unfolding fields Ends needs_quotes
first_read [] s more h e = e.0
first_read (c ∷ f) s more h e = ground (arith, bare_read f s more)

pub quoted_read :
    (f s : Bytes) (more : List Bytes)
    → Ends s more
    → fields quoted (concat (map double_quotes f) ++ (34 ∷ s)) ≡ f ∷ more
unfolding fields Ends
quoted_read [] s more e = e.2
quoted_read (c ∷ f) s more e =
    ap (fields quoted) (append_assoc (double_quotes c) (concat (map double_quotes f)) (34 ∷ s))
    ∙ ground (arith, quoted_read f s more e)
