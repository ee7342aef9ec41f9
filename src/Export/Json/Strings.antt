-- ===== src/Export/Json/Strings.antt =====
-- core/export.c: the JSON strings, and a reader of strings by RFC 8259.
use libhwsense.Prelude.{
  ℕ, zero, suc, ◌+◌, ◌-◌, ◌*◌, ◌≡◌, refl, ap, ◌∙◌, true, false, ◌||◌, Option, none, some, [], ◌∷◌,
  ◌++◌, map, ltb, ◌==◌, if◌then◌else◌, arith,
}
use libhwsense.Text.{Bytes}
use libhwsense.Export.Json.{escape}
use libhwsense.Export.Append.{concat}
use libhwsense.Export.Json.Tree.{quoted}
use mathlib.Core.List.{append_assoc}

pub data Kind : Type 0 where
  quote backslash control plain : Kind

abbrev pub kind : ℕ → Kind
kind c =
    if c == 34 then quote else if c == 92 then backslash else if ltb c 32 then control else plain

-- the byte that a backslash and a letter stand for, but for the letter u
abbrev pub meaning : ℕ → Option ℕ
meaning c =
    if c == 34 || c == 92 || c == 47
    then some c
    else if c == 98
    then some 8
    else if c == 102
    then some 12
    else if c == 110
    then some 10
    else if c == 114
    then some 13
    else if c == 116
    then some 9
    else none

-- the value of a hexadecimal digit
abbrev pub hex_value : ℕ → ℕ
hex_value c = if ltb c 58 then c - 48 else c - 87

-- `code k v` has `k` digits of an escape to come behind the value `v`
pub data Mode : Type 0 where
  text escaped : Mode
  code : ℕ → ℕ → Mode

abbrev pub push : Option ℕ → Option (Bytes × Bytes) → Option (Bytes × Bytes)
push none r = none
push (some c) none = none
push (some c) (some (value, rest)) = some (c ∷ value, rest)

-- a code point is its byte below 128, and refused above
abbrev pub ascii : ℕ → Option ℕ
ascii v = if ltb v 128 then some v else none

-- the value and what follows the closing quote; `none` for text that is no string
unfoldable pub unescape : Mode → Bytes → Option (Bytes × Bytes)
unescape m [] = none
unescape text (c ∷ s) = elim (kind c) [
  | quote ↦ some ([], s)
  | backslash ↦ unescape escaped s
  | control ↦ none
  | plain ↦ push (some c) (unescape text s)
]
unescape escaped (c ∷ s) = elim (c == 117) [
  | true ↦ unescape (code 3 0) s
  | false ↦ push (meaning c) (unescape text s)
]
unescape (code zero v) (c ∷ s) = push (ascii (v * 16 + hex_value c)) (unescape text s)
unescape (code (suc k) v) (c ∷ s) = unescape (code k (v * 16 + hex_value c)) s

unfoldable pub read_string : Bytes → Option (Bytes × Bytes)
read_string [] = none
read_string (c ∷ s) = elim (c == 34) [ true ↦ unescape text s | false ↦ none ]

unescape-escape :
    (c : ℕ) (rest : Bytes) → unescape text (escape c ++ rest) ≡ push (some c) (unescape text rest)
unfolding unescape escape
unescape-escape c rest = ground arith

unescape-map :
    (s rest : Bytes) → unescape text (concat (map escape s) ++ (34 ∷ rest)) ≡ some (s, rest)
unfolding unescape
unescape-map [] rest = refl
unescape-map (c ∷ s) rest =
    ap (unescape text) (append_assoc (escape c) (concat (map escape s)) (34 ∷ rest))
    ∙ unescape-escape c (concat (map escape s) ++ (34 ∷ rest))
    ∙ ap (push (some c)) (unescape-map s rest)

-- The text of any string value, with any text behind it, is read back as that string and that text.
pub read_string-quoted : (s rest : Bytes) → read_string (quoted s rest) ≡ some (s, rest)
unfolding read_string
read_string-quoted s rest = unescape-map s rest
