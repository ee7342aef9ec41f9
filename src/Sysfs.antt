-- ===== src/Sysfs.antt =====
-- core/hwmon_util_linux.h: the first line of a small file, and the number in it. The file system is a
-- parameter: the bytes of the file at a path, or `none` for one that cannot be opened.
use libhwsense.Prelude.{
  ℕ, ◌+◌, ◌-◌, ◌*◌, Bool, true, false, ◌&&◌, ◌||◌, Option, none, some, List, [], ◌∷◌, ◌++◌, take,
  leb, ◌==◌, if◌then◌else◌,
}
use libhwsense.Prelude.Int.{ℤ, pos, negsuc}
use libhwsense.Text.{Bytes, codes}
use libhwsense.Export.{digits}

abbrev pub Files : Type 0
Files = Bytes → Option Bytes

-- `%d` of a number that is not negative
abbrev pub decimal : ℕ → Bytes
decimal n = digits 20 n []

-- the bytes before the first newline
unfoldable pub before_newline : Bytes → Bytes
before_newline [] = []
before_newline (c ∷ s) = if c == 10 then [] else c ∷ before_newline s

-- `fgets` of a buffer of `n` bytes on a file just opened, which fails on an empty one
unfoldable pub first_line : ℕ → Option Bytes → Option Bytes
first_line n none = none
first_line n (some []) = none
first_line n (some (c ∷ s)) = some (before_newline (take (n - 1) (c ∷ s)))

unfoldable pub read_line : Files → Bytes → ℕ → Option Bytes
read_line files path n = first_line n (files path)

abbrev is_digit : ℕ → Bool
is_digit c = leb 48 c && leb c 57

unfoldable pub digits_value : ℕ → Bytes → ℕ
digits_value acc [] = acc
digits_value acc (c ∷ s) = if is_digit c then digits_value (acc * 10 + (c - 48)) s else acc

unfoldable pub signed_value : Bytes → ℤ
signed_value [] = pos 0
signed_value (c ∷ s) =
    if c == 45
    then negated (digits_value 0 s)
    else if c == 43
    then pos (digits_value 0 s)
    else pos (digits_value 0 (c ∷ s))
  where
    negated : ℕ → ℤ
    negated n = if n == 0 then pos 0 else negsuc (n - 1)

-- `atol`, of a number that a `long` holds: blanks, a sign and digits
unfoldable pub atol : Bytes → ℤ
atol [] = pos 0
atol (c ∷ s) = if c == 32 || (leb 9 c && leb c 13) then atol s else signed_value (c ∷ s)

unfoldable pub read_long : Files → Bytes → Option ℤ
read_long files path = elim (read_line files path 64) [ none ↦ none | some line ↦ some (atol line) ]

abbrev pub hwmon_max : ℕ
hwmon_max = 64

-- the file of a device of the hwmon class
unfoldable pub hwmon_path : ℕ → Bytes → Bytes
hwmon_path hw file = codes "/sys/class/hwmon/hwmon" ++ (decimal hw ++ (47 ∷ file))

unfoldable pub hwmon_name : Files → ℕ → ℕ → Option Bytes
hwmon_name files hw n = read_line files (hwmon_path hw (codes "name")) n

-- a numbered input, such as `fan1_input`
unfoldable pub input_file : Bytes → ℕ → Bytes
input_file kind i = kind ++ (decimal i ++ codes "_input")

-- `strcmp(a, b) == 0`
unfoldable pub same : Bytes → Bytes → Bool
same [] [] = true
same [] (d ∷ t) = false
same (c ∷ s) [] = false
same (c ∷ s) (d ∷ t) = c == d && same s t

unfoldable pub any_same : Bytes → List Bytes → Bool
any_same s [] = false
any_same s (t ∷ ts) = same s t || any_same s ts
