-- ===== src/Text.antt =====
-- Byte strings as the C code sees them: the bytes before the terminating zero. `strncmp` against a
-- prefix and `strstr` as used by core/sensor_math.h, core/soc_math.h and core/driver_linux.c.
use Prim.Native.Char.{code}
use libhwsense.Prelude.{ℕ, String, List, [], ◌∷◌, ◌++◌, Bool, true, false, ◌&&◌, ◌||◌, ◌==◌}
use libhwsense.Prelude.{◌≡◌, refl, arith}

abbrev pub Bytes : Type 0
Bytes = List ℕ

-- the bytes of an ASCII literal
abbrev pub codes : String → Bytes
codes String.[] = []
codes (String.◌∷◌ c s) = code c ∷ codes s

-- `strncmp(s, prefix, strlen(prefix)) == 0`
unfoldable pub starts_with : Bytes → Bytes → Bool
starts_with s [] = true
starts_with [] (p ∷ ps) = false
starts_with (c ∷ s) (p ∷ ps) = c == p && starts_with s ps

-- `strstr(s, needle) != NULL`
unfoldable pub strstr : Bytes → Bytes → Bool
strstr [] needle = starts_with [] needle
strstr (c ∷ s) needle = starts_with (c ∷ s) needle || strstr s needle

-- A text starts with a prefix exactly when it is that prefix and a rest.
pub starts_with_sound : (s p : Bytes) → starts_with s p ≡ true → (rest : Bytes) × (s ≡ p ++ rest)
unfolding starts_with
starts_with_sound s [] h = (s, refl)
starts_with_sound [] (p ∷ ps) h = absurd (ground arith)
starts_with_sound (c ∷ s) (p ∷ ps) h =
    let (rest, e) = starts_with_sound s ps (ground arith) in (rest, ground arith)

pub starts_with-append : (p rest : Bytes) → starts_with (p ++ rest) p ≡ true
unfolding starts_with
starts_with-append [] rest = refl
starts_with-append (p ∷ ps) rest = ground (arith, starts_with-append ps rest)
