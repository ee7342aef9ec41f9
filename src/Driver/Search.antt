-- ===== src/Driver/Search.antt =====
-- core/driver.c: what the search for the driver's file gives.
use libhwsense.Prelude.{
  ◌+◌, ◌<◌, ◌≤◌, ◌≡◌, Bool, true, false, Option, none, some, [], ◌∷◌, ◌++◌, length,
}
use libhwsense.Text.{Bytes}
use libhwsense.Driver.{max_path, sys_filename, ends_in_slash, Outcome, found, missing, overrun}

-- a directory with its backslash
abbrev pub EndsIn : Bytes → Type 0
EndsIn dir = (front : Bytes) × (dir ≡ front ++ (92 ∷ []))

abbrev DirectoryEnds : Option Bytes → Type 0
DirectoryEnds none = Unit
DirectoryEnds (some dir) = EndsIn dir

module _ (exists : Bytes → Bool) where
  -- with room for the terminator
  abbrev pub PathFits : Bytes → Type 0
  PathFits path =
      (length path < max_path)
      × (exists path ≡ true)
      × ((front : Bytes) × (path ≡ (front ++ (92 ∷ [])) ++ sys_filename))

  abbrev MaybeFits : Option Bytes → Type 0
  MaybeFits none = Unit
  MaybeFits (some path) = PathFits path

  -- a path, or a write behind the end only for a directory that leaves no room for a backslash
  abbrev pub SearchFits : Option Bytes → Outcome → Type 0
  SearchFits cwd missing = Unit
  SearchFits cwd (found path) = PathFits path
  SearchFits cwd overrun =
      (dir : Bytes) × ((cwd ≡ some dir) × (ends_in_slash dir ≡ false) × (max_path ≤ length dir + 1))
