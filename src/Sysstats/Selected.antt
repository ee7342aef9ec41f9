-- ===== src/Sysstats/Selected.antt =====
-- core/win_sysstats.c: which adapters, volumes and drives are returned, when there is room for so many.
use libhwsense.Prelude.{
  ℕ, ◌≡◌, refl, ap, ◌∙◌, Bool, true, false, Option, none, some, List, [], ◌∷◌, if◌then◌else◌, map,
  take,
}
use libhwsense.Slots.Chosen.{cons_some, chosen, collect-take}
use libhwsense.Text.{Bytes}
use libhwsense.Sysstats.Disks.{DiskSpace, drive_letters, volume, get_disk_stats}
use libhwsense.Sysstats.Adapters.{Row, is_skipped, net_io_of, kept_row, get_net_io}

-- the rows that are no loopback and no filter
abbrev keep_if : Bool → Row → List Row → List Row
keep_if true row rows = rows
keep_if false row rows = row ∷ rows

abbrev pub kept : List Row → List Row
kept [] = []
kept (row ∷ rows) = keep_if (is_skipped row) row (kept rows)

-- what a row gives, by the test
one_row :
    (to_utf8 : List ℕ → Bytes) (row : Row) (rows : List Row) (b : Bool)
    → cons_some
        (if b then none else some (net_io_of to_utf8 row))
        (map (net_io_of to_utf8) (kept rows))
      ≡ map (net_io_of to_utf8) (keep_if b row (kept rows))
one_row to_utf8 row rows true = refl
one_row to_utf8 row rows false = refl

rows_lem :
    (to_utf8 : List ℕ → Bytes) (rows : List Row)
    → chosen (kept_row to_utf8) rows ≡ map (net_io_of to_utf8) (kept rows)
unfolding kept_row
rows_lem to_utf8 [] = refl
rows_lem to_utf8 (row ∷ rows) =
    ap (cons_some (kept_row to_utf8 row)) (rows_lem to_utf8 rows)
    ∙ one_row to_utf8 row rows (is_skipped row)

-- The network counters are those of the adapters of the table that are neither a loopback nor a filter, in
-- order, the first `max_nets` of them.
pub get_net_io_lem :
    (to_utf8 : List ℕ → Bytes) (rows : List Row) (max_nets : ℕ)
    → get_net_io to_utf8 (some rows) max_nets ≡ take max_nets (map (net_io_of to_utf8) (kept rows))
unfolding get_net_io
get_net_io_lem to_utf8 rows max_nets =
    collect-take (kept_row to_utf8) rows max_nets ∙ ap (take max_nets) (rows_lem to_utf8 rows)

-- The volumes are those of the letters from C to Z that answer, in order, the first `max_disks` of them.
pub get_disk_stats_lem :
    (space_of : ℕ → Option DiskSpace) (max_disks : ℕ)
    → get_disk_stats space_of max_disks ≡ take max_disks (chosen (volume space_of) drive_letters)
unfolding get_disk_stats
get_disk_stats_lem space_of max_disks = collect-take (volume space_of) drive_letters max_disks
