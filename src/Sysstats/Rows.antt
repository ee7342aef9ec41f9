-- ===== src/Sysstats/Rows.antt =====
-- core/win_sysstats.c: the array of the processes grows before it is full.
use libhwsense.Prelude.{
  ℕ, suc, ◌+◌, ◌≤◌, ◌≡◌, refl, sym, ap, ◌∙◌, Bool, true, Option-cases, Bool-cases, inl, inr, Option,
  none, some, List, [], ◌∷◌, ◌++◌, map, length, length-append, take, ◌==◌, arith,
}
use mathlib.Core.List.{append-nil, append_assoc}
use libhwsense.Sysstats.Processes.{
  ProcessEntry, OpenProcess, Rows, grown, store, row_of, with_room, collect_rows,
}

module _ (open_process : ℕ → Option OpenProcess) (realloc : ℕ → Bool) where
  -- room for the row that is stored, and the rows as they were
  with_room_lem :
      (b b' : Rows)
      → length b.all ≤ b.capacity
      → with_room open_process realloc b ≡ some b'
      → (b'.all ≡ b.all) × (length b.all + 1 ≤ b'.capacity)
  unfolding with_room
  with_room_lem b b' h e = ground arith

  collect_rows_stop :
      (entry : ProcessEntry) (entries : List ProcessEntry) (b : Rows)
      → with_room open_process realloc b ≡ none
      → collect_rows open_process realloc (entry ∷ entries) b ≡ b
  unfolding collect_rows
  collect_rows_stop entry entries b h = rw (h, collect_rows)

  collect_rows_step :
      (entry : ProcessEntry) (entries : List ProcessEntry) (b b' : Rows)
      → with_room open_process realloc b ≡ some b'
      → collect_rows open_process realloc (entry ∷ entries) b
        ≡ collect_rows open_process realloc entries (store b' (row_of open_process entry))
  unfolding collect_rows
  collect_rows_step entry entries b b' h = rw (h, collect_rows)

  abbrev pub IsPrefix : List ProcessEntry → Rows → Rows → Type 0
  IsPrefix entries b r =
      (n : ℕ) × (r.all ≡ b.all ++ map (row_of open_process) (take n entries))
      × (length r.all ≤ r.capacity)

  -- Whatever `realloc` does, no row is written behind the end of the array, and the array holds the
  -- rows of the first entries of the snapshot, in order.
  pub collect_rows-IsPrefix :
      (entries : List ProcessEntry) (b : Rows)
      → length b.all ≤ b.capacity
      → IsPrefix entries b (collect_rows open_process realloc entries b)
  unfolding collect_rows
  collect_rows-IsPrefix [] b h = (0, sym (append-nil b.all), h)
  collect_rows-IsPrefix (entry ∷ entries) b h =
      elim (Option-cases (with_room open_process realloc b)) [
        | inl e ↦ rw (collect_rows_stop entry entries b e) (0, sym (append-nil b.all), h)
        | inr (b', e) ↦ rw (collect_rows_step entry entries b b' e) (
            let (same, room) = with_room_lem b b' h e in
            let row = row_of open_process entry in
            let (n, rows, fits) =
              collect_rows-IsPrefix entries (store b' row)
                (omega (arith, length-append {0} b'.all (row ∷ []), ap length same)) in
            (suc n, rows ∙ rw (same, append_assoc), fits))
      ]

  has_room :
      (b : Rows)
      → ((n : ℕ) → realloc n ≡ true)
      → (b' : Rows) × (with_room open_process realloc b ≡ some b') × (b'.all ≡ b.all)
  unfolding with_room
  has_room b h = elim (Bool-cases (length b.all == b.capacity)) [
    | inl e ↦ (record b { capacity = grown b.capacity }, rw (e, h (grown b.capacity)), refl)
    | inr e ↦ (b, rw e, refl)
  ]

  -- With memory for every size, these are all entries.
  pub collect_rows_all :
      (entries : List ProcessEntry) (b : Rows)
      → ((n : ℕ) → realloc n ≡ true)
      → (collect_rows open_process realloc entries b).all
        ≡ b.all ++ map (row_of open_process) entries
  unfolding collect_rows
  collect_rows_all [] b h = sym (append-nil b.all)
  collect_rows_all (entry ∷ entries) b h =
      let (b', e, same) = has_room b h in
      rw (collect_rows_step entry entries b b' e) (
        collect_rows_all entries (store b' (row_of open_process entry)) h ∙ rw (same, append_assoc))
