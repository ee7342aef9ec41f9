-- ===== src/Sysstats/Top.antt =====
-- core/win_sysstats.c: what win_get_top_processes returns, over any `qsort` of the C standard.
use Prim.Native.Nat.{min}
use libhwsense.Prelude.{
  ℕ, zero, suc, ◌≤◌, ◌≡◌, sym, ap, ◌∙◌, subst, ◌⊎◌, inl, inr, Bool, true, Option, some, List, [],
  ◌∷◌, ◌++◌, map, length, length-map, length-take, take, drop, take-append-drop, All, arith,
}
use mathlib.Core.List.{Perm}
use mathlib.Core.List.Perm
use libhwsense.Prelude.Int.{ℤ, pos, ◌≤ℤ◌}
use libhwsense.Sysstats.Qsort.{IsOrder, Ordered, IsQsort}
use libhwsense.Sysstats.Processes.{
  ProcessEntry, OpenProcess, Process, SortBy, key, cmp_by, row_of, top_of, get_top_processes,
}
use libhwsense.Sysstats.Rows.{collect_rows_all}

cmp_le :
    (by : SortBy) (p q : Process)
    → (cmp_by by p q ≤ℤ pos 0 → key by q ≤ key by p)
      × (key by q ≤ key by p → cmp_by by p q ≤ℤ pos 0)
unfolding cmp_by
cmp_le by p q = (λ h. ground arith, λ h. ground arith)

key_total : (a b : ℕ) → (b ≤ a) ⊎ (a ≤ b)
key_total a b = omega arith

cmp_total : (by : SortBy) (p q : Process) → (cmp_by by p q ≤ℤ pos 0) ⊎ (cmp_by by q p ≤ℤ pos 0)
cmp_total by p q = elim (key_total (key by p) (key by q)) [
  | inl h ↦ inl ((cmp_le by p q).1 h)
  | inr h ↦ inr ((cmp_le by q p).1 h)
]

cmp_by-IsOrder : (by : SortBy) → IsOrder (cmp_by by)
cmp_by-IsOrder by = record {
  total = cmp_total by;
  trans = λ p q r h k. (cmp_le by p r).1 (omega (arith, (cmp_le by p q).0 h, (cmp_le by q r).0 k));
}

-- from the largest key down
abbrev pub Descending : SortBy → List Process → Type 0
Descending by [] = Unit
Descending by (p ∷ ps) = All (λ q. key by q ≤ key by p) ps × Descending by ps

below :
    (by : SortBy) (p : Process) (ps : List Process)
    → All (λ q. cmp_by by p q ≤ℤ pos 0) ps
    → All (λ q. key by q ≤ key by p) ps
below by p [] h = tt
below by p (q ∷ ps) (h, hs) = ((cmp_le by p q).0 h, below by p ps hs)

Ordered-Descending : (by : SortBy) (ps : List Process) → Ordered (cmp_by by) ps → Descending by ps
Ordered-Descending by [] h = tt
Ordered-Descending by (p ∷ ps) (h, hs) = (below by p ps h, Ordered-Descending by ps hs)

-- None of the rows left out has a larger key than any of the rows returned.
abbrev pub NoneAbove : SortBy → List Process → List Process → Type 0
NoneAbove by top rest = All (λ p. All (λ q. key by q ≤ key by p) rest) top

-- the two parts of an ordered list
All-take :
    (P : Process → Type 0) (n : ℕ) (ps : List Process)
    → All P ps
    → All P (take n ps) × All P (drop n ps)
All-take P zero ps h = (tt, h)
All-take P (suc n) [] h = (tt, tt)
All-take P (suc n) (p ∷ ps) (h, hs) = let (a, b) = All-take P n ps hs in ((h, a), b)

cut :
    (by : SortBy) (n : ℕ) (ps : List Process)
    → Descending by ps
    → Descending by (take n ps) × NoneAbove by (take n ps) (drop n ps)
cut by zero ps h = (tt, tt)
cut by (suc n) [] h = (tt, tt)
cut by (suc n) (p ∷ ps) (h, hs) =
    let (a, b) = All-take (λ q. key by q ≤ key by p) n ps h in
    let (d, e) = cut by n ps hs in ((a, d), (b, e))

module _ (qsort : (Process → Process → ℤ) → List Process → List Process)
    (sorts : IsQsort qsort) where
  top_of_lem :
      (n : ℕ) (by : SortBy) (ps : List Process)
      → let top = top_of qsort n by ps in
        (rest : List Process) × Perm (top ++ rest) ps
        × Descending by top
        × NoneAbove by top rest
        × (length top ≡ min n (length ps))
  unfolding top_of
  top_of_lem n by [] = ([], Perm.refl [], tt, tt, omega arith)
  top_of_lem n by (p ∷ ps) =
      let sorted = qsort (cmp_by by) (p ∷ ps) in
      let o = cmp_by-IsOrder by in
      let (d, e) =
        cut by n sorted (Ordered-Descending by sorted (sorts.sorts (cmp_by by) (p ∷ ps) o)) in
      (
        drop n sorted,
        subst (λ l. Perm l (p ∷ ps)) (sym (take-append-drop n sorted))
            (sorts.permutes (cmp_by by) (p ∷ ps) o),
        d,
        e,
        length-take n sorted ∙ ap (min n) (sorts.in_place (cmp_by by) (p ∷ ps)),
      )

  -- With memory for the array, the function returns the rows of as many processes as there are or are asked for. They are
  -- in descending order of memory or of processor time, together with the rest they are the
  -- rows of all processes of the snapshot, each once, and none of the rest has more than any of them.
  pub get_top_processes_lem :
      (open_process : ℕ → Option OpenProcess) (realloc : ℕ → Bool) (entries : List ProcessEntry)
      (max_procs : ℕ) (sort_by : SortBy)
      → ((n : ℕ) → realloc n ≡ true)
      → let top = get_top_processes open_process realloc qsort (some entries) max_procs sort_by in
        (rest : List Process) × Perm (top ++ rest) (map (row_of open_process) entries)
        × Descending sort_by top
        × NoneAbove sort_by top rest
        × (length top ≡ min max_procs (length entries))
  unfolding get_top_processes
  get_top_processes_lem open_process realloc entries max_procs sort_by h =
      rw
        (
          collect_rows_all open_process realloc entries (record { all = []; capacity = 0 }) h,
          sym (length-map entries (row_of open_process)),
        )
        (top_of_lem max_procs sort_by (map (row_of open_process) entries))
