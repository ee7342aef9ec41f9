-- ===== src/Export/Csv/Columns.antt =====
-- core/export.c: the columns of the CSV header and of a row.
use libhwsense.Prelude.{
  ℕ, zero, suc, String, ◌+◌, ◌/◌, ◌%◌, ◌<◌, ◌≤◌, ◌≡◌, refl, ap, ◌∙◌, sym, subst, false, Bool-cases,
  inl, inr, some, List, [], ◌∷◌, ◌++◌, map, All, length, arith,
}
use mathlib.Core.List.{append_assoc}
use libhwsense.Prelude.Int.{ℤ, pos, negsuc, to_int}
use libhwsense.Text.{Bytes, codes}
use libhwsense.Export.{SensorData, integer, digits, put, export}
use libhwsense.Export.Append.{concat, concat-append, export-put}
use libhwsense.Export.Csv.{
  needs_quotes, double_quotes, csv_field, csv_header, csv_texts, comma_integers, comma_double,
  export_csv_row, export_csv_header,
}
use libhwsense.Export.Csv.Reader.{
  first, fields, Ends, Ends-nil, Ends-comma, first_read, quoted_read,
}

-- a text that is read as a field, whatever ends it
Reads : Bytes → Bytes → Type 0
Reads t f = (s : Bytes) (more : List Bytes) → Ends s more → fields first (t ++ s) ≡ f ∷ more

plain_Reads : (f : Bytes) → needs_quotes f ≡ false → Reads f f
unfolding Reads
plain_Reads f h s more e = first_read f s more h e

quoted_text :
    (f s : Bytes)
    → concat ((34 ∷ []) ∷ (map double_quotes f ++ ((34 ∷ []) ∷ []))) ++ s
      ≡ 34 ∷ (concat (map double_quotes f) ++ (34 ∷ s))
quoted_text f s =
    simp (concat-append (map double_quotes f), append_assoc (concat (map double_quotes f)))

csv_field-Reads : (f : Bytes) → Reads (concat (csv_field f)) f
unfolding Reads csv_field fields
csv_field-Reads f s more e = elim (Bool-cases (needs_quotes f)) [
  | inl q ↦ rw q (ap (fields first) (quoted_text f s) ∙ quoted_read f s more e)
  | inr q ↦ rw q (ap (fields first) (append_assoc f [] s) ∙ first_read f s more q e)
]

-- There is a call at least.
csv_head :
    (s : Bytes) (texts : List Bytes)
    → (t : Bytes) × (ts : List Bytes) × (csv_field s ++ texts ≡ t ∷ ts)
unfolding csv_field
csv_head s texts = elim (Bool-cases (needs_quotes s)) [
  | inl e ↦ (34 ∷ [], map double_quotes s ++ ((34 ∷ []) ∷ []) ++ texts, rw e refl)
  | inr e ↦ (s, texts, rw e refl)
]

digits_plain :
    (places n : ℕ) (s : Bytes) → needs_quotes s ≡ false → needs_quotes (digits places n s) ≡ false
unfolding digits needs_quotes
digits_plain zero n s h = h
digits_plain (suc places) n s h = ground (arith, digits_plain places (n / 10) ((48 + n % 10) ∷ s))

pub integer_plain : (z : ℤ) → needs_quotes (integer z) ≡ false
unfolding integer needs_quotes
integer_plain (pos n) = digits_plain 20 n [] refl
integer_plain (negsuc n) = digits_plain 20 (suc n) [] refl

-- the fields behind the first two, with the comma before each
unfoldable tail_of : List Bytes → Bytes
tail_of [] = []
tail_of (t ∷ ts) = 44 ∷ (t ++ tail_of ts)

tail_Ends : (fs : List Bytes) → All (λ f. needs_quotes f ≡ false) fs → Ends (tail_of fs) fs
unfolding tail_of
tail_Ends [] h = Ends-nil
tail_Ends (f ∷ fs) (h, hs) =
    subst (Ends (44 ∷ (f ++ tail_of fs))) (first_read f (tail_of fs) fs h (tail_Ends fs hs))
      (Ends-comma (f ++ tail_of fs))

module _ {Double : Type 0} (fmt : ℕ → Double → Bytes) where
  -- the columns behind the vendor and the name
  abbrev columns : SensorData Double → List (String × Bytes)
  columns d =
      ("cpu_cores", integer d.cpu_cores)
      ∷ ("cpu_threads", integer d.cpu_threads)
      ∷ ("cpu_temp_c", fmt 2 d.cpu_temp)
      ∷ ("cpu_temp_min_c", fmt 2 d.cpu_temp_min)
      ∷ ("cpu_temp_max_c", fmt 2 d.cpu_temp_max)
      ∷ ("cpu_temp_avg_c", fmt 2 d.cpu_temp_avg)
      ∷ ("cpu_clock_mhz", integer d.cpu_clock_mhz)
      ∷ ("cpu_clock_max_mhz", integer d.cpu_clock_max_mhz)
      ∷ ("cpu_voltage_v", fmt 4 d.cpu_voltage)
      ∷ ("soc_voltage_v", fmt 4 d.soc_voltage)
      ∷ ("cpu_power_w", fmt 2 d.cpu_power)
      ∷ ("cpu_power_cores_w", fmt 2 d.cpu_power_cores)
      ∷ ("cpu_power_uncore_w", fmt 2 d.cpu_power_uncore)
      ∷ ("cpu_load_percent", fmt 1 d.cpu_load)
      ∷ ("gpu_temp_c", fmt 2 d.gpu_temp)
      ∷ ("memory_used_gb", fmt 2 d.memory_used_gb)
      ∷ ("memory_total_gb", fmt 2 d.memory_total_gb)
      ∷ ("memory_percent", integer d.memory_percent)
      ∷ ("dram_power_w", fmt 2 d.dram_power)
      ∷ ("uptime_days", integer d.uptime_days)
      ∷ ("uptime_hours", integer d.uptime_hours)
      ∷ []

  abbrev pub all_columns : SensorData Double → List (String × Bytes)
  all_columns d = ("cpu_vendor", d.cpu_vendor) ∷ ("cpu_name", d.cpu_name) ∷ columns d

  row_text :
      (d : SensorData Double)
      → concat (csv_texts fmt d)
        ≡ concat (csv_field d.cpu_vendor)
          ++ (44 ∷ (concat (csv_field d.cpu_name) ++ tail_of (map (λ c. c.1) (columns d))))
  unfolding csv_texts comma_integers comma_double tail_of
  row_text d = simp (concat-append, append_assoc {A = ℕ})

  row_read :
      (d : SensorData Double)
      → ((places : ℕ) (x : Double) → needs_quotes (fmt places x) ≡ false)
      → fields first (concat (csv_texts fmt d)) ≡ map (λ c. c.1) (all_columns d)
  unfolding Reads
  row_read d plain =
      ap (fields first) (row_text d)
      ∙ csv_field-Reads d.cpu_vendor _ _ (
          subst (Ends _)
            (csv_field-Reads d.cpu_name _ _ (
              tail_Ends (map (λ c. c.1) (columns d)) (
                integer_plain _,
                (
                  integer_plain _,
                  (
                    plain 2 _,
                    (
                      plain 2 _,
                      (
                        plain 2 _,
                        (
                          plain 2 _,
                          (
                            integer_plain _,
                            (
                              integer_plain _,
                              (
                                plain 4 _,
                                (
                                  plain 4 _,
                                  (
                                    plain 2 _,
                                    (
                                      plain 2 _,
                                      (
                                        plain 2 _,
                                        (
                                          plain 1 _,
                                          (
                                            plain 2 _,
                                            (
                                              plain 2 _,
                                              (
                                                plain 2 _,
                                                (
                                                  integer_plain _,
                                                  (
                                                    plain 2 _,
                                                    (integer_plain _, (integer_plain _, tt)),
                                                  ),
                                                ),
                                              ),
                                            ),
                                          ),
                                        ),
                                      ),
                                    ),
                                  ),
                                ),
                              ),
                            ),
                          ),
                        ),
                      ),
                    ),
                  ),
                ),
              )))
            (Ends-comma _))

  row-put :
      (d : SensorData Double) (b : Bytes) (n : ℕ)
      → 0 < n
      → n ≤ length b
      → let row = concat (csv_texts fmt d) in
        export (csv_texts fmt d) (some b) (pos n)
        ≡ (to_int (pos (length row)), some (put 0 n row b))
  unfolding csv_texts
  row-put d b n h k =
      let (t, ts, e) = csv_head d.cpu_vendor _ in
      subst
        (λ ts.
          export ts (some b) (pos n)
          ≡ (to_int (pos (length (concat ts))), some (put 0 n (concat ts) b)))
        (sym e) (export-put n b t ts h k)

  header_read :
      (d : SensorData Double) → fields first csv_header ≡ map (λ c. codes c.0) (all_columns d)
  unfolding fields
  header_read d = refl

  -- For any snapshot and any printing of the doubles that writes no comma, quote or line break: into
  -- buffers of at least the given size, which is not 0, the two functions write what one `vsnprintf` of
  -- that size would write of a header and of a row, and return the lengths of these whole texts, as an `int`. A
  -- reader of a record by RFC 4180, which ends a record at a line break outside quotes, finds the same columns in both in the same order, with each column's
  -- name in the header, and in the row the vendor and the name as they are, whatever they contain, and
  -- the printed numbers.
  pub export_csv-columns :
      (d : SensorData Double) (b : Bytes) (n : ℕ)
      → ((places : ℕ) (x : Double) → needs_quotes (fmt places x) ≡ false)
      → 0 < n
      → n ≤ length b
      → let names = concat (csv_header ∷ []) in
        let row = concat (csv_texts fmt d) in
        (export_csv_header (some b) (pos n) ≡ (to_int (pos (length names)), some (put 0 n names b)))
        × (export_csv_row fmt (some d) (some b) (pos n)
            ≡ (to_int (pos (length row)), some (put 0 n row b)))
        × (fields first names ≡ map (λ c. codes c.0) (all_columns d))
        × (fields first row ≡ map (λ c. c.1) (all_columns d))
  unfolding export_csv_header export_csv_row
  export_csv-columns d b n plain h k =
      (export-put n b csv_header [] h k, row-put d b n h k, header_read d, row_read d plain)
