-- ===== src/Export/Json/Report.antt =====
-- core/export.c: the JSON text is the text of the value that the snapshot stands for.
use libhwsense.Prelude.{
  ℕ, zero, suc, ◌-◌, ◌<◌, ◌≤◌, ◌≡◌, refl, ap, ◌∙◌, sym, true, false, Bool-cases, inl, inr, some,
  List, [], ◌∷◌, ◌++◌, map, take, take-nil, length, ltb, ◌&&◌, arith,
}
use mathlib.Core.List.{append_assoc}
use libhwsense.Prelude.Int.{ℤ, pos, ltb_ℤ, to_int}
use libhwsense.Text.{Bytes}
use libhwsense.Export.{Drive, SensorData, integer, put}
use libhwsense.Export.Append.{concat, concat-append, export-put}
use libhwsense.Export.Json.{
  escape, separator, json_string, fan_texts, drive_text, drive_texts, json_texts, export_json,
}
use libhwsense.Export.Json.Tree.{
  number, Items, nil, cons, quoted, print, print_items, more_items, print_members, more_members,
  fan_items, drive_value, drive_items, used, snapshot_value,
}

-- a string among other texts
string_texts :
    (s : Bytes) (texts : List Bytes) → concat (json_string s ++ texts) ≡ quoted s (concat texts)
unfolding json_string
string_texts s texts =
    ap (λ t. 34 ∷ t)
      (simp (
        append_assoc (map escape s) ((34 ∷ []) ∷ []) texts,
        concat-append (map escape s) ((34 ∷ []) ∷ texts),
      ))

-- the separator and the items from an element on
items_from : ℕ → Items → Bytes → Bytes
items_from zero xs r = print_items xs r
items_from (suc i) xs r = more_items xs r

no_items : (i : ℕ) (r : Bytes) → items_from i nil r ≡ r
unfolding items_from print_items more_items
no_items zero r = refl
no_items (suc i) r = refl

in_use : (count : ℤ) (i : ℕ) → (ltb_ℤ (pos i) count && ltb i 8) ≡ ltb i (used count)
in_use count i = ground arith

one_left : (i n : ℕ) → ltb i n ≡ true → n - i ≡ suc (n - suc i)
one_left i n h = ground arith

none_left : (i n : ℕ) → ltb i n ≡ false → n - i ≡ 0
none_left i n h = ground arith

fan_printed :
    (i : ℕ) (rpm : ℤ) (xs : Items) (r : Bytes)
    → (separator i ++ integer rpm) ++ more_items xs r
      ≡ items_from i (cons (number (integer rpm)) xs) r
unfolding items_from print print_items more_items
fan_printed zero rpm xs r = refl
fan_printed (suc i) rpm xs r = ground arith

fans_printed :
    (count : ℤ) (i : ℕ) (rpms : List ℤ) (texts : List Bytes)
    → concat (fan_texts count i rpms ++ texts)
      ≡ items_from i (fan_items (take (used count - i) rpms)) (concat texts)
unfolding fan_texts items_from more_items
fans_printed count i [] texts = rw (take-nil ℤ (used count - i)) (sym (no_items i (concat texts)))
fans_printed count i (rpm ∷ rpms) texts = elim (Bool-cases (ltb i (used count))) [
  | inl e ↦
      rw (in_use count i ∙ e, one_left i (used count) e)
        (ap (λ s. (separator i ++ integer rpm) ++ s) (fans_printed count (suc i) rpms texts)
          ∙ fan_printed i rpm _ (concat texts))
  | inr e ↦ rw (in_use count i ∙ e, none_left i (used count) e) (sym (no_items i (concat texts)))
]

comma_first : (i : ℕ) → separator (suc i) ≡ 44 ∷ []
comma_first i = ground arith

drive_printed :
    (i : ℕ) (d : Drive) (xs : Items) (texts : List Bytes) (r : Bytes)
    → concat texts ≡ more_items xs r
    → concat (drive_text i d ++ texts) ≡ items_from i (cons (drive_value d) xs) r
unfolding drive_text items_from print print_items more_items print_members more_members escape
drive_printed zero d xs texts r h =
    simp (append_assoc {A = Bytes} (json_string d.drive_name), string_texts d.drive_name, h)
drive_printed (suc i) d xs texts r h = simp (
  comma_first i,
  append_assoc {A = Bytes} (json_string d.drive_name),
  string_texts d.drive_name,
  h,
)

drives_printed :
    (count : ℤ) (i : ℕ) (ds : List Drive) (texts : List Bytes)
    → concat (drive_texts count i ds ++ texts)
      ≡ items_from i (drive_items (take (used count - i) ds)) (concat texts)
unfolding drive_texts items_from more_items
drives_printed count i [] texts =
    rw (take-nil Drive (used count - i)) (sym (no_items i (concat texts)))
drives_printed count i (d ∷ ds) texts = elim (Bool-cases (ltb i (used count))) [
  | inl e ↦
      rw (in_use count i ∙ e, one_left i (used count) e)
        (ap concat (append_assoc (drive_text i d) (drive_texts count (suc i) ds) texts)
          ∙ drive_printed i d _ (drive_texts count (suc i) ds ++ texts) (concat texts)
              (drives_printed count (suc i) ds texts))
  | inr e ↦ rw (in_use count i ∙ e, none_left i (used count) e) (sym (no_items i (concat texts)))
]

sub_zero : (n : ℕ) → n - 0 ≡ n
sub_zero n = omega arith

module _ {Double : Type 0} (fmt : ℕ → Double → Bytes) where
  pub snapshot_printed :
      (d : SensorData Double) → concat (json_texts fmt d) ≡ print (snapshot_value fmt d) []
  unfolding json_texts print print_items more_items print_members more_members escape integer
      items_from
  snapshot_printed d = simp (
    string_texts d.cpu_vendor,
    string_texts d.cpu_name,
    append_assoc (fmt 2 d.gpu_temp),
    append_assoc (integer d.uptime_days),
    append_assoc (integer d.uptime_hours),
    fans_printed d.fan_count 0 d.fan_rpms,
    drives_printed d.drive_count 0 d.drives,
    sub_zero (used d.fan_count),
    sub_zero (used d.drive_count),
  )

  -- Of any snapshot, with any printing of the doubles, `hwsense_export_json` writes into a buffer of at
  -- least the given size, which is not 0, what one `vsnprintf` of that size would write of the text of
  -- the snapshot's JSON value, and returns the length of that whole text, as an `int`. The value has the used ones
  -- of the fans and drives, at most eight of each.
  pub export_json-put :
      (d : SensorData Double) (b : Bytes) (n : ℕ)
      → 0 < n
      → n ≤ length b
      → let t = print (snapshot_value fmt d) [] in
        export_json fmt (some d) (some b) (pos n) ≡ (to_int (pos (length t)), some (put 0 n t b))
  unfolding export_json json_texts
  export_json-put d b n h k = rw (sym (snapshot_printed d)) (export-put n b _ _ h k)
