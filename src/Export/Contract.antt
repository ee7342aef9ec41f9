-- ===== src/Export/Contract.antt =====
-- core/export.c: what the functions promise about the buffer and the result.
use libhwsense.Prelude.{
  ℕ, zero, suc, ◌<◌, ◌≡◌, refl, ap, ◌∙◌, sym, Option, none, some, List, [], ◌∷◌, ◌++◌, length, drop,
  get_elem?, lt→ltb, arith,
}
use libhwsense.Prelude.Int.{ℤ, pos, negsuc, to_int}
use libhwsense.Text.{Bytes}
use libhwsense.Export.{SensorData, put, accepts, export}
use Prim.Native.Nat.{min}
use libhwsense.Export.Buffer.{put_stays}
use libhwsense.Export.Append.{export_measures, put_fits}
use libhwsense.Export.Json.{json_texts, export_json}
use libhwsense.Export.Json.Tree.{print, snapshot_value}
use libhwsense.Export.Json.Report.{export_json-put, snapshot_printed}

-- No snapshot, a negative size, or a null pointer to a size.
abbrev IsRefused {ℓ} : {A : Type ℓ} → Option A → Option Bytes → ℤ → Type 0
IsRefused none buf size = Unit
IsRefused (some d) buf (negsuc n) = Unit
IsRefused (some d) none (pos n) = 0 < n
IsRefused (some d) (some b) (pos n) = ⊥

drop_all : (b : Bytes) (n : ℕ) → length b ≡ n → drop n b ≡ []
drop_all [] zero h = refl
drop_all [] (suc n) h = refl
drop_all (c ∷ b) zero h = absurd (omega arith)
drop_all (c ∷ b) (suc n) h = drop_all b n (omega arith)

null_export : (texts : List Bytes) (n : ℕ) → 0 < n → export texts none (pos n) ≡ (negsuc 0, none)
unfolding export accepts
null_export texts n h = rw (lt→ltb 0 n h) refl

fits_int : (n : ℕ) → n < 2147483647 → to_int (pos n) ≡ pos n
fits_int n h = ground arith

module _ {Double : Type 0} (fmt : ℕ → Double → Bytes) where
  -- Without a snapshot, with a negative size or with a null pointer to a size above 0, the result of
  -- `hwsense_export_json` is -1 and the buffer stays as it is.
  pub export_json_errors :
      (data? : Option (SensorData Double)) (buf : Option Bytes) (size : ℤ)
      → IsRefused data? buf size
      → export_json fmt data? buf size ≡ (negsuc 0, buf)
  unfolding export_json export
  export_json_errors none buf size r = refl
  export_json_errors (some d) buf (negsuc n) r = refl
  export_json_errors (some d) none (pos n) r = null_export (json_texts fmt d) n r
  export_json_errors (some d) (some b) (pos n) r = elim r [ ]

  -- Of any snapshot, a first call with the size 0 and a null pointer returns a length, and a second
  -- call with a buffer of one byte more than that length returns the same length and leaves the whole
  -- text of the snapshot's JSON value in it, with a zero behind it, if the buffer's size fits an `int`.
  pub export_json-fits :
      (d : SensorData Double) (b : Bytes)
      → let t = print (snapshot_value fmt d) [] in
        length b ≡ suc (length t)
        → length t < 2147483647
        → (export_json fmt (some d) none (pos 0) ≡ (pos (length t), none))
          × (export_json fmt (some d) (some b) (pos (suc (length t)))
              ≡ (pos (length t), some (t ++ (0 ∷ []))))
  unfolding export_json
  export_json-fits d b h short =
      let t = print (snapshot_value fmt d) [] in
      let as_is = fits_int (length t) short in
      (
        rw (sym (snapshot_printed fmt d)) (export_measures none (json_texts fmt d))
            ∙ ap (λ (r : ℤ). (r, none)) as_is,
        export_json-put fmt d b _ (omega arith) (omega arith)
            ∙ ap (λ (r : ℤ). (r, some (put 0 (suc (length t)) t b))) as_is
            ∙ ap (λ b'. (pos (length t), some b'))
                (put_fits _ t b (omega arith)
                  ∙ ap (λ r. t ++ (0 ∷ r)) (drop_all b (suc (length t)) h)),
      )

  -- Of any snapshot, `hwsense_export_json` into a buffer of at least the given size, which is not 0,
  -- changes no byte at or behind the size and keeps the buffer's length, and the byte behind what is
  -- written of the text is the terminator, whether the text is cut or not.
  pub export_json_stays :
      (d : SensorData Double) (b : Bytes) (n : ℕ)
      → n < length b
      → (b' : Bytes) × ((export_json fmt (some d) (some b) (pos (suc n))).1 ≡ some b')
        × (length b' ≡ length b)
        × (drop (suc n) b' ≡ drop (suc n) b)
        × (get_elem? b' (min n (length (print (snapshot_value fmt d) []))) ≡ some 0)
  export_json_stays d b n h =
      let t = print (snapshot_value fmt d) [] in
      let (el, ed, et) = put_stays n t b h in
      (
        put 0 (suc n) t b,
        ap (λ r. r.1) (export_json-put fmt d b (suc n) (omega arith) (omega arith)),
        el,
        ed,
        et,
      )
