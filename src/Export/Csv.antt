-- ===== src/Export/Csv.antt =====
-- core/export.c: the CSV texts, each call of `append` as an element of a list.
pub mod Reader
pub mod Columns
use libhwsense.Prelude.{
  ℕ, suc, ◌+◌, ◌/◌, ◌%◌, Bool, true, false, ◌&&◌, ◌||◌, Option, none, some, List, [], ◌∷◌, ◌++◌,
  map, ltb, ◌==◌, if◌then◌else◌,
}
use libhwsense.Prelude.Int.{ℤ, pos, negsuc, ltb_ℤ}
use libhwsense.Text.{Bytes, codes}
use libhwsense.Export.{Drive, SensorData, integer, export}

unfoldable pub needs_quotes : Bytes → Bool
needs_quotes [] = false
needs_quotes (c ∷ s) = c == 44 || c == 34 || c == 10 || c == 13 || needs_quotes s

abbrev pub double_quotes : ℕ → Bytes
double_quotes c = if c == 34 then 34 ∷ 34 ∷ [] else c ∷ []

-- the texts that `append_csv_field` appends
unfoldable pub csv_field : Bytes → List Bytes
csv_field s =
    if needs_quotes s then (34 ∷ []) ∷ (map double_quotes s ++ ((34 ∷ []) ∷ [])) else s ∷ []

abbrev pub csv_header : Bytes
csv_header =
    codes
      "cpu_vendor,cpu_name,cpu_cores,cpu_threads,cpu_temp_c,cpu_temp_min_c,cpu_temp_max_c,cpu_temp_avg_c,cpu_clock_mhz,cpu_clock_max_mhz,cpu_voltage_v,soc_voltage_v,cpu_power_w,cpu_power_cores_w,cpu_power_uncore_w,cpu_load_percent,gpu_temp_c,memory_used_gb,memory_total_gb,memory_percent,dram_power_w,uptime_days,uptime_hours"

unfoldable pub export_csv_header : Option Bytes → ℤ → ℤ × Option Bytes
export_csv_header = export (csv_header ∷ [])

module _ {Double : Type 0} (fmt : ℕ → Double → Bytes) where
  -- `,%d,%d`, and `,%.*f` of some values in one call
  unfoldable pub comma_integers : ℤ → ℤ → Bytes
  comma_integers m n = (44 ∷ integer m) ++ (44 ∷ integer n)

  unfoldable pub comma_double : ℕ → Double → Bytes
  comma_double places x = 44 ∷ fmt places x

  unfoldable pub csv_texts : SensorData Double → List Bytes
  csv_texts d =
      csv_field d.cpu_vendor
      ++ (codes ","
          ∷ (csv_field d.cpu_name
              ++ (comma_integers d.cpu_cores d.cpu_threads
                  ∷ (comma_double 2 d.cpu_temp
                      ++ (comma_double 2 d.cpu_temp_min
                          ++ (comma_double 2 d.cpu_temp_max ++ comma_double 2 d.cpu_temp_avg)))
                  ∷ comma_integers d.cpu_clock_mhz d.cpu_clock_max_mhz
                  ∷ (comma_double 4 d.cpu_voltage ++ comma_double 4 d.soc_voltage)
                  ∷ (comma_double 2 d.cpu_power
                      ++ (comma_double 2 d.cpu_power_cores ++ comma_double 2 d.cpu_power_uncore))
                  ∷ comma_double 1 d.cpu_load
                  ∷ comma_double 2 d.gpu_temp
                  ∷ (comma_double 2 d.memory_used_gb
                      ++ (comma_double 2 d.memory_total_gb ++ (44 ∷ integer d.memory_percent)))
                  ∷ comma_double 2 d.dram_power
                  ∷ comma_integers d.uptime_days d.uptime_hours
                  ∷ [])))

  -- `none` is a null `data`
  unfoldable pub export_csv_row : Option (SensorData Double) → Option Bytes → ℤ → ℤ × Option Bytes
  export_csv_row none buf buf_size = (negsuc 0, buf)
  export_csv_row (some d) buf buf_size = export (csv_texts d) buf buf_size
