-- ===== src/Export/Tests.antt =====
-- core/export.c on a snapshot, and the theorems at it. A double is a whole number here, printed with
-- no places.
use libhwsense.Prelude.{
  ℕ, suc, ◌<◌, ◌≡◌, refl, none, some, [], ◌∷◌, ◌++◌, map, length, drop, get_elem?, replicate,
  length-replicate, arith,
}
use Prim.Native.Nat.{min}
use libhwsense.Prelude.Int.{pos, negsuc, to_int}
use libhwsense.Text.{Bytes, codes}
use libhwsense.Export.{
  Drive, SensorData, put, append, appends, put?, digits, integer, accepts, export,
}
use libhwsense.Export.Append.{concat}
use libhwsense.Export.Contract.{export_json_errors, export_json-fits, export_json_stays}
use libhwsense.Export.Csv.{
  needs_quotes, csv_field, csv_header, csv_texts, comma_integers, comma_double, export_csv_header,
  export_csv_row,
}
use libhwsense.Export.Csv.Columns.{all_columns, export_csv-columns, integer_plain}
use libhwsense.Export.Csv.Reader.{fields, first}
use libhwsense.Export.Json.{escape, json_string, fan_texts, export_json}
use libhwsense.Export.Json.Report.{export_json-put}
use libhwsense.Export.Json.Strings.{read_string, read_string-quoted}
use libhwsense.Export.Json.Tree.{print, quoted, snapshot_value}
use libhwsense.Export.Numbers.{read_integer, read_integer-integer}

abbrev buffer : ℕ → Bytes
buffer n = replicate n 255

abbrev fmt : ℕ → ℕ → Bytes
fmt places x = integer (pos x)

abbrev disk : Drive
disk = record {
  drive_name = codes "C:\\";
  temperature = negsuc 4;
  size_gb = pos 512;
  used_gb = pos 90;
}

abbrev sample : SensorData ℕ
sample = record {
  cpu_vendor = codes "Intel";
  cpu_name = codes "i5, \"P\"";
  cpu_cores = pos 10;
  cpu_threads = pos 12;
  cpu_temp = 45;
  cpu_temp_min = 40;
  cpu_temp_max = 52;
  cpu_temp_avg = 46;
  gpu_temp = 0;
  cpu_clock_mhz = pos 2500;
  cpu_clock_max_mhz = pos 4400;
  cpu_voltage = 1;
  soc_voltage = 1;
  cpu_power = 15;
  cpu_power_cores = 9;
  cpu_power_uncore = 2;
  dram_power = 3;
  memory_used_gb = 8;
  memory_total_gb = 16;
  memory_percent = pos 50;
  cpu_load = 7;
  uptime_days = pos 1;
  uptime_hours = pos 30;
  fan_count = pos 2;
  fan_rpms = pos 900 ∷ pos 1200 ∷ replicate 6 (pos 0);
  drive_count = pos 1;
  drives = disk ∷ [];
}

name_quoted : concat (csv_field (codes "i5, \"P\"")) ≡ codes "\"i5, \"\"P\"\"\""
unfolding csv_field needs_quotes
name_quoted = refl

control_escaped : concat (json_string (1 ∷ 10 ∷ [])) ≡ codes "\"\\u0001\\n\""
unfolding json_string escape
control_escaped = refl

fans_run : concat (fan_texts (pos 2) 0 (pos 900 ∷ pos 1200 ∷ pos 7 ∷ [])) ≡ codes "900,1200"
unfolding fan_texts integer digits
fans_run = refl

row_run :
    concat (csv_texts fmt sample)
    ≡ codes "Intel,\"i5, \"\"P\"\"\",10,12,45,40,52,46,2500,4400,1,1,15,9,2,7,0,8,16,50,3,1,30"
unfolding csv_texts csv_field needs_quotes comma_integers comma_double integer digits
row_run = refl

-- the cut text of a second call
cut_run :
    (export (codes "abc" ∷ codes "def" ∷ []) (some (replicate 7 255)) (pos 5))
    ≡ (pos 6, some (codes "abcd" ++ (0 ∷ 255 ∷ 255 ∷ [])))
unfolding export accepts appends append put? put
cut_run = refl

export_json-put_example :
    let t = print (snapshot_value fmt sample) [] in
    export_json fmt (some sample) (some (buffer 64)) (pos 64)
    ≡ (to_int (pos (length t)), some (put 0 64 t (buffer 64)))
export_json-put_example = export_json-put fmt sample (buffer 64) 64 (omega arith) (omega arith)

export_csv-columns_example :
    let names = concat (csv_header ∷ []) in
    let row = concat (csv_texts fmt sample) in
    let b = buffer 400 in
    (export_csv_header (some b) (pos 400) ≡ (to_int (pos (length names)), some (put 0 400 names b)))
    × (export_csv_row fmt (some sample) (some b) (pos 400)
        ≡ (to_int (pos (length row)), some (put 0 400 row b)))
    × (fields first names ≡ map (λ c. codes c.0) (all_columns fmt sample))
    × (fields first row ≡ map (λ c. c.1) (all_columns fmt sample))
export_csv-columns_example =
    export_csv-columns fmt sample (buffer 400) 400 (λ places x. integer_plain (pos x)) (omega arith)
      (omega arith)

export_json_errors_run : export_json fmt (some sample) none (pos 9) ≡ (negsuc 0, none)
export_json_errors_run = export_json_errors fmt (some sample) none (pos 9) (omega arith)

sample_short : length (print (snapshot_value fmt sample) []) < 2147483647
unfolding print escape integer digits
sample_short = omega arith

export_json-fits_example :
    let t = print (snapshot_value fmt sample) [] in
    (export_json fmt (some sample) none (pos 0) ≡ (pos (length t), none))
    × (export_json fmt (some sample) (some (buffer (suc (length t)))) (pos (suc (length t)))
        ≡ (pos (length t), some (t ++ (0 ∷ []))))
export_json-fits_example =
    export_json-fits fmt sample (buffer (suc (length (print (snapshot_value fmt sample) []))))
      (length-replicate (suc (length (print (snapshot_value fmt sample) []))) 255) sample_short

export_json_stays_run :
    (b' : Bytes) × ((export_json fmt (some sample) (some (buffer 80)) (pos 64)).1 ≡ some b')
    × (length b' ≡ 80)
    × (drop 64 b' ≡ buffer 16)
    × (get_elem? b' (min 63 (length (print (snapshot_value fmt sample) []))) ≡ some 0)
export_json_stays_run = export_json_stays fmt sample (buffer 80) 63 (omega arith)

read_string-quoted_example :
    read_string (quoted (codes "a\"\\\n" ++ (1 ∷ [])) (codes ",1"))
    ≡ some (codes "a\"\\\n" ++ (1 ∷ []), codes ",1")
read_string-quoted_example = read_string-quoted (codes "a\"\\\n" ++ (1 ∷ [])) (codes ",1")

read_integer-integer_run : read_integer (integer (negsuc 89)) ≡ negsuc 89
read_integer-integer_run = read_integer-integer (negsuc 89) (omega arith) (omega arith)
