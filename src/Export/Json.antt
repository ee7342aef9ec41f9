-- ===== src/Export/Json.antt =====
-- core/export.c: the JSON text, each call of `append` as an element of a list.
pub mod Strings
pub mod Tree
pub mod Report
use libhwsense.Prelude.{
  ℕ, suc, ◌+◌, ◌/◌, ◌%◌, Bool, true, false, ◌&&◌, ◌||◌, Option, none, some, List, [], ◌∷◌, ◌++◌,
  map, ltb, ◌==◌, if◌then◌else◌,
}
use libhwsense.Prelude.Int.{ℤ, pos, negsuc, ltb_ℤ}
use libhwsense.Text.{Bytes, codes}
use libhwsense.Export.{Drive, SensorData, integer, export}

abbrev pub hex_digit : ℕ → ℕ
hex_digit d = if ltb d 10 then 48 + d else 87 + d

-- the switch over a byte
unfoldable pub escape : ℕ → Bytes
escape c =
    if c == 34
    then 92 ∷ 34 ∷ []
    else if c == 92
    then 92 ∷ 92 ∷ []
    else if c == 8
    then codes "\\b"
    else if c == 12
    then codes "\\f"
    else if c == 10
    then codes "\\n"
    else if c == 13
    then codes "\\r"
    else if c == 9
    then codes "\\t"
    else if ltb c 0x20
    then codes "\\u00" ++ (hex_digit (c / 16) ∷ hex_digit (c % 16) ∷ [])
    else c ∷ []

-- the texts that `append_json_string` appends
unfoldable pub json_string : Bytes → List Bytes
json_string s = (34 ∷ []) ∷ (map escape s ++ ((34 ∷ []) ∷ []))

abbrev pub separator : ℕ → Bytes
separator i = if i == 0 then [] else 44 ∷ []

-- the loop over the fans, from the element `i` on
unfoldable pub fan_texts : ℤ → ℕ → List ℤ → List Bytes
fan_texts count i [] = []
fan_texts count i (rpm ∷ rpms) =
    if ltb_ℤ (pos i) count && ltb i 8
    then (separator i ++ integer rpm) ∷ fan_texts count (suc i) rpms
    else []

unfoldable pub drive_text : ℕ → Drive → List Bytes
drive_text i d =
    (separator i ++ codes "{\"name\":")
    ∷ (json_string d.drive_name
        ++ ((codes ",\"temp_c\":" ++ integer d.temperature)
            ∷ (codes ",\"size_gb\":" ++ integer d.size_gb)
            ∷ (codes ",\"used_gb\":" ++ integer d.used_gb)
            ∷ codes "}"
            ∷ []))

unfoldable pub drive_texts : ℤ → ℕ → List Drive → List Bytes
drive_texts count i [] = []
drive_texts count i (d ∷ ds) =
    if ltb_ℤ (pos i) count && ltb i 8 then drive_text i d ++ drive_texts count (suc i) ds else []

module _ {Double : Type 0} (fmt : ℕ → Double → Bytes) where
  unfoldable pub json_texts : SensorData Double → List Bytes
  json_texts d =
      codes "{"
      ∷ codes "\"cpu\":{"
      ∷ codes "\"vendor\":"
      ∷ (json_string d.cpu_vendor
          ++ (codes ",\"name\":"
              ∷ (json_string d.cpu_name
                  ++ ((codes ",\"cores\":" ++ integer d.cpu_cores)
                      ∷ (codes ",\"threads\":" ++ integer d.cpu_threads)
                      ∷ (codes ",\"temp_c\":" ++ fmt 2 d.cpu_temp)
                      ∷ (codes ",\"temp_min_c\":" ++ fmt 2 d.cpu_temp_min)
                      ∷ (codes ",\"temp_max_c\":" ++ fmt 2 d.cpu_temp_max)
                      ∷ (codes ",\"temp_avg_c\":" ++ fmt 2 d.cpu_temp_avg)
                      ∷ (codes ",\"clock_mhz\":" ++ integer d.cpu_clock_mhz)
                      ∷ (codes ",\"clock_max_mhz\":" ++ integer d.cpu_clock_max_mhz)
                      ∷ (codes ",\"voltage_v\":" ++ fmt 4 d.cpu_voltage)
                      ∷ (codes ",\"soc_voltage_v\":" ++ fmt 4 d.soc_voltage)
                      ∷ (codes ",\"power_w\":" ++ fmt 2 d.cpu_power)
                      ∷ (codes ",\"power_cores_w\":" ++ fmt 2 d.cpu_power_cores)
                      ∷ (codes ",\"power_uncore_w\":" ++ fmt 2 d.cpu_power_uncore)
                      ∷ (codes ",\"load_percent\":" ++ fmt 1 d.cpu_load)
                      ∷ codes "}"
                      ∷ (codes ",\"gpu\":{\"temp_c\":" ++ (fmt 2 d.gpu_temp ++ codes "}"))
                      ∷ codes ",\"memory\":{"
                      ∷ (codes "\"used_gb\":" ++ fmt 2 d.memory_used_gb)
                      ∷ (codes ",\"total_gb\":" ++ fmt 2 d.memory_total_gb)
                      ∷ (codes ",\"percent\":" ++ integer d.memory_percent)
                      ∷ (codes ",\"dram_power_w\":" ++ fmt 2 d.dram_power)
                      ∷ codes "}"
                      ∷ codes ",\"fans\":["
                      ∷ (fan_texts d.fan_count 0 d.fan_rpms
                          ++ (codes "]"
                              ∷ codes ",\"drives\":["
                              ∷ (drive_texts d.drive_count 0 d.drives
                                  ++ (codes "]"
                                      ∷ (codes ",\"uptime\":{\"days\":"
                                          ++ (integer d.uptime_days
                                              ++ (codes ",\"hours\":"
                                                  ++ (integer d.uptime_hours ++ codes "}"))))
                                      ∷ codes "}"
                                      ∷ []))))))))

  -- `none` is a null `data`
  unfoldable pub export_json : Option (SensorData Double) → Option Bytes → ℤ → ℤ × Option Bytes
  export_json none buf buf_size = (negsuc 0, buf)
  export_json (some d) buf buf_size = export (json_texts d) buf buf_size
