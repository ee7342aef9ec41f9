-- ===== src/Export/Json/Tree.antt =====
-- The JSON values by RFC 8259, their text, and the value that a snapshot stands for: an object of
-- objects, as core/export.c and docs describe it.
use libhwsense.Prelude.{ℕ, String, List, [], ◌∷◌, ◌++◌, map, take}
use Prim.Native.Nat.{min}
use libhwsense.Prelude.Int.{ℤ, pos_part}
use libhwsense.Text.{Bytes, codes}
use libhwsense.Export.{Drive, SensorData, integer}
use libhwsense.Export.Json.{escape}
use libhwsense.Export.Append.{concat}

mutual
  pub data Json : Type 0 where
    string : Bytes → Json
    number : Bytes → Json
    array : Items → Json
    object : Members → Json

  pub data Items : Type 0 where
    nil : Items
    cons : Json → Items → Items

  pub data Members : Type 0 where
    end : Members
    member : String → Json → Members → Members

-- a quoted text, in front of a rest
abbrev pub quoted : Bytes → Bytes → Bytes
quoted s r = 34 ∷ (concat (map escape s) ++ (34 ∷ r))

-- the text of a value, in front of a rest; `more` has a comma before each element
unfoldable mutual
  pub print : Json → Bytes → Bytes
  print (string s) r = quoted s r
  print (number n) r = n ++ r
  print (array xs) r = 91 ∷ print_items xs (93 ∷ r)
  print (object ms) r = 123 ∷ print_members ms (125 ∷ r)

  pub print_items : Items → Bytes → Bytes
  print_items nil r = r
  print_items (cons x xs) r = print x (more_items xs r)

  pub more_items : Items → Bytes → Bytes
  more_items nil r = r
  more_items (cons x xs) r = 44 ∷ print x (more_items xs r)

  pub print_members : Members → Bytes → Bytes
  print_members end r = r
  print_members (member k x ms) r = quoted (codes k) (58 ∷ print x (more_members ms r))

  pub more_members : Members → Bytes → Bytes
  more_members end r = r
  more_members (member k x ms) r = 44 ∷ quoted (codes k) (58 ∷ print x (more_members ms r))

abbrev pub fan_items : List ℤ → Items
fan_items [] = nil
fan_items (rpm ∷ rpms) = cons (number (integer rpm)) (fan_items rpms)

abbrev pub drive_value : Drive → Json
drive_value d = object (
    member "name" (string d.drive_name) (
      member "temp_c" (number (integer d.temperature)) (
        member "size_gb" (number (integer d.size_gb))
          (member "used_gb" (number (integer d.used_gb)) end))))

abbrev pub drive_items : List Drive → Items
drive_items [] = nil
drive_items (d ∷ ds) = cons (drive_value d) (drive_items ds)

-- how many elements of an array of eight are in use
abbrev pub used : ℤ → ℕ
used count = min (pos_part count) 8

module _ {Double : Type 0} (fmt : ℕ → Double → Bytes) where
  abbrev pub cpu_value : SensorData Double → Json
  cpu_value d = object (
      member "vendor" (string d.cpu_vendor) (
        member "name" (string d.cpu_name) (
          member "cores" (number (integer d.cpu_cores)) (
            member "threads" (number (integer d.cpu_threads)) (
              member "temp_c" (number (fmt 2 d.cpu_temp)) (
                member "temp_min_c" (number (fmt 2 d.cpu_temp_min)) (
                  member "temp_max_c" (number (fmt 2 d.cpu_temp_max)) (
                    member "temp_avg_c" (number (fmt 2 d.cpu_temp_avg)) (
                      member "clock_mhz" (number (integer d.cpu_clock_mhz)) (
                        member "clock_max_mhz" (number (integer d.cpu_clock_max_mhz)) (
                          member "voltage_v" (number (fmt 4 d.cpu_voltage)) (
                            member "soc_voltage_v" (number (fmt 4 d.soc_voltage)) (
                              member "power_w" (number (fmt 2 d.cpu_power)) (
                                member "power_cores_w" (number (fmt 2 d.cpu_power_cores)) (
                                  member "power_uncore_w" (number (fmt 2 d.cpu_power_uncore)) (
                                    member "load_percent" (number (fmt 1 d.cpu_load))
                                      end))))))))))))))))

  abbrev pub memory_value : SensorData Double → Json
  memory_value d = object (
      member "used_gb" (number (fmt 2 d.memory_used_gb)) (
        member "total_gb" (number (fmt 2 d.memory_total_gb)) (
          member "percent" (number (integer d.memory_percent))
            (member "dram_power_w" (number (fmt 2 d.dram_power)) end))))

  abbrev pub snapshot_value : SensorData Double → Json
  snapshot_value d = object (
      member "cpu" (cpu_value d) (
        member "gpu" (object (member "temp_c" (number (fmt 2 d.gpu_temp)) end)) (
          member "memory" (memory_value d) (
            member "fans" (array (fan_items (take (used d.fan_count) d.fan_rpms))) (
              member "drives" (array (drive_items (take (used d.drive_count) d.drives))) (
                member "uptime"
                  (object (
                    member "days" (number (integer d.uptime_days))
                      (member "hours" (number (integer d.uptime_hours)) end)))
                  end))))))
