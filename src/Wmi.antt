-- ===== src/Wmi.antt =====
-- core/wmi.c: readings of Windows Management Instrumentation. What COM gives is a parameter: a service
-- answers a query with a list of objects, and an object gives a variant for the name of a property. An
-- output is what it was before where nothing is written to it.
pub mod Zones
mod Tests
use libhwsense.Prelude.{
  ℕ, zero, suc, ◌+◌, ◌*◌, ◌/◌, ◌%◌, ◌-◌, Bool, true, false, Option, none, some, List, [], ◌∷◌, ltb,
  ◌==◌, if◌then◌else◌,
}
use libhwsense.Prelude.Int.{ℤ, pos, negsuc, ◌-ℤ◌, ◌*ℤ◌}
use libhwsense.Slots.Chosen.{collect}
use libhwsense.Text.{Bytes, codes}

-- `vt` with the text in the code page, or with the first 16 bits of the value (`iVal`, which the code reads whatever
-- the type is)
pub data Variant : Type 0 where
  bstr : Bytes → ℕ → Variant
  null_bstr : Variant
  i4 : ℕ → Variant
  boolean : Bool → ℕ → Variant
  other : ℕ → Variant

abbrev pub Object : Type 0
Object = Bytes → Option Variant

abbrev pub Service : Type 0
Service = Bytes → Option (List Object)

-- the static variables, less the locator
pub record Wmi : Type 0 where
  pub initialized : Bool
  pub svc_wmi : Option Service
  pub svc_cim : Option Service

-- the low half of a value as a signed short
unfoldable pub short : ℕ → ℤ
short n = let low = n % 65536 in if ltb low 32768 then pos low else negsuc (65535 - low)

unfoldable pub i_val : Variant → ℤ
i_val (bstr text low) = short low
i_val null_bstr = pos 0
i_val (i4 n) = short n
i_val (boolean b low) = short low
i_val (other low) = short low

unfoldable pub get_str : Object → Bytes → Bytes → Bytes
get_str obj name old = elim (obj name) [
  | none ↦ old
  | some v ↦ elim v [
    | bstr text low ↦ text
    | null_bstr ↦ old
    | i4 n ↦ old
    | boolean b low ↦ old
    | other low ↦ old
  ]
]

unfoldable pub int_of : Option Variant → Option ℤ
int_of (some (i4 n)) = some (short n)
int_of _ = none

unfoldable pub get_int : Object → Bytes → Option ℤ
get_int obj name = int_of (obj name)

abbrev pub or_old : ℤ → Option ℤ → ℤ
or_old old none = old
or_old old (some v) = v

abbrev pub answer : Option Service → Bytes → List Object
answer none query = []
answer (some svc) query = elim (svc query) [ none ↦ [] | some objects ↦ objects ]

-- in tenths of a degree: `(iVal - 2732) / 10.0`, and `r / 10.0`
unfoldable pub zone_temp : Object → Option ℤ
zone_temp obj = elim (get_int obj (codes "CurrentTemperature")) [
  | none ↦ none
  | some v ↦ some (v -ℤ pos 2732)
]

unfoldable pub probe_temp : Object → Option ℤ
probe_temp obj = get_int obj (codes "CurrentReading")

abbrev or_probes : List ℤ → List ℤ → List ℤ
or_probes [] probes = probes
or_probes (t ∷ ts) probes = t ∷ ts

-- The temperatures, without the names. The second source is asked when the first gives none.
unfoldable pub read_thermal_zones : Wmi → ℕ → List ℤ
read_thermal_zones w max_temps =
    if w.initialized
    then or_probes
        (collect zone_temp (answer w.svc_wmi (codes "SELECT * FROM MSAcpi_ThermalZoneTemperature"))
          max_temps)
        (collect probe_temp (answer w.svc_cim (codes "SELECT * FROM Win32_TemperatureProbe"))
          max_temps)
    else []

pub record CpuInfo : Type 0 where
  pub name : Bytes
  pub max_clock_mhz : ℤ
  pub current_clock_mhz : ℤ
  pub voltage_mv : ℤ
  pub load_percent : ℤ
  pub temperature : ℤ

abbrev cpu_of : List Object → CpuInfo → Bool × CpuInfo
cpu_of [] info = (false, info)
cpu_of (obj ∷ objects) info = (
  true,
  record info {
    name = get_str obj (codes "Name") info.name;
    max_clock_mhz = or_old info.max_clock_mhz (get_int obj (codes "MaxClockSpeed"));
    current_clock_mhz = or_old info.current_clock_mhz (get_int obj (codes "CurrentClockSpeed"));
    voltage_mv = or_old info.voltage_mv (get_int obj (codes "CurrentVoltage")) *ℤ pos 100;
    load_percent = or_old info.load_percent (get_int obj (codes "LoadPercentage"));
  },
)

-- the result, and what stands behind the pointer
unfoldable pub read_cpu_info : Wmi → CpuInfo → Bool × CpuInfo
read_cpu_info w info =
    if w.initialized
    then cpu_of (answer w.svc_cim (codes "SELECT * FROM Win32_Processor")) info
    else (false, info)

pub record FanInfo : Type 0 where
  pub name : Bytes
  pub active_cooling : Bool
  pub desired_speed : ℤ

abbrev cooling_of : Bool → Option Variant → Bool
cooling_of old none = old
cooling_of old (some (boolean b low)) = b
cooling_of old (some (bstr text low)) = false
cooling_of old (some null_bstr) = false
cooling_of old (some (i4 n)) = false
cooling_of old (some (other low)) = false

abbrev speed_of : ℤ → Option Variant → ℤ
speed_of old none = old
speed_of old (some v) = i_val v

unfoldable pub fan_of : FanInfo → Object → FanInfo
fan_of old obj = record {
  name = get_str obj (codes "Name") old.name;
  active_cooling = cooling_of old.active_cooling (obj (codes "ActiveCooling"));
  desired_speed = speed_of old.desired_speed (obj (codes "DesiredSpeed"));
}

-- the fans into the cells of an array
unfoldable pub fill_fans : List Object → List FanInfo → List FanInfo
fill_fans [] cells = []
fill_fans (obj ∷ objects) [] = []
fill_fans (obj ∷ objects) (old ∷ cells) = fan_of old obj ∷ fill_fans objects cells

unfoldable pub read_fans : Wmi → List FanInfo → List FanInfo
read_fans w cells =
    if w.initialized
    then fill_fans (answer w.svc_cim (codes "SELECT * FROM Win32_Fan")) cells
    else []

-- in tenths of a volt
pub record VoltageInfo : Type 0 where
  pub name : Bytes
  pub voltage : ℤ
  pub max_voltage : ℤ
  pub min_voltage : ℤ

unfoldable pub voltage_of : VoltageInfo → Object → VoltageInfo
voltage_of old obj = record {
  name = get_str obj (codes "Name") old.name;
  voltage = or_old old.voltage (get_int obj (codes "CurrentReading"));
  max_voltage = or_old old.max_voltage (get_int obj (codes "MaxReading"));
  min_voltage = or_old old.min_voltage (get_int obj (codes "MinReading"));
}

unfoldable pub fill_voltages : List Object → List VoltageInfo → List VoltageInfo
fill_voltages [] cells = []
fill_voltages (obj ∷ objects) [] = []
fill_voltages (obj ∷ objects) (old ∷ cells) = voltage_of old obj ∷ fill_voltages objects cells

unfoldable pub read_voltages : Wmi → List VoltageInfo → List VoltageInfo
read_voltages w cells =
    if w.initialized
    then fill_voltages (answer w.svc_cim (codes "SELECT * FROM Win32_VoltageProbe")) cells
    else []
