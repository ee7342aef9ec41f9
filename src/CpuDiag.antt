-- ===== src/CpuDiag.antt =====
-- cpu/cpu_diag.c: what CPUID says of the processor. The instruction is a parameter: the registers EAX,
-- EBX, ECX and EDX of a leaf, as words of 32 bits. The list of sensors and the warnings are lists of the texts that
-- snprintf joins.
pub mod Families
mod Tests
use libhwsense.Prelude.{
  ℕ, zero, suc, ◌+◌, ◌*◌, ◌/◌, ◌%◌, ◌^◌, Bool, true, false, not, ◌&&◌, ◌||◌, Option, some, List, [],
  ◌∷◌, ◌++◌, take, ◌==◌, if◌then◌else◌,
}
use libhwsense.Prelude.Word.{field, test_bit}
use libhwsense.Text.{Bytes, codes, strstr}
use libhwsense.Sensor.{cpu_family_known}

pub record Registers : Type 0 where
  pub eax : ℕ
  pub ebx : ℕ
  pub ecx : ℕ
  pub edx : ℕ

-- the bytes of a register in memory
abbrev pub bytes_of : ℕ → Bytes
bytes_of r = field r 0 8 ∷ field r 8 8 ∷ field r 16 8 ∷ field r 24 8 ∷ []

-- the text up to the terminator
unfoldable pub before_nul : Bytes → Bytes
before_nul [] = []
before_nul (c ∷ s) = if c == 0 then [] else c ∷ before_nul s

-- the loop that cuts the spaces at the end
unfoldable pub put_back : ℕ → Bytes → Bytes
put_back c [] = if c == 32 then [] else c ∷ []
put_back c (d ∷ s) = c ∷ d ∷ s

unfoldable pub trimmed : Bytes → Bytes
trimmed [] = []
trimmed (c ∷ s) = put_back c (trimmed s)

abbrev pub memory_of : Registers → Bytes
memory_of r = bytes_of r.eax ++ (bytes_of r.ebx ++ (bytes_of r.ecx ++ bytes_of r.edx))

-- into 64 bytes, of which the three leaves fill 48
unfoldable pub get_cpu_brand : (ℕ → Registers) → Bytes
get_cpu_brand cpuid = trimmed (
    before_nul (
      memory_of (cpuid 0x80000002)
      ++ (memory_of (cpuid 0x80000003) ++ memory_of (cpuid 0x80000004))))

unfoldable pub vendor_of : Registers → Bytes
vendor_of r = before_nul (bytes_of r.ebx ++ (bytes_of r.edx ++ bytes_of r.ecx))

-- the family and the model, from EAX of leaf 1
unfoldable pub family_of : ℕ → ℕ
family_of eax =
    let family = field eax 8 4 in if family == 0x0f then family + field eax 20 8 else family

unfoldable pub model_of : ℕ → ℕ
model_of eax =
    let family = field eax 8 4 in
    if family == 0x06 || family == 0x0f then field eax 4 4 + field eax 16 4 * 16 else field eax 4 4

pub data Warning : Type 0 where
  unknown_family : ℕ → ℕ → Warning
  no_rapl : Warning
  no_thermal_monitor : Warning

pub record CpuDiagResult : Type 0 where
  pub ok : Bool
  pub vendor : Bytes
  pub brand : Bytes
  pub family : ℕ
  pub model : ℕ
  pub stepping : ℕ
  pub ext_family : ℕ
  pub ext_model : ℕ
  pub cores : ℕ
  pub threads : ℕ
  pub max_threads_per_core : ℕ
  pub tsc_invariant : Bool
  pub rapl_support : Bool
  pub hwp_support : Bool
  pub aperf_mperf : Bool
  pub msr_support : Bool
  pub thermal_monitor : Bool
  pub family_known : Bool
  pub supported_sensors : List Bytes
  pub warnings : List Warning

-- one element more when a test holds
abbrev pub add_if : {A : Type 0} → Bool → A → List A → List A
add_if true a more = a ∷ more
add_if false a more = more

unfoldable pub cpu_diag_detect : (ℕ → Registers) → CpuDiagResult
cpu_diag_detect cpuid =
    let vendor = vendor_of (cpuid 0) in
    let f = cpuid 1 in
    let is_intel = strstr vendor (codes "Intel") in
    let msr = test_bit f.edx 5 in
    let thermal = test_bit f.edx 29 in
    let rapl = is_intel && test_bit (cpuid 0x06).ecx 13 in
    let hwp = test_bit f.eax 10 in
    let aperf = test_bit f.ecx 1 in
    let known = cpu_family_known (some vendor) (family_of f.eax) in
    record {
      ok = true;
      vendor = vendor;
      brand = get_cpu_brand cpuid;
      family = family_of f.eax;
      model = model_of f.eax;
      stepping = field f.eax 0 4;
      ext_family = field f.eax 20 8;
      ext_model = field f.eax 16 4;
      cores = field f.ebx 16 8 + 1;
      threads = field f.eax 16 8 + 1;
      max_threads_per_core = (field f.eax 16 8 + 1) / (field f.ebx 16 8 + 1);
      tsc_invariant = test_bit f.edx 8;
      rapl_support = rapl;
      hwp_support = hwp;
      aperf_mperf = aperf;
      msr_support = msr;
      thermal_monitor = thermal;
      family_known = known;
      supported_sensors = add_if msr (codes "MSR ") (
          add_if thermal (codes "Thermal ") (
            add_if rapl (codes "RAPL ")
              (add_if hwp (codes "HWP ") (add_if aperf (codes "APERF/MPERF ") []))));
      warnings =
          add_if (not known) (unknown_family (family_of f.eax) (model_of f.eax))
            (add_if (not rapl && is_intel) no_rapl (add_if (not thermal) no_thermal_monitor []));
    }
