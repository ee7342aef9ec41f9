-- ===== src/Graphics/Linux.antt =====
-- gpu/gpu_linux.c: a graphics processor from NVIDIA's library, from amdgpu, or from the nodes of a phone's
-- chip. The library, which `dlopen` loads, is a parameter: its functions, each of which may be missing or fail.
use libhwsense.Prelude.{
  ℕ, ◌*◌, ◌/◌, ◌==◌, Bool, true, false, not, ◌&&◌, Option, none, some, [], ◌∷◌, if◌then◌else◌,
}
use libhwsense.Prelude.Int.{ℤ, pos, negsuc, to_int}
use libhwsense.Text.{Bytes, codes}
use libhwsense.Board.{degrees}
use libhwsense.Sysfs.{Files}
use libhwsense.Thermal.{KgslInfo, thermal_gpu_temp, kgsl_info}
use libhwsense.CpuTemp.{thermal_root}
use libhwsense.Graphics.{GpuInfo, no_info, amdgpu_info_linux}

-- what `dlsym` finds: `init` succeeds or not, and a device is a handle of any type
pub record Symbols (Dev : Type 0) : Type 0 where
  pub init : Option Bool
  pub by_index : Option (ℕ → Option Dev)
  pub get_name : Option (Dev → Bytes)
  pub get_temp : Option (Dev → Option ℕ)
  pub get_mem : Option (Dev → Option (ℕ × ℕ))
  pub get_power : Option (Dev → Option ℕ)
  pub get_limit : Option (Dev → Option ℕ)
  pub get_util : Option (Dev → Option (ℕ × ℕ))
  pub get_clock : Option (Dev → ℕ → Option ℕ)

-- the library in use, with the functions that it must have
pub record Nvml (Dev : Type 0) : Type 0 where
  pub symbols : Symbols Dev
  pub device : ℕ → Option Dev
  pub temp_of : Dev → Option ℕ

-- the static variable `nv`: before the first call, or with what that call has loaded
pub data NvState (Dev : Type 0) : Type 0 where
  untried : NvState Dev
  tried : Option (Nvml Dev) → NvState Dev

-- the tests behind `dlsym`
unfoldable pub usable :
    {Dev : Type 0}
    → Symbols Dev
    → Option Bool
    → Option (ℕ → Option Dev)
    → Option (Dev → Option ℕ)
    → Option (Nvml Dev)
usable s (some true) (some device) (some temp_of) =
    some (record { symbols = s; device = device; temp_of = temp_of })
usable s _ _ _ = none

unfoldable pub loaded : {Dev : Type 0} → Option (Symbols Dev) → Option (Nvml Dev)
loaded none = none
loaded (some s) = usable s s.init s.by_index s.get_temp

-- `lib` is what loading the library gives at this call, `none` if it fails.
unfoldable pub nvml_load : {Dev : Type 0} → Option (Symbols Dev) → NvState Dev → Option (Nvml Dev)
nvml_load lib untried = loaded lib
nvml_load lib (tried nv) = nv

-- a call of a function that may be missing
abbrev pub ask : {Dev A : Type 0} → Option (Dev → Option A) → Dev → Option A
ask none dev = none
ask (some f) dev = f dev

abbrev pub ask_clock : {Dev : Type 0} → Option (Dev → ℕ → Option ℕ) → Dev → ℕ → Option ℕ
ask_clock none dev clock = none
ask_clock (some f) dev clock = f dev clock

abbrev name_or_none : {Dev : Type 0} → Option (Dev → Bytes) → Dev → Bytes
name_or_none none dev = []
name_or_none (some f) dev = f dev

abbrev over : Option ℕ → ℕ → ℤ
over none d = pos 0
over (some n) d = to_int (pos (n / d))

abbrev pub first_of : Option (ℕ × ℕ) → Option ℕ
first_of none = none
first_of (some (a, b)) = some a

abbrev pub second_of : Option (ℕ × ℕ) → Option ℕ
second_of none = none
second_of (some (a, b)) = some b

-- the memory in bytes, the powers in milliwatts
unfoldable pub nvml_info : {Dev : Type 0} → Nvml Dev → Dev → GpuInfo
nvml_info nv dev =
    let s = nv.symbols in
    record no_info {
      ok = true;
      name = name_or_none s.get_name dev;
      temperature = over (nv.temp_of dev) 1;
      vram_used_mb = over (first_of (ask s.get_mem dev)) (1024 * 1024);
      vram_total_mb = over (second_of (ask s.get_mem dev)) (1024 * 1024);
      power_usage_w = over (ask s.get_power dev) 1000;
      power_limit_w = over (ask s.get_limit dev) 1000;
      gpu_load = over (first_of (ask s.get_util dev)) 1;
      mem_load = over (second_of (ask s.get_util dev)) 1;
      clock_mhz = over (ask_clock s.get_clock dev 0) 1;
      mem_clock_mhz = over (ask_clock s.get_clock dev 2) 1;
    }

unfoldable pub info_of : {Dev : Type 0} → Nvml Dev → Option Dev → Option GpuInfo
info_of nv none = none
info_of nv (some dev) = some (nvml_info nv dev)

unfoldable pub nvml_gpu : {Dev : Type 0} → Option (Nvml Dev) → ℕ → Option GpuInfo
nvml_gpu none index = none
nvml_gpu (some nv) index = info_of nv (nv.device index)

abbrev pub kgsl_root : Bytes
kgsl_root = codes "/sys/class/kgsl/kgsl-3d0"

abbrev pub temp_or : ℤ → Option ℤ → ℤ
temp_or old none = old
temp_or old (some c) = degrees c

abbrev pub name_or : Bytes → Bytes → Bytes
name_or default [] = default
name_or default (c ∷ s) = c ∷ s

abbrev pub is_found : Option ℤ → Bool
is_found none = false
is_found (some c) = true

unfoldable pub mobile_gpu : Option ℤ → Bool × KgslInfo → Option GpuInfo
mobile_gpu temp (have_kgsl, k) =
    if not (is_found temp) && not have_kgsl
    then none
    else some (record no_info {
      ok = true;
      temperature = temp_or (pos 0) temp;
      clock_mhz = k.clock_mhz;
      gpu_load = k.gpu_load;
      name = name_or (codes "GPU (thermal zone)") k.name;
    })

unfoldable pub mobile_gpu_info : Files → Option GpuInfo
mobile_gpu_info files =
    mobile_gpu (thermal_gpu_temp files thermal_root)
      (kgsl_info files kgsl_root (record { name = []; clock_mhz = pos 0; gpu_load = pos 0 }))

abbrev pub no_gpu : Bytes
no_gpu =
    codes
      "No GPU found (NVML libnvidia-ml.so.1 not loadable, no amdgpu hwmon device, no GPU thermal zone or KGSL node)"

abbrev pub failed : GpuInfo
failed = record no_info { error = no_gpu }

unfoldable pub or_failed : Option GpuInfo → GpuInfo
or_failed none = failed
or_failed (some g) = g

-- Only one processor is described by the chip's nodes.
unfoldable pub mobile_at : Files → ℕ → Option GpuInfo
mobile_at files index = if index == 0 then mobile_gpu_info files else none

unfoldable pub after_amdgpu : Bool × GpuInfo → Option GpuInfo → GpuInfo
after_amdgpu (true, g) mobile = g
after_amdgpu (false, g) mobile = or_failed mobile

unfoldable pub after_nvml : Option GpuInfo → Bool × GpuInfo → Option GpuInfo → GpuInfo
after_nvml (some g) amd mobile = g
after_nvml none amd mobile = after_amdgpu amd mobile

-- with the static variable behind the call; a negative index loads nothing
unfoldable pub gpu_info :
    {Dev : Type 0} → Option (Symbols Dev) → Files → ℤ → NvState Dev → GpuInfo × NvState Dev
gpu_info lib files (negsuc n) st = (failed, st)
gpu_info lib files (pos index) st =
    let nv = nvml_load lib st in
    (
      after_nvml (nvml_gpu nv index) (amdgpu_info_linux files index no_info)
          (mobile_at files index),
      tried nv,
    )

pub record GpuResult : Type 0 where
  pub ok : Bool
  pub temperature : ℤ
  pub name : Bytes
  pub error : Bytes

unfoldable pub gpu_temperature :
    {Dev : Type 0} → Option (Symbols Dev) → Files → ℤ → NvState Dev → GpuResult × NvState Dev
gpu_temperature lib files index st =
    let (g, st') = gpu_info lib files index st in
    (record { ok = g.ok; temperature = g.temperature; name = g.name; error = g.error }, st')
