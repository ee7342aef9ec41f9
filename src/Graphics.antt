-- ===== src/Graphics.antt =====
-- core/sensors_linux.c: an AMD graphics processor from the files of its hwmon device. The index is that
-- of the device among those of the driver, from 0. Graphics.Linux has gpu/gpu_linux.c, which asks the
-- vendor's library first.
pub mod Nth
pub mod Linux
pub mod Sources
mod Tests
use libhwsense.Prelude.{
  ℕ, zero, suc, ◌+◌, ◌*◌, Bool, true, false, Option, none, some, [], ◌++◌, ◌==◌, if◌then◌else◌,
}
use libhwsense.Prelude.Int.{ℤ, pos, to_int}
use libhwsense.Text.{Bytes, codes}
use libhwsense.Board.{quot, degrees}
use libhwsense.Sysfs.{Files, decimal, hwmon_max, hwmon_path, hwmon_name, read_long, same}

-- `hwsense_gpu_info_t`
pub record GpuInfo : Type 0 where
  pub ok : Bool
  pub temperature : ℤ
  pub vram_used_mb : ℤ
  pub vram_total_mb : ℤ
  pub power_usage_w : ℤ
  pub power_limit_w : ℤ
  pub gpu_load : ℤ
  pub mem_load : ℤ
  pub clock_mhz : ℤ
  pub mem_clock_mhz : ℤ
  pub name : Bytes
  pub error : Bytes

-- after `memset`
abbrev pub no_info : GpuInfo
no_info = record {
  ok = false;
  temperature = pos 0;
  vram_used_mb = pos 0;
  vram_total_mb = pos 0;
  power_usage_w = pos 0;
  power_limit_w = pos 0;
  gpu_load = pos 0;
  mem_load = pos 0;
  clock_mhz = pos 0;
  mem_clock_mhz = pos 0;
  name = [];
  error = [];
}

abbrev pub is_amdgpu : Option Bytes → Bool
is_amdgpu none = false
is_amdgpu (some name) = same name (codes "amdgpu")

-- the new value of a field, or the old one when the file cannot be read
abbrev pub or_kept : ℤ → (ℤ → ℤ) → Option ℤ → ℤ
or_kept old f none = old
or_kept old f (some v) = f v

-- One round of the loop, from whether the device is of the driver and whether its number is the index:
-- the rest of the loop with `seen` as it was, and with one more.
unfoldable pub pick : Bool → Bool → ℕ → Option ℕ → Option ℕ → Option ℕ
pick false wanted hw skip go_on = skip
pick true true hw skip go_on = some hw
pick true false hw skip go_on = go_on

module _ (files : Files) where
  abbrev pub value_of : ℕ → Bytes → Option ℤ
  value_of hw file = read_long files (hwmon_path hw file)

  -- the files behind the temperature
  unfoldable pub read_info : ℕ → ℕ → GpuInfo → ℤ → GpuInfo
  read_info index hw info v = record info {
    ok = true;
    temperature = degrees v;
    vram_used_mb =
        or_kept info.vram_used_mb (λ v. to_int (quot v (1024 * 1024)))
          (value_of hw (codes "device/mem_info_vram_used"));
    vram_total_mb =
        or_kept info.vram_total_mb (λ v. to_int (quot v (1024 * 1024)))
          (value_of hw (codes "device/mem_info_vram_total"));
    power_usage_w =
        or_kept info.power_usage_w (λ v. to_int (quot v 1000000))
          (value_of hw (codes "power1_average"));
    power_limit_w =
        or_kept info.power_limit_w (λ v. to_int (quot v 1000000))
          (value_of hw (codes "power1_cap"));
    gpu_load = or_kept info.gpu_load to_int (value_of hw (codes "device/gpu_busy_percent"));
    clock_mhz =
        or_kept info.clock_mhz (λ v. to_int (quot v 1000000)) (value_of hw (codes "freq1_input"));
    mem_clock_mhz =
        or_kept info.mem_clock_mhz (λ v. to_int (quot v 1000000))
          (value_of hw (codes "freq2_input"));
    name = codes "AMD GPU " ++ decimal index;
  }

  -- whether the function returns 1, and `info` behind it, from the temperature of the device
  unfoldable pub info_with : ℕ → ℕ → GpuInfo → Option ℤ → Bool × GpuInfo
  info_with index hw info none = (false, info)
  info_with index hw info (some v) = (true, read_info index hw info v)

  unfoldable pub info_at : ℕ → GpuInfo → Option ℕ → Bool × GpuInfo
  info_at index info none = (false, info)
  info_at index info (some hw) = info_with index hw info (value_of hw (codes "temp1_input"))

  -- the loop over the devices, with the rounds left and `seen`
  unfoldable pub find_device : ℕ → ℕ → ℕ → ℕ → Option ℕ
  find_device index zero hw seen = none
  find_device index (suc n) hw seen =
      pick (is_amdgpu (hwmon_name files hw 64)) (seen == index) hw
        (find_device index n (hw + 1) seen) (find_device index n (hw + 1) (seen + 1))

  unfoldable pub amdgpu_info_linux : ℕ → GpuInfo → Bool × GpuInfo
  amdgpu_info_linux index info = info_at index info (find_device index hwmon_max 0 0)
