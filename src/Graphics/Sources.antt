-- ===== src/Graphics/Sources.antt =====
-- gpu/gpu_linux.c: a result is a reading or the failure, and the library is loaded once.
use libhwsense.Prelude.{
  ℕ, ◌≡◌, refl, Bool, true, false, ◌⊎◌, inl, inr, ◌==◌, Option, none, some, [], if◌then◌else◌,
}
use libhwsense.Prelude.Int.{ℤ, pos, negsuc}
use libhwsense.Sysfs.{Files}
use libhwsense.Thermal.{KgslInfo}
use libhwsense.Graphics.{GpuInfo, no_info, read_info, info_at, info_with, amdgpu_info_linux}
use libhwsense.Graphics.Linux.{
  Symbols, Nvml, NvState, untried, tried, loaded, nvml_load, nvml_info, nvml_gpu, info_of,
  mobile_gpu, mobile_gpu_info, mobile_at, failed, or_failed, after_amdgpu, after_nvml, gpu_info,
}

-- a reading without an error, or the failure with nothing else set
abbrev pub ReadsOrFails : GpuInfo → Type 0
ReadsOrFails g = ((g.ok ≡ true) × (g.error ≡ [])) ⊎ (g ≡ failed)

-- of an answer of one of the sources
abbrev IsReading : Option GpuInfo → Type 0
IsReading none = Unit
IsReading (some g) = (g.ok ≡ true) × (g.error ≡ [])

or_failed-ReadsOrFails : (o : Option GpuInfo) → IsReading o → ReadsOrFails (or_failed o)
unfolding or_failed
or_failed-ReadsOrFails none h = inr refl
or_failed-ReadsOrFails (some g) h = inl h

mobile-IsReading : (t : Option ℤ) (b : Bool) (k : KgslInfo) → IsReading (mobile_gpu t (b, k))
unfolding mobile_gpu
mobile-IsReading none false k = tt
mobile-IsReading none true k = (refl, refl)
mobile-IsReading (some c) b k = (refl, refl)

if-IsReading : (b : Bool) (o : Option GpuInfo) → IsReading o → IsReading (if b then o else none)
if-IsReading true o h = h
if-IsReading false o h = tt

mobile_at-IsReading : (files : Files) (index : ℕ) → IsReading (mobile_at files index)
unfolding mobile_at mobile_gpu_info
mobile_at-IsReading files index = if-IsReading (index == 0) _ (mobile-IsReading _ _ _)

amd_with :
    (files : Files) (index hw : ℕ) (v : Option ℤ) (m : Option GpuInfo)
    → IsReading m
    → ReadsOrFails (after_amdgpu (info_with files index hw no_info v) m)
unfolding after_amdgpu info_with read_info
amd_with files index hw none m h = or_failed-ReadsOrFails m h
amd_with files index hw (some t) m h = inl (refl, refl)

amd_lem :
    (files : Files) (index : ℕ) (o : Option ℕ) (m : Option GpuInfo)
    → IsReading m
    → ReadsOrFails (after_amdgpu (info_at files index no_info o) m)
unfolding after_amdgpu info_at
amd_lem files index none m h = or_failed-ReadsOrFails m h
amd_lem files index (some hw) m h = amd_with files index hw _ m h

nvml_lem :
    {Dev : Type 0} (nv : Option (Nvml Dev)) (index : ℕ) (amd : Bool × GpuInfo) (m : Option GpuInfo)
    → ReadsOrFails (after_amdgpu amd m)
    → ReadsOrFails (after_nvml (nvml_gpu nv index) amd m)
unfolding nvml_gpu after_nvml info_of nvml_info
nvml_lem none index amd m h = h
nvml_lem (some nv) index amd m h = device_lem nv (nv.device index) amd m h
  where
    device_lem :
        {Dev : Type 0} (nv : Nvml Dev) (d : Option Dev) (amd : Bool × GpuInfo) (m : Option GpuInfo)
        → ReadsOrFails (after_amdgpu amd m)
        → ReadsOrFails (after_nvml (info_of nv d) amd m)
    device_lem nv none amd m h = h
    device_lem nv (some d) amd m h = inl (refl, refl)

sources :
    {Dev : Type 0} (files : Files) (index : ℕ) (nv : Option (Nvml Dev))
    → ReadsOrFails (
        after_nvml
          (nvml_gpu nv index)
          (amdgpu_info_linux files index no_info)
          (mobile_at files index))
unfolding amdgpu_info_linux
sources files index nv =
    nvml_lem nv index _ _ (amd_lem files index _ _ (mobile_at-IsReading files index))

negsuc_pos : (n m : ℕ) → negsuc n ≡ pos m → ⊥
negsuc_pos n m e = cc

-- Whatever the library and the files give, for every index the result is a reading with an empty error
-- or the failure, with the text that no processor is found and nothing else set. After one call with an
-- index that is not negative, the library of the first call stays in use, whatever loading it again would give.
pub gpu_info-ReadsOrFails :
    {Dev : Type 0} (lib later : Option (Symbols Dev)) (files : Files) (index : ℤ) (next : ℕ)
    (st : NvState Dev)
    → let (g, st') = gpu_info lib files index st in
      ReadsOrFails g
      × ((n : ℕ)
          → index ≡ pos n
          → gpu_info later files (pos next) st' ≡ gpu_info lib files (pos next) st)
unfolding gpu_info nvml_load
gpu_info-ReadsOrFails lib later files (negsuc n) next st =
    (inr refl, λ m e. absurd (negsuc_pos n m e))
gpu_info-ReadsOrFails lib later files (pos index) next untried =
    (sources files index (loaded lib), λ m e. refl)
gpu_info-ReadsOrFails lib later files (pos index) next (tried nv) =
    (sources files index nv, λ m e. refl)
