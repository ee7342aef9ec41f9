-- ===== src/Graphics/Nth.antt =====
-- core/sensors_linux.c: the loop over the devices finds the one of the index.
use libhwsense.Prelude.{
  ℕ, zero, suc, ◌+◌, ◌≡◌, refl, ap, Bool, true, false, Option, List, [], ◌∷◌, get_elem?, ◌==◌,
  arith,
}
use libhwsense.Sysfs.{Files, hwmon_max, hwmon_name}
use libhwsense.Graphics.{GpuInfo, is_amdgpu, pick, info_at, find_device, amdgpu_info_linux}

-- an element in front when a test holds
abbrev front_if : Bool → ℕ → List ℕ → List ℕ
front_if true a more = a ∷ more
front_if false a more = more

module _ (files : Files) where
  -- the devices of the driver, in order
  abbrev pub amd_devices : ℕ → ℕ → List ℕ
  amd_devices zero hw = []
  amd_devices (suc n) hw = front_if (is_amdgpu (hwmon_name files hw 64)) hw (amd_devices n (hw + 1))

  -- one round, by the two tests
  round_lem :
      (is wanted : Bool) (hw k : ℕ) (rest : List ℕ) (skip go_on : Option ℕ)
      → (wanted ≡ (k == 0))
      → skip ≡ get_elem? rest k
      → ((j : ℕ) → k ≡ suc j → go_on ≡ get_elem? rest j)
      → pick is wanted hw skip go_on ≡ get_elem? (front_if is hw rest) k
  unfolding pick
  round_lem false wanted hw k rest skip go_on w s g = s
  round_lem true true hw zero rest skip go_on w s g = refl
  round_lem true false hw zero rest skip go_on w s g = absurd (ground arith)
  round_lem true true hw (suc k) rest skip go_on w s g = absurd (ground arith)
  round_lem true false hw (suc k) rest skip go_on w s g = g k refl

  find_lem :
      (n hw index seen k : ℕ)
      → index ≡ seen + k
      → find_device files index n hw seen ≡ get_elem? (amd_devices n hw) k
  unfolding find_device
  find_lem zero hw index seen k h = refl
  find_lem (suc n) hw index seen k h =
      round_lem (is_amdgpu (hwmon_name files hw 64)) (seen == index) hw k (amd_devices n (hw + 1))
        (find_device files index n (hw + 1) seen) (find_device files index n (hw + 1) (seen + 1))
        (ground arith) (find_lem n (hw + 1) index seen k h)
        (λ j e. find_lem n (hw + 1) index (seen + 1) j (omega arith))

  -- The device whose files are read is the one of the index among the devices with the name amdgpu,
  -- in the order of their numbers; with fewer devices there is no answer and `info` stays as it was.
  pub amdgpu_info_linux_lem :
      (index : ℕ) (info : GpuInfo)
      → amdgpu_info_linux files index info
        ≡ info_at files index info (get_elem? (amd_devices hwmon_max 0) index)
  unfolding amdgpu_info_linux
  amdgpu_info_linux_lem index info =
      ap (info_at files index info) (find_lem hwmon_max 0 index 0 index (omega arith))
