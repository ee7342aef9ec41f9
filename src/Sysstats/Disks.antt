-- ===== src/Sysstats/Disks.antt =====
-- core/win_sysstats.c: the space on the volumes and the traffic of the physical drives.
use libhwsense.Prelude.{
  ℕ, zero, suc, ◌+◌, ◌*◌, ◌/◌, Option, none, some, List, [], ◌∷◌, ◌++◌, ◌==◌, if◌then◌else◌,
}
use libhwsense.Prelude.Int.{ℤ, pos, sub_ℕ, ◌*ℤ◌}
use libhwsense.Slots.Chosen.{collect, cons_some}
use libhwsense.Text.{Bytes, codes}
use libhwsense.Board.{quot}
use libhwsense.Sysfs.{decimal}

pub record DiskSpace : Type 0 where
  pub total_bytes : ℕ
  pub free_bytes : ℕ

-- `percent_used` is `none` where C leaves the result open, for a volume of no bytes.
pub record DiskStats : Type 0 where
  pub name : Bytes
  pub total_size_gb : ℕ
  pub free_gb : ℕ
  pub percent_used : Option ℤ

abbrev pub drive_letters : Bytes
drive_letters = codes "CDEFGHIJKLMNOPQRSTUVWXYZ"

abbrev gb : ℕ
gb = 1024 * 1024 * 1024

unfoldable pub stats_of : ℕ → DiskSpace → DiskStats
stats_of letter space = record {
  name = letter ∷ codes ":";
  total_size_gb = space.total_bytes / gb;
  free_gb = space.free_bytes / gb;
  percent_used =
      if space.total_bytes == 0
      then none
      else some (quot (pos 100 *ℤ sub_ℕ space.total_bytes space.free_bytes) space.total_bytes);
}

-- GetDiskFreeSpaceEx of the root of a letter
module _ (space_of : ℕ → Option DiskSpace) where
  unfoldable pub volume : ℕ → Option DiskStats
  volume letter = elim (space_of letter) [ none ↦ none | some space ↦ some (stats_of letter space) ]

  -- `max_disks` that is not negative
  unfoldable pub get_disk_stats : ℕ → List DiskStats
  get_disk_stats max_disks = collect volume drive_letters max_disks

pub record DiskIo : Type 0 where
  pub name : Bytes
  pub read_bytes : ℤ
  pub write_bytes : ℤ

-- Opening a physical drive and IOCTL_DISK_PERFORMANCE: the bytes read and written, `none` if either
-- fails. As many drives are asked as there are cells, so these never run out.
module _ (performance : ℕ → Option (ℤ × ℤ)) where
  unfoldable pub drive_io : ℕ → Option DiskIo
  drive_io i = elim (performance i) [
    | none ↦ none
    | some (r, w) ↦
        some (record { name = codes "PhysicalDrive" ++ decimal i; read_bytes = r; write_bytes = w })
  ]

  unfoldable pub scan_drives : ℕ → ℕ → List DiskIo
  scan_drives zero i = []
  scan_drives (suc n) i = cons_some (drive_io i) (scan_drives n (i + 1))

  unfoldable pub get_disk_io : ℕ → List DiskIo
  get_disk_io max_disks = scan_drives max_disks 0
