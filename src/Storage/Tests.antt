-- ===== src/Storage/Tests.antt =====
-- storage/storage.c on two drives, and the theorem at them.
use libhwsense.Prelude.{ℕ, ◌≡◌, refl, Option, none, some, ◌∷◌, ◌++◌, replicate, ◌==◌, if◌then◌else◌}
use libhwsense.Prelude.Int.{pos}
use libhwsense.Text.{Bytes}
use libhwsense.Storage.{
  AtaPassThrough, max_drives, or_later, when_positive, temp_of_identify, attribute_temp,
  scan_attributes, temp_of_smart, read_smart_temp, read_drive_temp_ata, drive_temp_of, scan_drives,
  nvme_temperature_full, nvme_temperature,
}
use libhwsense.Storage.Drives.{Found, nvme_temperature_full-Found}

-- a first attribute that is no temperature, and a temperature of 36 degrees
abbrev smart_data : Bytes
smart_data = 1 ∷ 0 ∷ (5 ∷ replicate 11 0) ++ (0xc2 ∷ 0x22 ∷ 0 ∷ 36 ∷ replicate 8 0)

-- drive 0 cannot be opened, and drive 1 answers the SMART request
abbrev ata : ℕ → AtaPassThrough → Option Bytes
ata drive request =
    if drive == 1 then (if request.command == 0xd0 then some smart_data else none) else none

second_drive_run : nvme_temperature ata ≡ pos 36
unfolding nvme_temperature nvme_temperature_full scan_drives drive_temp_of read_smart_temp
    read_drive_temp_ata temp_of_smart scan_attributes attribute_temp temp_of_identify when_positive
    or_later
second_drive_run = refl

nvme_temperature_full-Found_example : Found ata 0 max_drives (nvme_temperature_full ata)
nvme_temperature_full-Found_example = nvme_temperature_full-Found ata
