-- ===== src/Storage.antt =====
-- storage/storage.c: the temperature of a drive by ATA commands on Windows. Opening the drive of a
-- number and sending it a request by `DeviceIoControl` is a parameter, which gives the 512 bytes of the buffer
-- or fails.
pub mod Drives
mod Tests
use libhwsense.Prelude.{
  ℕ, zero, suc, ◌+◌, ◌*◌, ◌-◌, Bool, true, false, ◌&&◌, ◌||◌, Option, none, some, List, get_or, ltb,
  ◌==◌, if◌then◌else◌,
}
use libhwsense.Prelude.Int.{ℤ, pos, negsuc}
use libhwsense.Text.{Bytes, codes}

abbrev pub max_drives : ℕ
max_drives = 16

pub record AtaPassThrough : Type 0 where
  pub protocol : ℕ
  pub flags : ℕ
  pub words : ℕ
  pub features : ℕ
  pub features_hi : ℕ
  pub sector_count : ℕ
  pub sector_count_hi : ℕ
  pub lba_low : ℕ
  pub lba_mid : ℕ
  pub lba_high : ℕ
  pub device : ℕ
  pub command : ℕ
  pub reserved : ℕ

-- `{0}`
abbrev empty_request : AtaPassThrough
empty_request = record {
  protocol = 0;
  flags = 0;
  words = 0;
  features = 0;
  features_hi = 0;
  sector_count = 0;
  sector_count_hi = 0;
  lba_low = 0;
  lba_mid = 0;
  lba_high = 0;
  device = 0;
  command = 0;
  reserved = 0;
}

abbrev pub identify_request : AtaPassThrough
identify_request = record empty_request {
  protocol = 3;
  flags = 0;
  command = 0xec;
  lba_mid = 0x48;
  lba_high = 0x01;
}

abbrev pub smart_request : AtaPassThrough
smart_request = record empty_request {
  protocol = 3;
  flags = 0x02;
  words = 256;
  sector_count = 1;
  command = 0xd0;
  lba_mid = 0x4f;
  lba_high = 0xc2;
}

-- word 209, whose low byte is byte 418 of the buffer; `none` is the -1
unfoldable pub temp_of_identify : Option Bytes → Option ℕ
temp_of_identify none = none
temp_of_identify (some bytes) =
    let temp = get_or bytes 418 0 in if ltb 127 temp then none else some temp

-- the attribute `i` when it is a temperature with a value that counts
unfoldable pub attribute_temp : Bytes → ℕ → Option ℕ
attribute_temp bytes i =
    let id = get_or bytes (2 + i * 12) 0 in
    let value = get_or bytes (2 + i * 12 + 3) 0 in
    if (id == 0xe2 || id == 0xc2) && (ltb 0 value && ltb value 127) then some value else none

unfoldable pub or_later : Option ℕ → Option ℕ → Option ℕ
or_later none rest = rest
or_later (some v) rest = some v

-- the loop over the attributes, with the rounds left
unfoldable pub scan_attributes : Bytes → ℕ → ℕ → Option ℕ
scan_attributes bytes zero i = none
scan_attributes bytes (suc n) i =
    or_later (attribute_temp bytes i) (scan_attributes bytes n (i + 1))

unfoldable pub temp_of_smart : Option Bytes → Option ℕ
temp_of_smart none = none
temp_of_smart (some bytes) = scan_attributes bytes 30 0

-- a temperature with the drive that has it, or the message of a failure
pub data StorageResult : Type 0 where
  drive_temp : ℕ → ℕ → StorageResult
  no_temp : Bytes → StorageResult

abbrev pub no_drive : Bytes
no_drive = codes "No NVMe/SSD temperature available"

-- `temp > 0`
unfoldable pub when_positive : ℕ → Option ℕ → StorageResult → StorageResult
when_positive i none rest = rest
when_positive i (some zero) rest = rest
when_positive i (some (suc n)) rest = drive_temp i (suc n)

module _ (ata : ℕ → AtaPassThrough → Option Bytes) where
  unfoldable pub read_drive_temp_ata : ℕ → Option ℕ
  read_drive_temp_ata drive = temp_of_identify (ata drive identify_request)

  unfoldable pub read_smart_temp : ℕ → Option ℕ
  read_smart_temp drive = temp_of_smart (ata drive smart_request)

  unfoldable pub drive_temp_of : ℕ → Option ℕ
  drive_temp_of drive = or_later (read_smart_temp drive) (read_drive_temp_ata drive)

  -- the loop over the drives, with the rounds left
  unfoldable pub scan_drives : ℕ → ℕ → StorageResult
  scan_drives zero i = no_temp no_drive
  scan_drives (suc n) i = when_positive i (drive_temp_of i) (scan_drives n (i + 1))

  unfoldable pub nvme_temperature_full : StorageResult
  nvme_temperature_full = scan_drives max_drives 0

  unfoldable pub nvme_temperature : ℤ
  nvme_temperature = elim nvme_temperature_full [ drive_temp i t ↦ pos t | no_temp e ↦ negsuc 0 ]
