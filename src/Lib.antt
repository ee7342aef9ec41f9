-- ===== src/Lib.antt =====
-- libhwsense reads hardware sensors: processor temperatures, clocks and power through model-specific
-- registers and SMN, motherboard sensors through Super I/O chips, and drives through SMART logs. It
-- writes to chip registers through I/O ports on the way, so the harm that it could do matters as much
-- as its readings.
--
-- Parts, with the files that model them:
--   Superio       include/hwsense.h: hwsense_superio_result_t, what every motherboard reader fills
--   Slots         the loop that fills a fixed array with a count, as in every reader
--   Ite           src/motherboard/ite_decode.c: `decode` is hwsense_ite_decode
--   Nct           src/motherboard/nct_linux.c: `decode` is hwsense_nct_decode; Nct.Hw has the ports,
--                 nct_hw_read, nct_find and hwsense_nct_read_linux
--   Sio           src/motherboard/superio.c: Port the guarded port I/O, Nuvoton the NCT679x registers,
--                 Probe the ITE path, which calls the decoder of Ite, and Read the three readers
--   Sensor        src/core/sensor_math.h: the formulas
--   Alert         src/core/alert.c: alerts with hysteresis, over readings of any source
--   Intel         src/cpu/intel.c: temperatures, clock and voltage; Intel.Rapl the power readers
--   Svi2          src/cpu/amd_svi2.c: AMD voltages and power, over an SMN read
--   Smu           src/cpu/amd_smu.c: Config the codenames and mailbox addresses, Mailbox the commands;
--                 PmTable the power in the PM table and the diagnosis; Smn the SMN access of
--                 src/cpu/amd_zen.c
--   Zen           src/cpu/amd_zen.c: the temperatures of the processor and its dies
--   Nvme          src/storage/nvme_linux.c: the decoder of the SMART log
--   Soc           src/core/soc_math.h: thermal zones
--   Export        src/core/export.c: the appender; Json and Csv the two writers
--   Ec            src/motherboard/ec.c: the embedded controller
--   Ite.Hw        src/motherboard/ite_linux.c: the ITE chip behind I/O ports, around the decoder of Ite
--   Sysfs         src/core/hwmon_util_linux.h: lines and numbers in files
--   Board         src/core/sensors_linux.c: the motherboard's sensors from the kernel's files, with Ite.Hw
--                 and Nct.Hw as the fallback (Board.Linux)
--   Hwmon         src/cpu/hwmon_linux.c, and the drives of src/core/sensors_linux.c
--   Graphics      src/core/sensors_linux.c: hwsense_amdgpu_info_linux; Graphics.Linux src/gpu/gpu_linux.c
--   CpuClock      src/core/sensors_linux.c: hwsense_cpu_core_clock
--   Thermal       src/core/soc_linux.c: thermal zones, Adreno graphics and the chip's name
--   CpuTemp       src/core/driver_linux.c and src/cpu/intel_linux.c: the vendor, and the CPU temperature
--                 from Hwmon, the registers or Thermal
--   Storage       src/storage/storage.c: the temperature of a drive by SMART attributes
--   Api           src/core/api.c: the readers chosen by the vendor; the clock of src/cpu/amd_zen.c;
--                 Unsupported the texts about a processor that is not served
--   Driver        src/core/driver.c: the search for the driver's file, its service and its handles
--   CpuDiag       src/cpu/cpu_diag.c: what CPUID says of the processor
--   Sysstats      src/core/win_sysstats.c: loads, memory and uptime on Windows; Disks, Adapters and
--                 Processes its tables
--   Wmi           src/core/wmi.c: readings of Windows Management Instrumentation
--   Unified       src/core/unified_linux.c: load and memory; Linux the snapshot of all readings there,
--                 and Windows that of src/core/hwsense_unified.c, both over the parts above
--   Prelude       shared names, Boolean tests, lists, integers and machine words
--   Text          strings as lists of codes, with strstr
-- Operations keep the names of the C functions, less the prefix hwsense_. Modules below a part are
-- named for what they prove, and each part has its tests and examples in Tests.
--
-- State: what a function reads and changes is passed and returned. The devices are parameters: an
-- operation takes the port, register or SMN access as functions over a state of any type, and a read
-- that fails gives `none`. What a theorem needs of a device stands in a record of laws (IsBanked,
-- IsMonitor, IsThread), and the Tests module fills the record with a simulated device. The thread-local
-- ports of superio.c are fields of `World`, and the static samples of intel.c are a `PowerState`.
--
-- Numbers: registers are native numbers with the wrap-around written out. Doubles are exact: degrees or
-- thousandths of a degree, volts in units of 10 microvolts, a power as a fraction; alerts take any type
-- of readings with its comparisons. A C cast to `int`, and a `long` sum, wrap (`to_int` and `to_long` of
-- Prelude.Int) where the source narrows a wider number. Texts written by snprintf are messages with their arguments.
--
-- Loops are structural: over a table, over the rounds of a `for`, or over the 10000 rounds of the two
-- mailbox loops, which are the code's own bound and an argument of `send_command`. The polling loops of
-- ec.c have only a timeout: they take rounds that the code does not have, and stop as `running` without
-- any left, which does not happen with more rounds than the tick count needs to pass the timeout.
--
-- Files: the Linux readers take the file system as a function from a path to the bytes of the file. A
-- double that is written out is of any type, with the printing of libc as a parameter, and
-- so is what `atof` and `sscanf` read.
--
-- The snapshot of the unified interface is the record that Export writes. The calls of the system in it are
-- the fields of a record (System, Windows). `qsort` is a parameter with the laws of the C standard
-- (Sysstats.Qsort), which an insertion sort meets.
--
-- Not modelled: the operating system's side (DeviceIoControl, SetThreadAffinityMask, /dev/port, ioctl,
-- COM, the registry, the Android properties), the graphics libraries on Windows (gpu.c) and the printing
-- of diagnoses and reports. SwitchToThread between two polls has no effect on the values.
pub mod Prelude
pub mod Text
pub mod Slots
pub mod Sensor
pub mod Alert
pub mod Superio
pub mod Ite
pub mod Sio
pub mod Nct
pub mod Storage
pub mod Svi2
pub mod Nvme
pub mod Sysfs
pub mod Board
pub mod Hwmon
pub mod Thermal
pub mod CpuTemp
pub mod Zen
pub mod Soc
pub mod Smu
pub mod Ec
pub mod Export
pub mod Intel
pub mod Api
pub mod CpuDiag
pub mod Graphics
pub mod Sysstats
pub mod CpuClock
pub mod Unified
pub mod Wmi
pub mod Driver
