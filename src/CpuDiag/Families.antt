-- ===== src/CpuDiag/Families.antt =====
-- cpu/cpu_diag.c beside cpu/amd_smu.c: two decoders of one signature.
use libhwsense.Smu.Config
use libhwsense.Smu.Config.{SmuConfig}
