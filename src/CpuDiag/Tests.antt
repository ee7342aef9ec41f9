-- ===== src/CpuDiag/Tests.antt =====
-- cpu/cpu_diag.c on the registers of a Matisse processor, and the theorem at it.
use libhwsense.Prelude.{ℕ, ◌≡◌, refl, ◌==◌, if◌then◌else◌}
use libhwsense.Text.{codes}
use libhwsense.Smu.Config
use libhwsense.CpuDiag.{Registers, before_nul, put_back, trimmed, get_cpu_brand, cpu_diag_detect}

-- AuthenticAMD, family 17h and model 71h, with a brand of one word and spaces
abbrev matisse : ℕ → Registers
matisse leaf =
    if leaf == 0
    then record { eax = 16; ebx = 0x68747541; ecx = 0x444d4163; edx = 0x69746e65 }
    else if leaf == 1
    then record { eax = 0x00870F10; ebx = 0x00100800; ecx = 1; edx = 0x20 }
    else if leaf == 0x80000002
    then record { eax = 0x20444d41; ebx = 0x20202020; ecx = 0; edx = 0 }
    else record { eax = 0; ebx = 0; ecx = 0; edx = 0 }

brand_run : get_cpu_brand matisse ≡ codes "AMD"
unfolding get_cpu_brand before_nul trimmed put_back
brand_run = refl

cores_run : (cpu_diag_detect matisse).cores ≡ 17
unfolding cpu_diag_detect
cores_run = refl
