-- ===== src/Api/Unsupported/Tests.antt =====
-- core/api.c: the explanation for a processor without MSR, and for one that reports nothing.
use libhwsense.Prelude.{ℕ, ◌≡◌, refl, ◌==◌, if◌then◌else◌}
use libhwsense.Text.{codes}
use libhwsense.Prelude.Word.{test_bit}
use libhwsense.CpuDiag.{
  family_of, model_of, Registers, before_nul, vendor_of, put_back, trimmed, get_cpu_brand,
  cpu_diag_detect,
}
use libhwsense.Api.Unsupported.{no_vendor, no_msr_support, describe_unsupported_cpu}

abbrev silent : ℕ → Registers
silent leaf = record { eax = 0; ebx = 0; ecx = 0; edx = 0 }

-- CentaurHauls, family 6 and model 7
abbrev old : ℕ → Registers
old leaf =
    if leaf == 0
    then record { eax = 1; ebx = 0x746e6543; ecx = 0x736c7561; edx = 0x48727561 }
    else if leaf == 1
    then record { eax = 0x670; ebx = 0; ecx = 0; edx = 0 }
    else record { eax = 0; ebx = 0; ecx = 0; edx = 0 }

silent_run : describe_unsupported_cpu silent (codes "Voltage") ≡ no_vendor (codes "Voltage")
unfolding describe_unsupported_cpu cpu_diag_detect vendor_of before_nul
silent_run = refl

old_run :
    describe_unsupported_cpu old (codes "Voltage")
    ≡ no_msr_support (codes "Voltage") (codes "CentaurHauls") 6 7
unfolding describe_unsupported_cpu cpu_diag_detect vendor_of before_nul get_cpu_brand trimmed
    put_back test_bit family_of model_of
old_run = refl
