-- ===== src/Api/Unsupported.antt =====
-- core/api.c: the text of `unsupported_cpu`, as a message with the arguments of snprintf. That it is cut at the
-- size of the field for errors is left out.
mod Tests
use libhwsense.Prelude.{ℕ, Bool, true, false}
use libhwsense.Prelude.{List, [], ◌∷◌}
use libhwsense.Text.{Bytes, codes}
use libhwsense.CpuDiag.{Registers, CpuDiagResult, cpu_diag_detect}

-- the sensor, and what is known of the processor: its name, its vendor, its family and its model
pub data Explanation : Type 0 where
  no_vendor : Bytes → Explanation
  no_msr_support : Bytes → Bytes → ℕ → ℕ → Explanation
  not_in_table : Bytes → Bytes → Bytes → ℕ → ℕ → Explanation

-- `diag.brand[0] ? diag.brand : ...`
abbrev pub or_text : Bytes → Bytes → Bytes
or_text [] other = other
or_text (c ∷ s) other = c ∷ s

abbrev pub unknown_model : Bytes
unknown_model = codes "unknown model"

abbrev pub with_vendor : Bytes → CpuDiagResult → Bool → Explanation
with_vendor sensor d false = no_msr_support sensor (or_text d.brand d.vendor) d.family d.model
with_vendor sensor d true =
    not_in_table sensor (or_text d.brand unknown_model) d.vendor d.family d.model

abbrev pub explain : Bytes → CpuDiagResult → Bytes → Explanation
explain sensor d [] = no_vendor sensor
explain sensor d (c ∷ s) = with_vendor sensor d d.msr_support

unfoldable pub describe_unsupported_cpu : (ℕ → Registers) → Bytes → Explanation
describe_unsupported_cpu cpuid sensor = let d = cpu_diag_detect cpuid in explain sensor d d.vendor
