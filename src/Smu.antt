-- ===== src/Smu.antt =====
-- cpu/amd_smu.c: the table of System Management Units and the mailbox protocol, over the SMN
-- registers that cpu/amd_zen.c reads and writes through the PCI configuration space.
pub mod Config
pub mod Smn
pub mod Mailbox
pub mod Discipline
pub mod Commands
pub mod PmTable
mod Tests
