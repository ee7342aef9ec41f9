-- ===== src/Sio.antt =====
-- motherboard/superio.c, the Windows reader of Super I/O chips.
-- `Port` has the guarded port accesses, `Nuvoton` the NCT679x registers, `Probe` the ITE path, and
-- `Read` the three exported functions.
pub mod Port
pub mod Nuvoton
pub mod Probe
pub mod Read
pub mod Keeps
pub mod Safety
pub mod Results
pub mod Blocked
mod Tests
