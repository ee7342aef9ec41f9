-- ===== src/Ec/Tests.antt =====
-- motherboard/ec.c on a controller that answers at once, and the theorems at it.
use libhwsense.Prelude.{
  ℕ, ◌+◌, ◌/◌, ◌%◌, ◌^◌, ◌≡◌, ◌≢◌, refl, Bool, true, Option, none, some, ◌==◌, if◌then◌else◌, arith,
}
use libhwsense.Prelude.Int.{pos}
use libhwsense.Ec.{
  running, ibf_clear, bind, pure, when, when_ready, polled, low_byte, read_as, ec_read_port,
  ec_write_port, wait_for, ec_wait, ec_wait_ibf, ec_wait_obf, ec_read_reg, ec_read_word,
  ec_read_fan_rpm,
}
use libhwsense.Ec.Handshake.{
  idle, finished, violated, observed_tick, observed_read, observed_write, ec_read_reg-Ordered,
}
use libhwsense.Ec.Waiting.{polls, ec_wait-settles}

-- the time in microseconds, and the address last written
abbrev Controller : Type 0
Controller = ℕ × ℕ

abbrev ticks : Controller → ℕ × Controller
ticks (t, a) = (t / 1000 % 2 ^ 32, (t, a))

-- the output buffer is full, and each register holds its address
abbrev reads : Controller → ℕ → Option ℕ × Controller
reads (t, a) port = (some (if port == 0x66 then 1 else a), (t + 1, a))

abbrev writes : Controller → ℕ → ℕ → Bool × Controller
writes (t, a) port value = (true, (t, if port == 0x62 then value else a))

-- one that never frees its input buffer
abbrev busy : Controller → ℕ → Option ℕ × Controller
busy (t, a) port = (some 2, (t + 40000, a))

fan_run : (ec_read_fan_rpm ticks reads writes 9 0xbc (5, 0)).0 ≡ pos 48572
unfolding ec_read_fan_rpm ec_read_word ec_read_reg ec_wait_ibf ec_wait_obf ec_wait wait_for
    ec_read_port ec_write_port read_as bind pure when when_ready polled low_byte
fan_run = refl

timeout_run : (ec_wait ticks busy writes ibf_clear 9 (5, 0)).1 ≡ (120005, 0)
unfolding ec_wait wait_for ec_read_port polled low_byte
timeout_run = refl

ec_wait-settles_example :
    let last = ec_wait ticks busy writes ibf_clear 4 (7, 0) in
    (last.0 ≢ running) × (ec_wait ticks busy writes ibf_clear 90 (7, 0) ≡ last)
unfolding polls
ec_wait-settles_example =
    ec_wait-settles ticks busy writes ibf_clear 3 90 (7, 0) (omega arith) (omega arith)

ec_read_reg-Ordered_example :
    let (v, s') =
      ec_read_reg
        (observed_tick ticks reads writes 0x3b)
        (observed_read ticks reads writes 0x3b)
        (observed_write ticks reads writes 0x3b)
        9
        0x3b
        ((5, 0), idle) in
    (s'.1 ≢ violated) × (v ≢ none → s'.1 ≡ finished)
ec_read_reg-Ordered_example = ec_read_reg-Ordered ticks reads writes 0x3b 9 (5, 0)
