-- ===== src/Ec/Waiting.antt =====
-- motherboard/ec.c: the polling loops end.
use libhwsense.Prelude.{
  ℕ, zero, suc, ◌<◌, ◌≤◌, ◌≡◌, ◌≢◌, refl, Bool, false, Bool-cases, inl, inr, Option, none, some,
  ltb, arith,
}
use libhwsense.Ec.{
  Wait, running, elapsed, ec_timeout, ec_cmd_port, ec_read_port, low_byte, polled, wait_for,
  ec_wait,
}

pub low_byte_state : {S : Type 0} (r : Option ℕ × S) → (low_byte r).1 ≡ r.1
unfolding low_byte
low_byte_state (none, s) = refl
low_byte_state (some v, s) = refl

-- A round ends like the rest of the loop does, if that ends.
polled_settled :
    {S : Type 0} (done : ℕ → Bool) (again again' : Wait × S) (status : Option ℕ × S)
    → again.0 ≢ running
    → again' ≡ again
    → ((polled done again status).0 ≢ running)
      × (polled done again' status ≡ polled done again status)
unfolding polled
polled_settled done again again' (none, s) h e = ((λ z. cc), refl)
polled_settled done again again' (some v, s) h e = elim (Bool-cases (done v)) [
  | inl d ↦ rw d ((λ z. cc), refl)
  | inr d ↦ rw d (h, e)
]

module _ {S : Type 0} (tick : S → ℕ × S) (read_io : S → ℕ → Option ℕ × S)
    (write_io : S → ℕ → ℕ → Bool × S) where
  -- the device behind so many rounds that go on
  unfoldable pub polls : ℕ → S → S
  polls zero s = s
  polls (suc n) s = polls n (read_io (tick s).1 ec_cmd_port).1

  -- The round that sees the timeout is the last: more rounds change nothing.
  Settled : (ℕ → Bool) → ℕ → ℕ → ℕ → S → Type 0
  Settled done n rounds start s =
      let last = wait_for tick read_io write_io done (suc n) start s in
      (last.0 ≢ running) × (wait_for tick read_io write_io done rounds start s ≡ last)

  settles :
      (done : ℕ → Bool) (n rounds start : ℕ) (s : S)
      → n < rounds
      → ec_timeout ≤ elapsed (tick (polls n s)).0 start
      → Settled done n rounds start s
  unfolding Settled wait_for polls ec_read_port
  settles done n zero start s l h = absurd (omega arith)
  settles done zero (suc rounds) start s l h =
      let late : ltb (elapsed (tick s).0 start) ec_timeout ≡ false = ground (arith, h) in
      rw late ((λ e. cc), refl)
  settles done (suc n) (suc rounds) start s l h =
      elim (Bool-cases (ltb (elapsed (tick s).0 start) ec_timeout)) [
        | inl e ↦
            let (w, same) =
              settles done n rounds start (read_io (tick s).1 ec_cmd_port).1 (omega arith) h in
            rw (e, low_byte_state (read_io (tick s).1 ec_cmd_port))
              (polled_settled done _ _ _ w same)
        | inr e ↦ rw e ((λ e. cc), refl)
      ]

  -- On any device: if the tick count that the loop would read in some round, were it still running, is at least 100 ms
  -- behind the one at the start, with the wrap of 32 bits, then each polling loop returns TRUE or FALSE in that
  -- round or before it, and the same with any more rounds.
  pub ec_wait-settles :
      (done : ℕ → Bool) (n rounds : ℕ) (s : S)
      → n < rounds
      → ec_timeout ≤ elapsed (tick (polls n (tick s).1)).0 (tick s).0
      → let last = ec_wait tick read_io write_io done (suc n) s in
        (last.0 ≢ running) × (ec_wait tick read_io write_io done rounds s ≡ last)
  unfolding ec_wait Settled
  ec_wait-settles done n rounds s l h = settles done n rounds (tick s).0 (tick s).1 l h
