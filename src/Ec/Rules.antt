-- ===== src/Ec/Rules.antt =====
-- motherboard/ec.c: conditions on the device, carried through a step, a sequence and a loop.
use libhwsense.Prelude.{
  ℕ, zero, suc, ◌≡◌, Bool, true, false, Bool-cases, inl, inr, Option, none, some, ltb,
}
use libhwsense.Ec.{
  Wait, ready, failed, running, M, bind, when_ready, elapsed, ec_timeout, ec_cmd_port, polled,
  ec_read_port, wait_for,
}

-- The rules of a step that may fail: `P` holds behind FALSE and `Q` behind TRUE.
abbrev pub Post : {S A : Type 0} (P Q : S → Type 0) → Option A × S → Type 0
Post P Q (none, s) = P s
Post P Q (some a, s) = Q s

pub bind_rule :
    {S A B : Type 0} (P Q R : S → Type 0) (m : Option A × S) (f : A → M S B)
    → Post P Q m
    → ((a : A) (s : S) → Q s → Post P R (f a s))
    → Post P R (bind f m)
unfolding bind
bind_rule P Q R (none, s) f h k = h
bind_rule P Q R (some a, s) f h k = k a s h

abbrev pub Waited : {S : Type 0} (P Q : S → Type 0) → Wait × S → Type 0
Waited P Q (ready, s) = Q s
Waited P Q (failed, s) = P s
Waited P Q (running, s) = P s

-- a status, with the test of a loop
abbrev pub Polled : {S : Type 0} (P Q : S → Type 0) → (ℕ → Bool) → Option ℕ × S → Type 0
Polled P Q done (none, s) = P s
Polled P Q done (some v, s) = (done v ≡ false → P s) × (done v ≡ true → Q s)

polled-Waited :
    {S : Type 0} (P Q : S → Type 0) (done : ℕ → Bool) (again : Wait × S) (status : Option ℕ × S)
    → Polled P Q done status
    → (P status.1 → Waited P Q again)
    → Waited P Q (polled done again status)
unfolding polled
polled-Waited P Q done again (none, s) h k = h
polled-Waited P Q done again (some v, s) h k = elim (Bool-cases (done v)) [
  | inl e ↦ rw e (h.1 e)
  | inr e ↦ rw e (k (h.0 e))
]

pub when_ready_rule :
    {S : Type 0} (P Q F : S → Type 0) (w : Wait × S)
    → ((s : S) → P s → F s)
    → Waited P Q w
    → Post F Q (when_ready w)
unfolding when_ready
when_ready_rule P Q F (ready, s) k h = h
when_ready_rule P Q F (failed, s) k h = k s h
when_ready_rule P Q F (running, s) k h = k s h

module _ {S : Type 0} (tick : S → ℕ × S) (read_io : S → ℕ → Option ℕ × S)
    (write_io : S → ℕ → ℕ → Bool × S) where
  pub wait_rule :
      (P Q : S → Type 0) (done : ℕ → Bool)
      → ((s : S) → P s → P (tick s).1)
      → ((s : S) → P s → Polled P Q done (ec_read_port tick read_io write_io ec_cmd_port s))
      → (rounds start : ℕ) (s : S) → P s
      → Waited P Q (wait_for tick read_io write_io done rounds start s)
  unfolding wait_for
  wait_rule P Q done ticks reads zero start s h = h
  wait_rule P Q done ticks reads (suc rounds) start s h =
      elim (Bool-cases (ltb (elapsed (tick s).0 start) ec_timeout)) [
        | inl l ↦ rw l (
            polled-Waited P Q done _ _ (reads (tick s).1 (ticks s h))
              λ p. wait_rule P Q done ticks reads rounds start _ p)
        | inr l ↦ rw l (ticks s h)
      ]
