-- ===== src/Ec/Handshake.antt =====
-- motherboard/ec.c: the order in which `ec_read_reg` uses the two ports.
use libhwsense.Prelude.{
  ℕ, ◌%◌, ◌≡◌, ◌≢◌, refl, ap, ◌∙◌, Bool, true, false, Option, none, some, sym, ◌==◌, ◌||◌, ◌&&◌,
  if◌then◌else◌, arith,
}
use libhwsense.Ec.{
  when, when_ready, ec_cmd_port, ec_data_port, ec_cmd_read, ibf_clear, obf_set, low_byte,
  ec_read_port, ec_write_port, ec_wait, ec_wait_ibf, ec_wait_obf, ec_read_reg,
}
use libhwsense.Ec.Rules.{Post, bind_rule, Polled, when_ready_rule, wait_rule}

-- How far a read of a register is, as the controller sees it.
pub data Phase : Type 0 where
  idle free commanded accepted addressed full finished violated : Phase

-- a read of the status
unfoldable pub on_status : ℕ → Phase → Phase
on_status status idle = if ibf_clear status then free else idle
on_status status free = free
on_status status commanded = if ibf_clear status then accepted else commanded
on_status status accepted = accepted
on_status status addressed = if obf_set status then full else addressed
on_status status full = full
on_status status finished = finished
on_status status violated = violated

-- a read of the data, and a write to each port
unfoldable pub on_data : Phase → Phase
on_data full = finished
on_data p = violated

unfoldable pub on_command : Phase → Phase
on_command free = commanded
on_command p = violated

unfoldable pub on_address : Phase → Phase
on_address accepted = addressed
on_address p = violated

-- the phase behind a read, with what it gave
unfoldable pub after_read : ℕ → Option ℕ → Phase → Phase
after_read port none p = p
after_read port (some v) p = if port == ec_cmd_port then on_status (v % 256) p else on_data p

unfoldable pub after_write : ℕ → ℕ → ℕ → Phase → Phase
after_write reg port value p =
    if port == ec_cmd_port && value == ec_cmd_read
    then on_command p
    else if port == ec_data_port && value == reg
    then on_address p
    else violated

module _ {S : Type 0} (tick : S → ℕ × S) (read_io : S → ℕ → Option ℕ × S)
    (write_io : S → ℕ → ℕ → Bool × S) (reg : ℕ) where
  -- the device, with the controller's phase beside it
  abbrev pub observed_tick : S × Phase → ℕ × (S × Phase)
  observed_tick (s, p) = let (n, s') = tick s in (n, (s', p))

  abbrev pub observed_read : S × Phase → ℕ → Option ℕ × (S × Phase)
  observed_read (s, p) port = let (v, s') = read_io s port in (v, (s', after_read port v p))

  abbrev pub observed_write : S × Phase → ℕ → ℕ → Bool × (S × Phase)
  observed_write (s, p) port value =
      let (ok, s') = write_io s port value in (ok, (s', after_write reg port value p))

  At : Phase → S × Phase → Type 0
  At p s = s.1 ≡ p

  Sound : S × Phase → Type 0
  Sound s = s.1 ≢ violated

  -- a status read while the phase `p` waits for `q`
  status_Polled :
      (done : ℕ → Bool) (p q : Phase) (v : Option ℕ) (s : S)
      → ((x : ℕ) → on_status x p ≡ (if done x then q else p))
      → Polled (At p) (At q) done (low_byte (v, (s, after_read ec_cmd_port v p)))
  unfolding At after_read low_byte
  status_Polled done p q none s h = refl
  status_Polled done p q (some v) s h = (
    λ e. h (v % 256) ∙ ap (λ b. if b then q else p) e,
    λ e. h (v % 256) ∙ ap (λ b. if b then q else p) e,
  )

  Sound-At : (p : Phase) → p ≢ violated → (s : S × Phase) → At p s → Sound s
  unfolding At Sound
  Sound-At p n s h = λ e. n (sym h ∙ e)

  -- one of the loops, from the phase `p` on
  waits :
      (done : ℕ → Bool) (p q : Phase) (rounds : ℕ) (s : S × Phase)
      → ((x : ℕ) → on_status x p ≡ (if done x then q else p))
      → p ≢ violated
      → At p s
      → Post Sound
          (At q)
          (when_ready (ec_wait observed_tick observed_read observed_write done rounds s))
  unfolding ec_wait ec_read_port At
  waits done p q rounds s h n e = when_ready_rule (At p) (At q) Sound _ (Sound-At p n) (
      wait_rule observed_tick observed_read observed_write (At p) (At q) done (λ s e. e)
        (λ s e. rw e (status_Polled done p q _ _ h)) rounds _ _ e)

  sends :
      (port value : ℕ) (p q : Phase) (s : S × Phase)
      → (port == ec_data_port || port == ec_cmd_port) ≡ true
      → after_write reg port value p ≡ q
      → q ≢ violated
      → At p s
      → Post Sound (At q) (ec_write_port observed_tick observed_read observed_write port value s)
  unfolding ec_write_port when At Sound
  sends port value p q s g h n e = rw (g, e, h) (sent _ _)
    where
      sent : (ok : Bool) (s : S) → Post Sound (At q) (when (ok, (s, q)))
      sent true s = refl
      sent false s = n

  takes :
      (s : S × Phase)
      → At full s
      → Post Sound
          (At finished)
          (ec_read_port observed_tick observed_read observed_write ec_data_port s)
  unfolding ec_read_port low_byte At Sound after_read on_data
  takes s e = rw e (taken _ _)
    where
      taken :
          (v : Option ℕ) (s : S)
          → Post Sound (At finished) (low_byte (v, (s, after_read ec_data_port v full)))
      taken none s = λ e. cc
      taken (some v) s = refl

  same : (n : ℕ) → (n == n) ≡ true
  same n = ground arith

  addressed_by : after_write reg ec_data_port reg accepted ≡ addressed
  unfolding after_write on_address
  addressed_by = rw (same reg) refl

  -- Reading a register on any device, with any number of rounds: the read command is written only
  -- behind a status whose input buffer is free, the register's address only behind another such status
  -- read after the command, and the data port is read only behind a status, read after the address,
  -- whose output buffer is full; no other port is written and nothing else to these. When the register
  -- is read, the whole handshake has taken place.
  pub ec_read_reg-Ordered :
      (rounds : ℕ) (s : S)
      → let (v, s') = ec_read_reg observed_tick observed_read observed_write rounds reg (s, idle) in
        (s'.1 ≢ violated) × (v ≢ none → s'.1 ≡ finished)
  unfolding ec_read_reg ec_wait_ibf ec_wait_obf Sound At on_status after_write on_command
  ec_read_reg-Ordered rounds s = both _ (
      bind_rule Sound (At free) (At finished) _ _
        (waits ibf_clear idle free rounds (s, idle) (λ x. refl) (λ e. cc) refl)
        λ a s₁ h₁.
          bind_rule Sound (At commanded) (At finished) _ _
            (sends ec_cmd_port ec_cmd_read free commanded s₁ refl refl (λ e. cc) h₁)
            λ b s₂ h₂.
              bind_rule Sound (At accepted) (At finished) _ _
                (waits ibf_clear commanded accepted rounds s₂ (λ x. refl) (λ e. cc) h₂)
                λ c s₃ h₃.
                  bind_rule Sound (At addressed) (At finished) _ _
                    (sends ec_data_port reg accepted addressed s₃ refl addressed_by (λ e. cc) h₃)
                    λ d s₄ h₄.
                      bind_rule Sound (At full) (At finished) _ _
                        (waits obf_set addressed full rounds s₄ (λ x. refl) (λ e. cc) h₄)
                        λ e s₅ h₅. takes s₅ h₅)
    where
      both :
          (r : Option ℕ × (S × Phase))
          → Post Sound (At finished) r
          → (r.1.1 ≢ violated) × (r.0 ≢ none → r.1.1 ≡ finished)
      both (none, s) h = (h, λ n. absurd (n refl))
      both (some v, s) h = (λ e. cc, λ n. h)
