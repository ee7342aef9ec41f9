-- ===== src/Sysstats/Load.antt =====
-- core/win_sysstats.c: the two readers of the load, their range, and the parts of the uptime.
use libhwsense.Prelude.{
  ℕ, zero, suc, ◌+◌, ◌*◌, ◌/◌, ◌^◌, ◌<◌, ◌≡◌, refl, true, false, Bool-cases, inl, inr, Option, none,
  some, List, [], ◌∷◌, ◌++◌, replicate, arith,
}
use libhwsense.Prelude.Int.{ℤ, pos, ◌+ℤ◌, ◌-ℤ◌, ◌*ℤ◌, ◌≤ℤ◌, ltb_ℤ, +ℤ_parts}
use libhwsense.Sysstats.{
  CpuTimes, CpuLoad, LoadState, zero_percent, load_start, delta, load_percent, on_times,
  get_cpu_load, sampled, get_cpu_load_sampled, get_uptime,
}

-- the state behind calls with these answers of the system
abbrev pub polls : List (Option CpuTimes) → LoadState → LoadState
polls [] st = st
polls (t ∷ ts) st =
    polls ts (get_cpu_load 0 t st (record { percent = zero_percent; num_cpus = 0 })).0

failed : (fails : ℕ) (st : LoadState) → polls (replicate fails none) st ≡ st
unfolding get_cpu_load on_times
failed zero st = refl
failed (suc fails) st = failed fails st

seen_last :
    (ts : List (Option CpuTimes)) (a : CpuTimes) (fails : ℕ) (st : LoadState)
    → polls (ts ++ (some a ∷ replicate fails none)) st ≡ record { prev = a; first_call = false }
unfolding get_cpu_load on_times
seen_last [] a fails st = failed fails _
seen_last (t ∷ ts) a fails st = seen_last ts a fails _

-- From the start, `win_get_cpu_load` fails, with its state and the caller's percentage as they were, as long as the system gives no times; the first
-- call with times gives 0 percent and the number of processors; and each later load is that between the call
-- and the last one before it with times, however many failed since: the load that `win_get_cpu_load_sampled`
-- gives for these two samples.
pub cpu_load_agrees :
    (ts : List (Option CpuTimes)) (a b : CpuTimes) (fails n : ℕ) (old old' : CpuLoad)
    → let begun = polls (replicate fails none) load_start in
      let st = polls (ts ++ (some a ∷ replicate fails none)) load_start in
      let (st', ok, load) = get_cpu_load n (some b) st old in
      (get_cpu_load n none begun old ≡ (load_start, false, record old { num_cpus = n }))
      × (get_cpu_load n (some b) begun old ≡ (
        record { prev = b; first_call = false },
        true,
        record { percent = zero_percent; num_cpus = n },
      ))
      × (get_cpu_load n none st old ≡ (st, false, record old { num_cpus = n }))
      × ((ok, load) ≡ get_cpu_load_sampled n (some a) (some b) old')
unfolding get_cpu_load on_times get_cpu_load_sampled sampled
cpu_load_agrees ts a b fails n old old' =
    rw (seen_last ts a fails load_start, failed fails load_start) (refl, refl, refl, refl)

-- What the system documents of two samples in order: the idle time is part of the kernel's, and no
-- time falls.
pub record IsLater (before after : CpuTimes) : Type 0 where
  pub idle : pos 0 ≤ℤ delta (λ t. t.idle_time) before after
  pub within : delta (λ t. t.idle_time) before after ≤ℤ delta (λ t. t.kernel_time) before after
  pub user : pos 0 ≤ℤ delta (λ t. t.user_time) before after

hundred :
    (i t : ℤ)
    → pos 0 ≤ℤ i
    → i ≤ℤ t
    → (pos 0 ≤ℤ pos 100 *ℤ (t -ℤ i)) × (pos 100 *ℤ (t -ℤ i) ≤ℤ pos 100 *ℤ t)
unfolding ◌*ℤ◌ ◌-ℤ◌
hundred i t h k = ground arith

-- Of two samples in order, the load is from 0 to 100 percent, with a denominator above 0.
pub load_percent-InRange :
    (before after : CpuTimes)
    → IsLater before after
    → let p = load_percent before after in
      (pos 0 ≤ℤ p.num) × (p.num ≤ℤ pos 100 *ℤ p.den) × (ltb_ℤ (pos 0) p.den ≡ true)
unfolding load_percent ◌*ℤ◌
load_percent-InRange before after later =
    let idle = delta (λ t. t.idle_time) before after in
    let kernel = delta (λ t. t.kernel_time) before after in
    let user = delta (λ t. t.user_time) before after in
    elim (Bool-cases (ltb_ℤ (pos 0) (kernel +ℤ user))) [
      | inl e ↦
          let (lo, hi) =
            hundred idle (kernel +ℤ user) later.idle (omega (arith, +ℤ_parts kernel user, later)) in
          rw e (lo, hi, e)
      | inr e ↦ rw e (omega arith, omega arith, refl)
    ]

-- The parts of the uptime are in their ranges and add up to the seconds since the start, as long as these
-- fit 32 bits.
pub get_uptime_lem :
    (tick_count : ℕ)
    → tick_count < 1000 * 2 ^ 32
    → let u = get_uptime tick_count in
      (u.seconds < 60)
      × (u.minutes < 60)
      × (u.hours < 24)
      × (u.seconds + 60 * (u.minutes + 60 * (u.hours + 24 * u.days)) ≡ tick_count / 1000)
unfolding get_uptime
get_uptime_lem tick_count h = (omega arith, omega arith, omega arith, omega arith)
