-- ===== src/Unified/Busy.antt =====
-- core/unified_linux.c: the load is the share of the time that is not idle, and memory the part in use.
use libhwsense.Prelude.{
  ℕ, ◌+◌, ◌-◌, ◌*◌, ◌^◌, ◌≤◌, ◌<◌, ◌≡◌, ◌∙◌, subst, Bool-cases, inl, inr, some, ◌==◌, if◌then◌else◌,
  arith,
}
use libhwsense.Prelude.Int.{pos}
use libhwsense.Unified.{whole, Stat, total_of, sub64, load_between, MemInfo, used_of}

-- no counter has gone back, and the sum of all fits a word
pub record IsLater (a b : Stat) : Type 0 where
  pub user : a.user ≤ b.user
  pub nice : a.nice ≤ b.nice
  pub system : a.system ≤ b.system
  pub idle : a.idle ≤ b.idle
  pub iowait : a.iowait ≤ b.iowait
  pub irq : a.irq ≤ b.irq
  pub softirq : a.softirq ≤ b.softirq
  pub steal : a.steal ≤ b.steal
  pub fits : total_of b < 2 ^ 64

-- the time between two samples that is neither idle nor waiting for devices
abbrev pub busy : Stat → Stat → ℕ
busy a b =
    (b.user - a.user)
    + (b.nice - a.nice)
    + (b.system - a.system)
    + (b.irq - a.irq)
    + (b.softirq - a.softirq)
    + (b.steal - a.steal)

abbrev pub passed : Stat → Stat → ℕ
passed a b = busy a b + (b.idle - a.idle) + (b.iowait - a.iowait)

sub64_lem : (x y : ℕ) → x ≤ y → y < 2 ^ 64 → sub64 y x ≡ y - x
sub64_lem x y h k = omega arith

restored : (x y : ℕ) → x ≤ y → y ≡ x + (y - x)
restored x y h = omega arith

total-le : (a b : Stat) → IsLater a b → total_of a ≤ total_of b
total-le a b l = omega arith

-- a difference of sums, from the eight differences
parts :
    (a b c d e f g h a' b' c' d' e' f' g' h' p q r s t u v w : ℕ)
    → a' ≡ a + p
    → b' ≡ b + q
    → c' ≡ c + r
    → d' ≡ d + s
    → e' ≡ e + t
    → f' ≡ f + u
    → g' ≡ g + v
    → h' ≡ h + w
    → (a' + b' + c' + d' + e' + f' + g' + h') - (a + b + c + d + e + f + g + h)
      ≡ (p + q + r + u + v + w) + s + t
parts a b c d e f g h a' b' c' d' e' f' g' h' p q r s t u v w x₁ x₂ x₃ x₄ x₅ x₆ x₇ x₈ = omega arith

passed_lem : (a b : Stat) → IsLater a b → total_of b - total_of a ≡ passed a b
passed_lem a b l =
    parts a.user a.nice a.system a.idle a.iowait a.irq a.softirq a.steal _ _ _ _ _ _ _ _ _ _ _ _ _ _
      _ _ (restored _ _ l.user) (restored _ _ l.nice) (restored _ _ l.system) (restored _ _ l.idle)
      (restored _ _ l.iowait) (restored _ _ l.irq) (restored _ _ l.softirq) (restored _ _ l.steal)

total_lem : (a b : Stat) → IsLater a b → sub64 (total_of b) (total_of a) ≡ passed a b
total_lem a b l = sub64_lem (total_of a) (total_of b) (total-le a b l) l.fits ∙ passed_lem a b l

smaller : (x y : ℕ) → y < 2 ^ 64 → y - x < 2 ^ 64
smaller x y h = omega arith

passed-lt : (a b : Stat) → IsLater a b → passed a b < 2 ^ 64
passed-lt a b l =
    subst (λ (n : ℕ). n < 2 ^ 64) (passed_lem a b l) (smaller (total_of a) (total_of b) l.fits)

rest_lem : (n x y : ℕ) → n + x + y < 2 ^ 64 → sub64 (n + x + y) (x + y) ≡ n
rest_lem n x y h = omega arith

two : (x y u v : ℕ) → x ≤ y → u ≤ v → (y + v) - (x + u) ≡ (y - x) + (v - u)
two x y u v h k = omega arith

idle_lem :
    (a b : Stat)
    → IsLater a b
    → sub64 (b.idle + b.iowait) (a.idle + a.iowait) ≡ (b.idle - a.idle) + (b.iowait - a.iowait)
idle_lem a b l =
    sub64_lem (a.idle + a.iowait) (b.idle + b.iowait) (omega (arith, l)) (omega (arith, l))
    ∙ two a.idle b.idle a.iowait b.iowait l.idle l.iowait

at_most : (n x y : ℕ) → n ≤ n + x + y
at_most n x y = omega arith

-- Between two samples of counters that have not gone back, the load is 100 times the time of the six busy
-- counters over the time of all eight, which is at most 100, and 0 when no time has passed.
pub load_between-busy :
    (a b : Stat)
    → IsLater a b
    → (load_between a b ≡ (
        if passed a b == 0
        then whole (pos 0)
        else record { num = pos (100 * busy a b); den = passed a b }))
      × (busy a b ≤ passed a b)
unfolding load_between
load_between-busy a b l = (
  rw (
    total_lem a b l,
    idle_lem a b l,
    rest_lem (busy a b) (b.idle - a.idle) (b.iowait - a.iowait) (passed-lt a b l),
  ),
  at_most (busy a b) (b.idle - a.idle) (b.iowait - a.iowait),
)

-- What the kernel says is available is at most the total.
pub used_of_lem :
    (m : MemInfo)
    → m.avail ≤ m.total
    → m.total < 2 ^ 64
    → 0 < m.total
    → used_of m ≡ some (record { total_kb = m.total; used_kb = m.total - m.avail })
unfolding used_of
used_of_lem m h k p = elim (Bool-cases (m.total == 0)) [
  | inl e ↦ absurd (ground arith)
  | inr e ↦ rw (e, sub64_lem m.avail m.total h k)
]
