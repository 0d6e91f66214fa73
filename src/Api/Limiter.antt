-- ===== src/Api/Limiter.antt =====
-- internal/api/limiter.go. Times are nanoseconds; the zero time is 0. The counter stays far below
-- the 3 * 10^8 failures at which `delay` would leave an int64.
pub mod Spacing
use ulcer.Prelude.{ℕ, ◌+◌, ◌-◌, ◌*◌, Bool, leb, ltb, not, if◌then◌else◌}

abbrev pub second : ℕ
second = 1_000_000_000

abbrev pub minute : ℕ
minute = 60 * second

pub record LoginLimiter : Type 0 where
  pub failures : ℕ
  pub blocked_until : ℕ

unfoldable pub allowed : ℕ → LoginLimiter → Bool
allowed now l = not (ltb now l.blocked_until)

unfoldable pub delay_after : ℕ → ℕ
delay_after failures =
    let delay = (failures - 4) * (30 * second) in
    if ltb (5 * minute) delay then 5 * minute else delay

unfoldable pub failed : ℕ → LoginLimiter → LoginLimiter
unfolding delay_after
failed now l =
    let failures = l.failures + 1 in
    if leb 5 failures
    then record { failures = failures; blocked_until = now + delay_after failures }
    else record l { failures = failures }

unfoldable pub succeeded : LoginLimiter → LoginLimiter
succeeded l = record { failures = 0; blocked_until = 0 }
