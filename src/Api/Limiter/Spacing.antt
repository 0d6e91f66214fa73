-- ===== src/Api/Limiter/Spacing.antt =====
-- How far apart the limiter keeps failed attempts.
use ulcer.Prelude.{ℕ, refl, ◌+◌, ◌*◌, ◌≤◌, ◌<◌, ◌≡◌, true, List, [], ◌∷◌, arith, length}
use ulcer.Api.Limiter.{LoginLimiter, allowed, failed, succeeded, second, minute}

-- The limiter after failures at the given times, the newest first.
unfoldable pub failures_at : List ℕ → LoginLimiter → LoginLimiter
failures_at [] l = l
failures_at (t ∷ ts) l = failed t (failures_at ts l)

failures-failures_at :
    (ts : List ℕ) (l : LoginLimiter) → (failures_at ts l).failures ≡ l.failures + length ts
unfolding failures_at failed
failures-failures_at [] l = omega arith
failures-failures_at (t ∷ ts) l = ground (arith, failures-failures_at ts l)

blocked-failures_at :
    (ts : List ℕ) (l : LoginLimiter)
    → l.failures + length ts < 5
    → (failures_at ts l).blocked_until ≡ l.blocked_until
unfolding failures_at failed
blocked-failures_at [] l h = refl
blocked-failures_at (t ∷ ts) l h =
    ground (arith, blocked-failures_at ts l, failures-failures_at ts l)

-- After a success, four failures in a row are let through at any time; every further failure closes
-- the door for at least 30 seconds and at most five minutes, and from the fourteenth on for five
-- minutes. (Times are those of the attempts that failed since.)
pub allowed-failures_at :
    (ts : List ℕ) (t now : ℕ) (l : LoginLimiter)
    → (length ts < 4 → allowed now (failures_at (t ∷ ts) (succeeded l)) ≡ true)
      × (4 ≤ length ts
          → allowed now (failures_at (t ∷ ts) (succeeded l)) ≡ true
          → t + 30 * second ≤ now)
      × (13 ≤ length ts
          → allowed now (failures_at (t ∷ ts) (succeeded l)) ≡ true
          → t + 5 * minute ≤ now)
      × (t + 5 * minute ≤ now
          → 4 ≤ length ts
          → allowed now (failures_at (t ∷ ts) (succeeded l)) ≡ true)
unfolding failures_at failed allowed succeeded
allowed-failures_at ts t now l =
    let l' = succeeded l in
    let count = failures-failures_at ts l' in
    (
      λ h. ground (arith, blocked-failures_at (t ∷ ts) l'),
      λ h a. ground (arith, count),
      λ h a. ground (arith, count),
      λ h k. ground (arith, count),
    )
