-- ===== src/Api/EventStream/Order.antt =====
-- The order in which a client receives events.
use ulcer.Prelude.{ℕ, ◌+◌, ◌≤◌, ◌<◌, ◌≡◌, List, [], ◌∷◌, ◌++◌, arith}
use ulcer.Model.{Event}
use ulcer.Api.EventStream.{last_written, write_live, event_stream}

-- Numbers that increase strictly from above `after`.
abbrev pub IsIncreasing : ℕ → List Event → Type 0
IsIncreasing after [] = Unit
IsIncreasing after (e ∷ es) = (after < e.id) × IsIncreasing e.id es

write_live-IsIncreasing :
    (after : ℕ) (live : List Event) → IsIncreasing after (write_live after live)
unfolding write_live
write_live-IsIncreasing after [] = tt
write_live-IsIncreasing after (e ∷ es) =
    ground (arith, write_live-IsIncreasing after es, write_live-IsIncreasing e.id es)

IsIncreasing-append :
    (after : ℕ) (xs ys : List Event)
    → IsIncreasing after xs
    → IsIncreasing (last_written after xs) ys
    → IsIncreasing after (xs ++ ys)
unfolding last_written
IsIncreasing-append after [] ys h k = k
IsIncreasing-append after (x ∷ xs) ys h k = (h.0, IsIncreasing-append x.id xs ys h.1 k)

-- Whatever the subscription delivers, and in whatever order, the numbers that a client receives
-- increase strictly, if those of the history do: no event is written twice.
pub event_stream-IsIncreasing :
    (after : ℕ) (history live : List Event)
    → IsIncreasing after history
    → IsIncreasing after (event_stream after history live)
unfolding event_stream
event_stream-IsIncreasing after history live h =
    IsIncreasing-append after history _ h
      (write_live-IsIncreasing (last_written after history) live)

-- Numbers that increase by one.
abbrev pub IsConsecutive : ℕ → List Event → Type 0
IsConsecutive n [] = Unit
IsConsecutive n (e ∷ es) = (e.id ≡ n + 1) × IsConsecutive e.id es

pub write_live-IsConsecutive :
    (after n : ℕ) (live : List Event)
    → n ≤ after
    → IsConsecutive n live
    → IsConsecutive after (write_live after live)
unfolding write_live last_written
write_live-IsConsecutive after n [] lo c = tt
write_live-IsConsecutive after n (e ∷ es) lo c =
    ground (arith, write_live-IsConsecutive after e.id es, write_live-IsConsecutive e.id e.id es)

pub IsConsecutive-append :
    (after : ℕ) (xs ys : List Event)
    → IsConsecutive after xs
    → IsConsecutive (last_written after xs) ys
    → IsConsecutive after (xs ++ ys)
unfolding last_written
IsConsecutive-append after [] ys h k = k
IsConsecutive-append after (x ∷ xs) ys h k = (h.0, IsConsecutive-append x.id xs ys h.1 k)

-- Two publishers store their events in one order and deliver them in the other: the older event
-- is not written.
pub write_live_overtaken :
    (after : ℕ) (older newer : Event) (live : List Event)
    → after < newer.id
    → older.id < newer.id
    → write_live after (newer ∷ older ∷ live) ≡ write_live after (newer ∷ live)
unfolding write_live
write_live_overtaken after older newer live a o = ground arith
