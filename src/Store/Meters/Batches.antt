-- ===== src/Store/Meters/Batches.antt =====
-- The loop over a meter batch: what a repeated, a gapless and any other batch does to the counters.
use ulcer.Prelude.{ℕ, ◌+◌, ◌≤◌, ◌<◌, ◌≡◌, Option, some, List, [], ◌∷◌, ◌++◌, map, length, arith}
use ulcer.Result.{ok}
use ulcer.Model.{Usage, MeterDelta}
use ulcer.Store.Words.{u64_mod}
use ulcer.Store.Meters.{apply_deltas, add_delta}

pub apply_deltas-le :
    (ds : List (Option MeterDelta)) (a : ℕ) (u : Usage) {a' : ℕ} {u' : Usage}
    → apply_deltas ds a u ≡ ok (a', u')
    → a ≤ a'
unfolding apply_deltas
apply_deltas-le [] a u h = ground arith
apply_deltas-le (Option.none ∷ ds) a u h = ground arith
apply_deltas-le (some d ∷ ds) a u {a'} {u'} h = ground (
  arith,
  apply_deltas-le ds a u {a' = a'} {u' = u'},
  apply_deltas-le ds d.sequence (add_delta u d) {a' = a'} {u' = u'},
)

-- A batch that was applied, and is delivered again with more deltas behind it, leaves the same
-- acknowledgement and totals (or the same error) as if it had been delivered once with them.
pub apply_deltas-append_replay :
    (xs ys : List (Option MeterDelta)) (a : ℕ) (u : Usage) {a' : ℕ} {u' : Usage}
    → apply_deltas xs a u ≡ ok (a', u')
    → apply_deltas (xs ++ ys) a' u' ≡ apply_deltas (xs ++ ys) a u
unfolding apply_deltas
apply_deltas-append_replay [] ys a u h = ground arith
apply_deltas-append_replay (Option.none ∷ xs) ys a u h = ground arith
apply_deltas-append_replay (some d ∷ xs) ys a u {a'} {u'} h = ground (
  arith,
  apply_deltas-le xs a u {a' = a'} {u' = u'},
  apply_deltas-le xs d.sequence (add_delta u d) {a' = a'} {u' = u'},
  apply_deltas-append_replay xs ys a u {a' = a'} {u' = u'},
  apply_deltas-append_replay xs ys d.sequence (add_delta u d) {a' = a'} {u' = u'},
)

-- Sequences a + 1, a + 2, …
abbrev pub IsContiguous : ℕ → List MeterDelta → Type 0
IsContiguous a [] = Unit
IsContiguous a (d ∷ ds) = (d.sequence ≡ a + 1) × IsContiguous d.sequence ds

abbrev pub total_uplink : List MeterDelta → ℕ
total_uplink [] = 0
total_uplink (d ∷ ds) = d.uplink_bytes + total_uplink ds

abbrev pub total_downlink : List MeterDelta → ℕ
total_downlink [] = 0
total_downlink (d ∷ ds) = d.downlink_bytes + total_downlink ds

-- A batch that continues the acknowledged sequence without a gap, and whose sequence numbers and
-- totals fit in 64 bits, is applied whole: every delta is counted once.
pub apply_deltas_contiguous :
    (ds : List MeterDelta) (a : ℕ) (u : Usage)
    → IsContiguous a ds
    → a + length ds < u64_mod
    → u.uplink_bytes + total_uplink ds < u64_mod
    → u.downlink_bytes + total_downlink ds < u64_mod
    → apply_deltas (map some ds) a u
      ≡ ok (
        a + length ds,
        record {
          uplink_bytes = u.uplink_bytes + total_uplink ds;
          downlink_bytes = u.downlink_bytes + total_downlink ds;
        },
      )
unfolding apply_deltas
apply_deltas_contiguous [] a u c h up down = ground arith
apply_deltas_contiguous (d ∷ ds) a u c h up down =
    ground (arith, apply_deltas_contiguous ds d.sequence (add_delta u d) c.1)

-- Totals below 2^64 stay below 2^64 and never decrease.
pub apply_deltas_bounds :
    (ds : List (Option MeterDelta)) (a : ℕ) (u : Usage) {a' : ℕ} {u' : Usage}
    → u.uplink_bytes < u64_mod
    → u.downlink_bytes < u64_mod
    → apply_deltas ds a u ≡ ok (a', u')
    → (u.uplink_bytes ≤ u'.uplink_bytes)
      × (u'.uplink_bytes < u64_mod)
      × (u.downlink_bytes ≤ u'.downlink_bytes)
      × (u'.downlink_bytes < u64_mod)
unfolding apply_deltas
apply_deltas_bounds [] a u up down h = ground arith
apply_deltas_bounds (Option.none ∷ ds) a u up down h = ground arith
apply_deltas_bounds (some d ∷ ds) a u {a'} {u'} up down h = ground (
  arith,
  apply_deltas_bounds ds a u {a' = a'} {u' = u'} up down,
  apply_deltas_bounds ds d.sequence (add_delta u d) {a' = a'} {u' = u'},
)
