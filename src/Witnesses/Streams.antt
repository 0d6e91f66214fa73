-- ===== src/Witnesses/Streams.antt =====
-- The hub, the event stream, the bus, the limiter and the batches at concrete inputs.
use ulcer.Prelude.{
  ℕ, zero, suc, ◌+◌, ◌*◌, ◌≤◌, ◌<◌, ◌≡◌, refl, true, Text, text, some, List, [], ◌∷◌, arith, length,
}
use ulcer.Model.{Usage, MeterDelta, notice}
use ulcer.Control.Hub.{Hub, new_hub, reserve, activate, revoke}
use ulcer.Control.Hub.Invariant.{Inv}
use ulcer.Control.Hub.Fence.{
  run, reserves, activates, releases, sends, revokes, IsFenced, Op, run-new_hub-Inv,
  revoke-IsFenced,
}
use ulcer.Api.Limiter.{LoginLimiter, allowed, succeeded, second, minute}
use ulcer.Api.Limiter.Spacing.{failures_at, allowed-failures_at}
use ulcer.Store.Words.{u64_mod}
use ulcer.Store.Meters.{apply_deltas}
use ulcer.Store.Meters.Batches.{apply_deltas-append_replay, apply_deltas_bounds}

abbrev berlin : Text
berlin = text "berlin"

-- One connection, at address 0.
abbrev attached : Hub
attached = run new_hub (reserves berlin ∷ activates 0 ∷ [])

run-new_hub-Inv_example : Inv attached
run-new_hub-Inv_example = run-new_hub-Inv (reserves berlin ∷ activates 0 ∷ [])

revoke-IsFenced_example : IsFenced berlin (
    run
      (revoke berlin attached).0
      (reserves berlin ∷ revokes berlin ∷ releases 1 ∷ activates 0 ∷ []))
unfolding revoke run new_hub activate reserve
revoke-IsFenced_example =
    revoke-IsFenced attached berlin
      (reserves berlin ∷ revokes berlin ∷ releases 1 ∷ activates 0 ∷ [])
      (run-new_hub-Inv (reserves berlin ∷ activates 0 ∷ []))
      (tt, (tt, ((λ e. ground arith), (tt, tt))))

abbrev full_ops : ℕ → List Op
full_ops zero = []
full_ops (suc n) = sends berlin (notice [] []) ∷ full_ops n

abbrev calm : LoginLimiter
calm = record { failures = 7; blocked_until = 100 }

allowed-failures_at_example :
    (length {0} {A = ℕ} (5 ∷ []) < 4 → allowed 9 (failures_at (8 ∷ 5 ∷ []) (succeeded calm)) ≡ true)
    × (4 ≤ length {0} {A = ℕ} (5 ∷ [])
        → allowed 9 (failures_at (8 ∷ 5 ∷ []) (succeeded calm)) ≡ true
        → 8 + 30 * second ≤ 9)
    × (13 ≤ length {0} {A = ℕ} (5 ∷ [])
        → allowed 9 (failures_at (8 ∷ 5 ∷ []) (succeeded calm)) ≡ true
        → 8 + 5 * minute ≤ 9)
    × (8 + 5 * minute ≤ 9
        → 4 ≤ length {0} {A = ℕ} (5 ∷ [])
        → allowed 9 (failures_at (8 ∷ 5 ∷ []) (succeeded calm)) ≡ true)
allowed-failures_at_example = allowed-failures_at (5 ∷ []) 8 9 calm

abbrev delta : ℕ → MeterDelta
delta n = record { sequence = n; uplink_bytes = 10; downlink_bytes = 20 }

abbrev used : ℕ → Usage
used n = record { uplink_bytes = 10 * n; downlink_bytes = 20 * n }

apply_deltas-append_replay_example :
    apply_deltas (some (delta 4) ∷ some (delta 5) ∷ []) 4 (used 1)
    ≡ apply_deltas (some (delta 4) ∷ some (delta 5) ∷ []) 3 (used 0)
unfolding apply_deltas
apply_deltas-append_replay_example =
    apply_deltas-append_replay (some (delta 4) ∷ []) (some (delta 5) ∷ []) 3 (used 0) {a' = 4}
      {u' = used 1} refl

apply_deltas_bounds_example : (10 ≤ 20) × (20 < u64_mod) × (20 ≤ 40) × (40 < u64_mod)
unfolding apply_deltas
apply_deltas_bounds_example =
    apply_deltas_bounds (some (delta 4) ∷ []) 3 (used 1) {a' = 4} {u' = used 2} (omega arith)
      (omega arith) refl
