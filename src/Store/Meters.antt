-- ===== src/Store/Meters.antt =====
-- The traffic counters of internal/store/store.go.
pub mod Batches
pub mod Delivery
use ulcer.Prelude.{
  ℕ, ◌+◌, ◌-◌, ◌%◌, Bool, ◌||◌, not, Text, Option, none, some, List, [], ◌∷◌, ltb, leb, ◌==◌,
  if◌then◌else◌,
}
use ulcer.Result.{Result, ok, err, not_found, delta_is_nil, traffic_overflow}
use ulcer.Model.{Usage, MeterDelta}
use ulcer.Platform.{Platform}
use ulcer.Store.Words.{u64_mod}
use ulcer.Store.Keys.{instance_key, meter_ack_key, usage_total_key}
use ulcer.Store.Txn.{
  Txn, ◌>>=◌, ◌>>◌, pure, raise, lift, get, set, get_uint64, set_uint64, or_zero, update, view,
}
use ulcer.Store.Instances.{after_conflict}

abbrev pub no_usage : Usage
no_usage = record { uplink_bytes = 0; downlink_bytes = 0 }

unfoldable pub overflows : Usage → MeterDelta → Bool
overflows usage delta =
    ltb (u64_mod - 1 - usage.uplink_bytes) delta.uplink_bytes
    || ltb (u64_mod - 1 - usage.downlink_bytes) delta.downlink_bytes

unfoldable pub add_delta : Usage → MeterDelta → Usage
add_delta usage delta = record {
  uplink_bytes = (usage.uplink_bytes + delta.uplink_bytes) % u64_mod;
  downlink_bytes = (usage.downlink_bytes + delta.downlink_bytes) % u64_mod;
}

-- The loop over a batch: the highest sequence applied without a gap, and the totals.
unfoldable pub apply_deltas : List (Option MeterDelta) → ℕ → Usage → Result (ℕ × Usage)
unfolding overflows add_delta
apply_deltas [] acknowledged usage = ok (acknowledged, usage)
apply_deltas (none ∷ _) acknowledged usage = err delta_is_nil
apply_deltas (some delta ∷ deltas) acknowledged usage =
    let skipped = apply_deltas deltas acknowledged usage in
    let applied = apply_deltas deltas delta.sequence (add_delta usage delta) in
    if leb delta.sequence acknowledged
    then skipped
    else if not (delta.sequence == (acknowledged + 1) % u64_mod)
    then ok (acknowledged, usage)
    else if overflows usage delta
    then err traffic_overflow
    else applied

module _ ⦃p : Platform⦄ where
  open p use {Db, encode_usage, decode_usage}

  unfoldable pub get_usage : ℕ → Txn Usage
  unfolding get
  get_usage now = do
    item ← get now usage_total_key
    elim item [ none ↦ pure no_usage | some v ↦ lift (decode_usage v) ]

  unfoldable pub exists_instance : ℕ → Text → Txn (Unit {0})
  exists_instance now id = do
    item ← get now (instance_key id)
    elim item [ none ↦ raise not_found | some _ ↦ pure tt ]

  unfoldable pub store_meters : Text → ℕ × Usage → Txn ℕ
  unfolding set_uint64 set
  store_meters id (acknowledged, usage) = do
    set_uint64 (meter_ack_key id) acknowledged
    value ← lift (encode_usage usage)
    set usage_total_key value
    pure acknowledged

  unfoldable pub meter_batch : ℕ → Text → List (Option MeterDelta) → Txn ℕ
  unfolding get_usage get_uint64 or_zero apply_deltas exists_instance store_meters
  meter_batch now id deltas = do
    exists_instance now id
    acknowledged ← or_zero (get_uint64 now (meter_ack_key id))
    usage ← get_usage now
    applied ← lift (apply_deltas deltas acknowledged usage)
    store_meters id applied

  unfoldable pub apply_meters : ℕ → Text → List (Option MeterDelta) → Db → Result ℕ × Db
  unfolding update meter_batch after_conflict
  apply_meters now id deltas d = after_conflict now id (update (meter_batch now id deltas) d)

  unfoldable pub usage : ℕ → Db → Result Usage
  unfolding view get_usage
  usage now = view (get_usage now)
