-- ===== src/Store/Meters/Delivery.antt =====
-- ApplyMeters over the database: what it stores, and that a batch is counted once however often
-- an instance delivers it.
use ulcer.Prelude.{
  ℕ, ◌<◌, ◌≡◌, refl, Bytes, Text, Option, none, List, [], ◌++◌, arith, text_eq_refl, subst, ◌≢◌,
}
use ulcer.Result.{Result, ok, err}
use ulcer.Model.{Usage, MeterDelta}
use ulcer.Platform.{Platform, reads}
use ulcer.Store.Words.{u64_mod, put_uint64, uint64-put_uint64}
use ulcer.Store.Keys.{meter_ack_key, usage_total_key, instance_key}
use ulcer.Store.Txn.{set, get, get_uint64, set_uint64, or_zero, update, live}
use ulcer.Store.Txn.Steps.{plain, update-eq-ok}
use ulcer.Store.Instances.{after_conflict}
use ulcer.Store.Meters.{
  no_usage, apply_deltas, get_usage, exists_instance, store_meters, meter_batch, apply_meters,
}
use ulcer.Store.Meters.Batches.{apply_deltas-append_replay}

module _ ⦃p : Platform⦄ where
  open p use {Db, entry, write, fault, encode_usage, decode_usage, decode-encode_usage, entry-write}

  abbrev value_or {ℓ} : {A : Type ℓ} → A → Result (A × Db) → A
  value_or a (ok (x, _)) = x
  value_or a (err _) = a

  -- The sequence number up to which deltas of the instance have been counted, and the totals.
  pub acked : ℕ → Text → Db → ℕ
  acked now id d = value_or 0 (or_zero (get_uint64 now (meter_ack_key id)) d)

  pub counters : ℕ → Db → Usage
  counters now d = value_or no_usage (get_usage now d)

  exists-eq-ok :
      (now : ℕ) (id : Text) (d : Db) {x : Unit} {d' : Db}
      → exists_instance now id d ≡ ok (x, d')
      → (live now (entry d (instance_key id)) ≢ none) × (d' ≡ d)
  unfolding exists_instance get
  exists-eq-ok now id d h = ground arith

  encoded : Usage → Bytes
  encoded u = elim (encode_usage u) [ ok b ↦ b | err _ ↦ [] ]

  counted : ℕ → Text → List (Option MeterDelta) → Db → Usage
  counted now id ds d = elim (apply_deltas ds (acked now id d) (counters now d)) [
    | ok (_, u) ↦ u
    | err _ ↦ no_usage
  ]

  stored : Text → ℕ → Usage → Db → Db
  stored id n u d =
      write usage_total_key (plain (encoded u)) (write (meter_ack_key id) (plain (put_uint64 n)) d)

  store_meters-eq-ok :
      (id : Text) (n : ℕ) (u : Usage) (d : Db) {m : ℕ} {w : Db}
      → store_meters id (n, u) d ≡ ok (m, w)
      → (m ≡ n) × (w ≡ stored id n u d) × (decode_usage (encoded u) ≡ ok u)
  unfolding store_meters stored encoded set_uint64 set
  store_meters-eq-ok id n u d h = ground (arith, decode-encode_usage u (encoded u))

  -- Everything that a batch which is accepted does.
  meter_batch-eq-ok :
      (now : ℕ) (id : Text) (ds : List (Option MeterDelta)) (d : Db) {n : ℕ} {w : Db}
      → meter_batch now id ds d ≡ ok (n, w)
      → (apply_deltas ds (acked now id d) (counters now d) ≡ ok (n, counted now id ds d))
        × (w ≡ stored id n (counted now id ds d) d)
        × (decode_usage (encoded (counted now id ds d)) ≡ ok (counted now id ds d))
  unfolding meter_batch counted counters acked or_zero
  meter_batch-eq-ok now id ds d {n} {w} h = ground (
    arith,
    store_meters-eq-ok id n (counted now id ds d) d {m = n} {w = w},
    exists-eq-ok now id d,
  )

  -- The two counters can be read.
  pub record IsReadable (id : Text) (d : Db) : Type 0 where
    pub ack : fault d (reads (meter_ack_key id)) ≡ none
    pub total : fault d (reads usage_total_key) ≡ none

  acked-stored :
      (now : ℕ) (id : Text) (n : ℕ) (u : Usage) (d : Db)
      → n < u64_mod
      → IsReadable id (stored id n u d)
      → acked now id (stored id n u d) ≡ n
  unfolding acked or_zero get_uint64 stored live
  acked-stored now id n u d h r = ground (
    arith,
    r.ack,
    uint64-put_uint64 n,
    text_eq_refl id,
    entry-write (write (meter_ack_key id) (plain (put_uint64 n)) d) usage_total_key
        (meter_ack_key id) (plain (encoded u)),
    entry-write d (meter_ack_key id) (meter_ack_key id) (plain (put_uint64 n)),
  )

  counters-stored :
      (now : ℕ) (id : Text) (n : ℕ) (u : Usage) (d : Db)
      → decode_usage (encoded u) ≡ ok u
      → IsReadable id (stored id n u d)
      → counters now (stored id n u d) ≡ u
  unfolding counters get_usage stored live
  counters-stored now id n u d h r = ground (
    arith,
    r.total,
    entry-write (write (meter_ack_key id) (plain (put_uint64 n)) d) usage_total_key usage_total_key
        (plain (encoded u)),
  )

  after_conflict-eq-ok {ℓ} :
      {A : Type ℓ} (now : ℕ) (id : Text) (r : Result A × Db) {a : A} {d' : Db}
      → after_conflict now id r ≡ (ok a, d')
      → r ≡ (ok a, d')
  unfolding after_conflict
  after_conflict-eq-ok now id (ok a, d) h = h
  after_conflict-eq-ok now id (err e, d) h = ground arith

  apply_meters-eq-ok :
      (now : ℕ) (id : Text) (ds : List (Option MeterDelta)) (d : Db) {n : ℕ} {d' : Db}
      → apply_meters now id ds d ≡ (ok n, d')
      → meter_batch now id ds d ≡ ok (n, d')
  unfolding apply_meters
  apply_meters-eq-ok now id ds d h =
      update-eq-ok (meter_batch now id ds) d
        (after_conflict-eq-ok now id (update (meter_batch now id ds) d) h)

  -- An accepted batch moves the acknowledgement and the totals, as they are read before and after
  -- it, exactly as the loop over the batch says, if the counters can be read afterwards and the
  -- number is below 2^64.
  pub apply_meters_lem :
      (now later : ℕ) (id : Text) (ds : List (Option MeterDelta)) (d d' : Db) (n : ℕ)
      → apply_meters now id ds d ≡ (ok n, d')
      → n < u64_mod
      → IsReadable id d'
      → (apply_deltas ds (acked now id d) (counters now d) ≡ ok (n, counters later d'))
        × (acked later id d' ≡ n)
  apply_meters_lem now later id ds d d' n h bound r =
      let (applied, state, decoded) =
        meter_batch-eq-ok now id ds d (apply_meters-eq-ok now id ds d h) in
      let u = counted now id ds d in
      let r' = subst (IsReadable id) state r in
      (
        rw (state, counters-stored later id n u d decoded r') applied,
        rw (state, acked-stored later id n u d bound r') refl,
      )

  -- A batch that an instance delivers again, now with more deltas behind it, is counted once: the
  -- totals afterwards are those of one delivery of the longer batch, if both deliveries are accepted,
  -- the counters of the instance can be read after each of them, and both acknowledged numbers are
  -- below 2^64.
  pub apply_meters-counts_once :
      (t1 t2 t3 : ℕ) (id : Text) (xs ys : List (Option MeterDelta)) (d d' d'' : Db) (n m : ℕ)
      → apply_meters t1 id xs d ≡ (ok n, d')
      → apply_meters t2 id (xs ++ ys) d' ≡ (ok m, d'')
      → n < u64_mod
      → m < u64_mod
      → IsReadable id d'
      → IsReadable id d''
      → apply_deltas (xs ++ ys) (acked t1 id d) (counters t1 d) ≡ ok (m, counters t3 d'')
  apply_meters-counts_once t1 t2 t3 id xs ys d d' d'' n m h k bn bm r r' =
      let (once, ack) = apply_meters_lem t1 t2 id xs d d' n h bn r in
      let (again, _) = apply_meters_lem t2 t3 id (xs ++ ys) d' d'' m k bm r' in
      cc (apply_deltas-append_replay xs ys (acked t1 id d) (counters t1 d) once, again, ack)
