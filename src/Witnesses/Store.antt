-- ===== src/Witnesses/Store.antt =====
-- The instances, meters and sessions of the store at concrete inputs.
use ulcer.Prelude.{
  ℕ, ◌≡◌, refl, false, Text, text, text_eq, Option, none, some, List, [], ◌∷◌, arith,
}
use ulcer.Result.{ok, ◌>>=◌}
use ulcer.Model.{Instance, MeterDelta}
use ulcer.Samples.{sample_platform}
use ulcer.Samples.Keyed.{Cells, entry_at}
use ulcer.Store.Words.{uint64, put_uint64}
use ulcer.Store.Keys.{instance_key}
use ulcer.Store.Txn.{update, live}
use ulcer.Store.Instances.{instance, put_instance, update_instance, delete_instance, delete_once}
use ulcer.Store.Instances.Updates.{update_instance_lem}
use ulcer.Store.Instances.Deletion.{delete_instance_first, after_conflicts}
use ulcer.Store.Meters.{apply_meters, apply_deltas}
use ulcer.Store.Meters.Delivery.{acked, counters, apply_meters_lem, apply_meters-counts_once}
use ulcer.Control.Server.{go_offline}

abbrev pub router : Instance
router = record {
  id = text "r1";
  name = text "router";
  created_at = 5;
  last_seen_at = none;
  agent_version = [];
  capabilities = [];
  desired_generation = 2;
  desired_digest = text "d2";
  desired_spec = [];
  applied_generation = 1;
  applied_digest = text "d1";
  phase = text "connected";
  reason = [];
}

abbrev pub with_router : Cells
with_router = (put_instance router []).1

abbrev silent : Instance
silent = record router { phase = text "offline" }

abbrev no_fault : Option Text
no_fault = none

abbrev after_update : Cells
after_update = (update_instance 7 (text "r1") go_offline with_router).1

update_instance_lem_example :
    ((instance 7 (text "r1") with_router >>= go_offline) ≡ ok silent)
    × ((later : ℕ) → no_fault ≡ none → instance later (text "r1") after_update ≡ ok silent)
    × ((k : Text)
        → text_eq (instance_key (text "r1")) k ≡ false
        → entry_at after_update k ≡ entry_at with_router k)
unfolding put_instance update_instance instance go_offline live
update_instance_lem_example =
    update_instance_lem 7 (text "r1") go_offline with_router after_update silent refl

delete_instance_first_example :
    delete_instance 7 (text "r1") with_router
    ≡ update (delete_once 7 (text "r1")) (after_conflicts 0 with_router)
unfolding put_instance update delete_once instance live after_conflicts
delete_instance_first_example =
    delete_instance_first 0 7 (text "r1") with_router (ground arith) (λ j h. ground arith) refl

abbrev delta : ℕ → Option MeterDelta
delta n = some (record { sequence = n; uplink_bytes = 10; downlink_bytes = 20 })

abbrev batch : List (Option MeterDelta)
batch = delta 1 ∷ []

abbrev once : Cells
once = (apply_meters 7 (text "r1") batch with_router).1

abbrev twice : Cells
twice = (apply_meters 8 (text "r1") (delta 1 ∷ delta 2 ∷ []) once).1

apply_meters_lem_example :
    (apply_deltas batch (acked 7 (text "r1") with_router) (counters 7 with_router)
      ≡ ok (1, counters 9 once))
    × (acked 9 (text "r1") once ≡ 1)
unfolding put_instance apply_meters live uint64 put_uint64
apply_meters_lem_example =
    apply_meters_lem 7 9 (text "r1") batch with_router once 1 refl (ground arith)
      (record { ack = refl; total = refl })

apply_meters-counts_once_example :
    apply_deltas (delta 1 ∷ delta 2 ∷ []) (acked 7 (text "r1") with_router) (counters 7 with_router)
    ≡ ok (2, counters 9 twice)
unfolding put_instance apply_meters live uint64 put_uint64
apply_meters-counts_once_example =
    apply_meters-counts_once 7 8 9 (text "r1") batch (delta 2 ∷ []) with_router once twice 1 2 refl
      refl (ground arith) (ground arith) (record { ack = refl; total = refl })
      (record { ack = refl; total = refl })
