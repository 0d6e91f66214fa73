-- ===== src/Witnesses/Host.antt =====
-- The host's handling of a stream at concrete inputs.
use ulcer.Prelude.{◌≡◌, refl, text, none, some, [], ◌∷◌, inr}
use ulcer.Result.{ok}
use ulcer.Model.{Instance, DesiredState}
use ulcer.Samples.{sample_platform}
use ulcer.Store.Instances.{put_instance}
use ulcer.Events.{new_bus}
use ulcer.Control.Hub.{new_hub}
use ulcer.Control.Hub.Fence.{run, reserves, activates}
use ulcer.Agent.{AgentSpec, reconciled, InstanceStatus}
use ulcer.Control.Server.{World, accept_status, desired_message}
use ulcer.Control.Server.Statuses.{
  IsConsistent, accept_status-IsConsistent, accept_status-reconciled, reported,
}

abbrev sensor : Instance
sensor = record {
  id = text "r1";
  name = text "sensor";
  created_at = 5;
  last_seen_at = none;
  agent_version = [];
  capabilities = [];
  desired_generation = 2;
  desired_digest = text "d2";
  desired_spec = [];
  applied_generation = 1;
  applied_digest = text "d1";
  phase = text "connected";
  reason = [];
}

abbrev host : World
host = record {
  db = (put_instance sensor []).1;
  bus = new_bus;
  hub = run new_hub (reserves (text "r1") ∷ activates 0 ∷ []);
}

abbrev next_desired : DesiredState
next_desired = record {
  instance_id = text "r1";
  generation = 2;
  spec_digest = text "d2";
  canonical_spec = [];
}

abbrev xray : AgentSpec
xray = record { engine = text "xray"; desired_phase = text "running" }

accept_status-reconciled_example :
    (k : Instance) × (accept_status 9 (reported (text "r1") (reconciled next_desired xray)) sensor
      ≡ ok k)
    × (k.applied_generation ≡ 2)
    × (k.applied_digest ≡ text "d2")
unfolding desired_message
accept_status-reconciled_example =
    accept_status-reconciled 9 next_desired xray sensor sensor refl (inr (refl, refl))

abbrev done : InstanceStatus
done = reported (text "r1") (record {
  applied_generation = 2;
  spec_digest = text "d2";
  phase = text "stopped";
  reason = [];
})

abbrev sensor_done : Instance
sensor_done = record sensor {
  last_seen_at = some 9;
  applied_generation = 2;
  applied_digest = text "d2";
  phase = text "stopped";
}

accept_status-IsConsistent_example :
    IsConsistent sensor_done
    × (sensor_done.desired_generation ≡ sensor.desired_generation)
    × (sensor_done.desired_digest ≡ sensor.desired_digest)
    × (sensor_done.desired_spec ≡ sensor.desired_spec)
    × (sensor_done.applied_generation ≡ done.applied_generation)
unfolding accept_status
accept_status-IsConsistent_example = accept_status-IsConsistent 9 done sensor sensor_done refl
