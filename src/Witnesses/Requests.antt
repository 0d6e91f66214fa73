-- ===== src/Witnesses/Requests.antt =====
-- The handlers of the REST interface at concrete inputs.
use ulcer.Prelude.{◌≡◌, ◌≢◌, refl, ◌+◌, text, none, [], inl, arith}
use ulcer.Model.{Instance}
use ulcer.Samples.{sample_platform, sample_codec, stopping}
use ulcer.Api.Machines.{desire}
use ulcer.Api.Machines.Desired.{HasDigest, wanted_of, desire-IsConsistent, check-desire}
use ulcer.Control.Server.Statuses.{IsConsistent}
use ulcer.Agent.{idle, check}

abbrev camera : Instance
camera = record {
  id = text "c1";
  name = text "camera";
  created_at = 5;
  last_seen_at = none;
  agent_version = [];
  capabilities = [];
  desired_generation = 0;
  desired_digest = [];
  desired_spec = [];
  applied_generation = 0;
  applied_digest = [];
  phase = text "running";
  reason = [];
}

abbrev stopped_camera : Instance
stopped_camera = record camera {
  desired_generation = 1;
  desired_digest = text "xray";
  desired_spec = text "xray";
}

camera-IsConsistent : IsConsistent camera
camera-IsConsistent = record { behind = ground arith; agrees = λ e q. ground arith }

camera-HasDigest : HasDigest camera
unfolding HasDigest
camera-HasDigest = inl (refl, refl)

desire-IsConsistent_example :
    IsConsistent stopped_camera
    × (text "xray" ≡ text "xray")
    × (text "xray" ≡ text "xray")
    × (camera.desired_digest ≡ text "xray" → stopped_camera ≡ camera)
    × (camera.desired_digest ≢ text "xray"
        → (stopped_camera.desired_generation ≡ camera.desired_generation + 1)
          × (stopped_camera.desired_spec ≡ text "xray"))
unfolding desire
desire-IsConsistent_example =
    desire-IsConsistent (text "xray") camera stopped_camera (λ e. ground arith) (ground arith)
      camera-IsConsistent camera-HasDigest refl

check-desire_example : check (wanted_of stopped_camera) idle ≡ stopping (text "xray")
unfolding desire
check-desire_example =
    check-desire (text "xray") camera stopped_camera idle (λ e. ground arith) (ground arith)
      camera-IsConsistent camera-HasDigest (ground arith) (λ e n. absurd (n refl)) refl
