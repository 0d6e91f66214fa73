-- ===== src/Agent.antt =====
-- internal/instance: the agent's state in state.go, and the message loop and reconnection of
-- client.go.
pub mod Reconcile
pub mod Loop
pub mod Session
use ulcer.Prelude.{
  ℕ, zero, suc, ◌*◌, Bool, true, false, ◌&&◌, ◌||◌, not, Text, Bytes, text, Option, none, some,
  List, [], ◌∷◌, ◌++◌, ◌==◌, ltb, text_eq, if◌then◌else◌, ◌≡◌,
}
use ulcer.Result.{Result, Error, ok, err, generation_regressed, digest_changed, digest_mismatch}
use ulcer.Model.{DesiredState, HostMessage, desired, meter_ack, notice}
use ulcer.Platform.{Platform}
use ulcer.Store.Txn.{◌>>=◌, ◌>>◌, pure, lift, get, set, update, view}

pub record RuntimeState : Type 0 where
  pub applied_generation : ℕ
  pub spec_digest : Text
  pub phase : Text
  pub reason : Text

-- The fields of the specification that the agent reads.
pub record AgentSpec : Type 0 where
  pub engine : Text
  pub desired_phase : Text

-- encoding/json on the two records of this package.
pub record StateCodec : Type 0 where
  pub encode_state : RuntimeState → Result Bytes
  pub decode_state : Bytes → Result RuntimeState
  pub decode_spec : Bytes → Result AgentSpec
  pub decode-encode_state :
      (s : RuntimeState) (b : Bytes) → encode_state s ≡ ok b → decode_state b ≡ ok s

abbrev pub state_key : Text
state_key = text "runtime/state"

abbrev pub idle : RuntimeState
idle = record { applied_generation = 0; spec_digest = []; phase = text "idle"; reason = [] }

-- The state that an accepted specification leads to.
unfoldable pub reconciled : DesiredState → AgentSpec → RuntimeState
reconciled d spec =
    if text_eq spec.desired_phase (text "stopped")
    then record {
      applied_generation = d.generation;
      spec_digest = d.spec_digest;
      phase = text "stopped";
      reason = [];
    }
    else record {
      applied_generation = d.generation;
      spec_digest = d.spec_digest;
      phase = text "unsupported";
      reason =
          text "adapter " ++ spec.engine ++ text " is catalogued but not enabled in this build";
    }

-- status.InstanceStatus, but for the time of observation.
pub record InstanceStatus : Type 0 where
  pub instance_id : Text
  pub applied_generation : ℕ
  pub spec_digest : Text
  pub phase : Text
  pub reason : Text

module _ ⦃p : Platform⦄ ⦃c : StateCodec⦄ where
  open p use {Db, sha256_hex}
  open c use {encode_state, decode_state, decode_spec}

  unfoldable pub load : ℕ → Db → Result RuntimeState
  unfolding view get
  load now =
      view
        do item ← get now state_key; elim item [ none ↦ pure idle | some v ↦ lift (decode_state v) ]

  -- The checks of `apply`, in its order.
  unfoldable pub check : DesiredState → RuntimeState → Result AgentSpec
  check d state =
      if ltb d.generation state.applied_generation
      then err generation_regressed
      else if d.generation == state.applied_generation
          && not (text_eq state.spec_digest [])
          && not (text_eq d.spec_digest state.spec_digest)
      then err digest_changed
      else if not (text_eq (sha256_hex d.canonical_spec) d.spec_digest)
      then err digest_mismatch
      else decode_spec d.canonical_spec

  unfoldable pub store_state : RuntimeState → Db → Result RuntimeState × Db
  unfolding update set
  store_state state d = elim (encode_state state) [
    | err e ↦ (err e, d)
    | ok value ↦ update (do set state_key value; pure state) d
  ]

  unfoldable pub apply : ℕ → DesiredState → Db → Result RuntimeState × Db
  unfolding load check store_state reconciled
  apply now wanted d = elim (load now d) [
    | err e ↦ (err e, d)
    | ok state ↦ elim (check wanted state) [
      | err e ↦ (err e, d)
      | ok spec ↦ store_state (reconciled wanted spec) d
    ]
  ]

  -- sendStatus: the status that is sent.
  unfoldable pub status_of : ℕ → Text → Db → Result InstanceStatus
  unfolding load
  status_of now id d = elim (load now d) [
    | err e ↦ err e
    | ok s ↦ ok (record {
      instance_id = id;
      applied_generation = s.applied_generation;
      spec_digest = s.spec_digest;
      phase = s.phase;
      reason = s.reason;
    })
  ]

  -- Why the stream of `connect` ends, if a message ends it.
  pub data Outcome : Type 0 where
    answers : InstanceStatus → Outcome
    ignores : Outcome
    identity_mismatch : Outcome
    ends : Error → Outcome

  unfoldable pub answer : ℕ → Text → Result RuntimeState × Db → Outcome × Db
  unfolding status_of
  answer now id (err e, d) = (ends e, d)
  answer now id (ok _, d) = elim (status_of now id d) [
    | err e ↦ (ends e, d)
    | ok s ↦ (answers s, d)
  ]

  -- One message of the host in the loop of `connect`.
  unfoldable pub receive : ℕ → Text → HostMessage → Db → Outcome × Db
  unfolding apply answer
  receive now id (desired wanted) d =
      if text_eq wanted.instance_id id
      then answer now id (apply now wanted d)
      else (identity_mismatch, d)
  receive now id (meter_ack _ _) d = (ignores, d)
  receive now id (notice _ _) d = (ignores, d)

-- The seconds that `Run` waits before the next attempt, after one that it waited for.
unfoldable pub next_backoff : ℕ → ℕ
next_backoff backoff = if ltb backoff 30 then backoff * 2 else backoff

unfoldable pub backoff_after : ℕ → ℕ
unfolding next_backoff
backoff_after zero = 1
backoff_after (suc n) = next_backoff (backoff_after n)
