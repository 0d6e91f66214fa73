-- ===== src/Model.antt =====
-- internal/model/model.go: the records that the store keeps, and the message types of
-- gen/control/v1 that the packages exchange. A time is a number of seconds.
use ulcer.Prelude.{ℕ, Bytes, Text, Bool, List, Option}

pub record Instance : Type 0 where
  pub id : Text
  pub name : Text
  pub created_at : ℕ
  pub last_seen_at : Option ℕ
  pub agent_version : Text
  pub capabilities : List Text
  pub desired_generation : ℕ
  pub desired_digest : Text
  pub desired_spec : Bytes
  pub applied_generation : ℕ
  pub applied_digest : Text
  pub phase : Text
  pub reason : Text

pub record Usage : Type 0 where
  pub uplink_bytes : ℕ
  pub downlink_bytes : ℕ

-- The values that `map[string]any` holds in the events of this program.
pub data Value : Type 0 where
  label : Text → Value
  number : ℕ → Value
  flag : Bool → Value

-- `at` is `none` for the zero time.
pub record Event : Type 0 where
  pub id : ℕ
  pub type_name : Text
  pub resource_id : Text
  pub at : Option ℕ
  pub details : List (Text × Value)

pub record MeterDelta : Type 0 where
  pub sequence : ℕ
  pub uplink_bytes : ℕ
  pub downlink_bytes : ℕ

pub record DesiredState : Type 0 where
  pub instance_id : Text
  pub generation : ℕ
  pub spec_digest : Text
  pub canonical_spec : Bytes

-- HostMessage.Body
pub data HostMessage : Type 0 where
  desired : DesiredState → HostMessage
  meter_ack : Text → ℕ → HostMessage
  notice : Text → Text → HostMessage
