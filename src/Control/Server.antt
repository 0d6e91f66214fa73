-- ===== src/Control/Server.antt =====
-- internal/control/server.go: the handling of an instance's stream on the host. The parts that the
-- goroutines share are one record; a handler takes it through its calls in order.
pub mod Statuses
pub mod Publishing
use ulcer.Prelude.{
  ℕ, zero, suc, Bool, true, false, ◌&&◌, ◌||◌, not, Text, text, Option, none, some, List, [], ◌∷◌,
  ◌==◌, ltb, text_eq, if◌then◌else◌,
}
use ulcer.Result.{
  Result, Error, ok, err, not_found, generation_exceeds, digest_differs, is_not_found,
}
use ulcer.Model.{
  Instance, Event, Value, label, number, MeterDelta, HostMessage, desired, meter_ack, DesiredState,
}
use ulcer.Platform.{Platform}
use ulcer.Store.Instances.{instance, update_instance}
use ulcer.Store.Meters.{apply_meters}
use ulcer.Control.Hub.{Hub, reserve, activate, detach, cancel, if_not_revoked}
use ulcer.Events.{Bus, publish}
use ulcer.Agent.{InstanceStatus}

-- The codes of google.golang.org/grpc/codes with which a stream ends, or another error.
pub data Code : Type 0 where
  invalid_argument unauthenticated permission_denied aborted internal other : Code

pub record Hello : Type 0 where
  pub instance_id : Text
  pub agent_version : Text
  pub capabilities : List Text

pub record MeterBatch : Type 0 where
  pub instance_id : Text
  pub first_sequence : ℕ
  pub deltas : List (Option MeterDelta)

-- InstanceMessage.Body; `empty` is a message without one.
pub data InstanceMessage : Type 0 where
  hello : Hello → InstanceMessage
  status : InstanceStatus → InstanceMessage
  meters : MeterBatch → InstanceMessage
  empty : InstanceMessage

-- The mutation of a hello.
unfoldable pub greet : ℕ → Hello → Instance → Result Instance
greet now h i = ok (record i {
  last_seen_at = some now;
  agent_version = h.agent_version;
  capabilities = h.capabilities;
  phase =
      if text_eq i.phase (text "enrolled") || text_eq i.phase (text "offline")
      then text "connected"
      else i.phase;
})

-- The mutation of a status.
unfoldable pub accept_status : ℕ → InstanceStatus → Instance → Result Instance
accept_status now s i =
    if ltb i.desired_generation s.applied_generation
    then err generation_exceeds
    else if (s.applied_generation == i.desired_generation)
        && ltb 0 s.applied_generation
        && not (text_eq s.spec_digest i.desired_digest)
    then err digest_differs
    else ok (record i {
      last_seen_at = some now;
      applied_generation = s.applied_generation;
      applied_digest = s.spec_digest;
      phase = s.phase;
      reason = s.reason;
    })

unfoldable pub go_offline : Instance → Result Instance
go_offline i = ok (record i { phase = text "offline" })

unfoldable pub desired_message : Instance → HostMessage
desired_message i = desired (record {
  instance_id = i.id;
  generation = i.desired_generation;
  spec_digest = i.desired_digest;
  canonical_spec = i.desired_spec;
})

-- `len(meters.Deltas) > 0 && (FirstSequence == 0 || Deltas[0] == nil || …)`
unfoldable pub first_mismatch : MeterBatch → Bool
first_mismatch m = elim m.deltas [
  | [] ↦ false
  | o ∷ _ ↦ elim o [
    | none ↦ true
    | some d ↦ (m.first_sequence == 0) || not (m.first_sequence == d.sequence)
  ]
]

pub record World ⦃p : Platform⦄ : Type 0 where
  pub db : p.Db
  pub bus : Bus
  pub hub : Hub

module _ ⦃p : Platform⦄ where
  open p use {Db}

  abbrev pub event : Text → Text → List (Text × Value) → Event
  event type_name id details = record {
    id = 0;
    type_name = type_name;
    resource_id = id;
    at = none;
    details = details;
  }

  -- Server.publish: the result of the bus is dropped.
  unfoldable pub publish_event : ℕ → Event → World → World
  unfolding publish
  publish_event now e w =
      let (_, db', bus') = publish now e w.db w.bus in record w { db = db'; bus = bus' }

  abbrev pub is_found : Result Instance → Bool
  is_found (ok _) = true
  is_found (err _) = false

  unfoldable pub publish_if_enrolled : ℕ → Event → World → World × Bool
  unfolding publish_event if_not_revoked
  publish_if_enrolled now e w =
      if if_not_revoked e.resource_id w.hub && is_found (instance now e.resource_id w.db)
      then (publish_event now e w, true)
      else (w, false)

  -- The action of markOffline.
  unfoldable pub take_offline : ℕ → Text → World → World
  unfolding publish_event update_instance go_offline
  take_offline now id w =
      let (r, db') = update_instance now id go_offline w.db in
      let w' = record w { db = db' } in
      elim r [
        | err _ ↦ w'
        | ok _ ↦ publish_event now (event (text "instance.disconnected") id []) w'
      ]

  unfoldable pub mark_offline : ℕ → Text → World → World
  unfolding take_offline if_not_revoked
  mark_offline now id w = if if_not_revoked id w.hub then take_offline now id w else w

  -- What a message leads to: a code that ends the stream, or none; the message that is sent back.
  pub record Reply : Type 0 where
    pub code : Option Code
    pub sent : Option HostMessage
    pub world : World

  abbrev pub ended : Code → World → Reply
  ended c w = record { code = some c; sent = none; world = w }

  abbrev pub code_for : Bool → Option Code
  code_for true = none
  code_for false = some permission_denied

  unfoldable pub after_status : ℕ → (World → World) → Text → Result Instance → World → Reply
  unfolding publish_if_enrolled
  after_status now others id (err e) w =
      ended (if is_not_found e then permission_denied else invalid_argument) w
  after_status now others id (ok i) w =
      let e =
        event (text "instance.status") id
          ((text "phase", label i.phase) ∷ (text "generation", number i.applied_generation) ∷ []) in
      let (w', published) = publish_if_enrolled now e (others w) in
      record { code = code_for published; sent = none; world = w' }

  -- `failure` is the error of sendWhileConnected, if the stream does not take the message.
  unfoldable pub after_meters : ℕ → (World → World) → Text → Option Code → Result ℕ → World → Reply
  unfolding publish_if_enrolled
  after_meters now others id failure (err e) w =
      ended (if is_not_found e then permission_denied else internal) w
  after_meters now others id (some c) (ok ack) w = ended c (others w)
  after_meters now others id none (ok ack) w =
      let e = event (text "traffic.updated") id ((text "sequence", number ack) ∷ []) in
      let (w', published) = publish_if_enrolled now e (others w) in
      record { code = code_for published; sent = some (meter_ack id ack); world = w' }

  -- `others` is what the other goroutines do to the shared state between the transaction, or the send
  -- after it, and publishIfEnrolled.
  unfoldable pub handle_message :
      ℕ → (World → World) → Text → InstanceMessage → Option Code → World → Reply
  unfolding after_status after_meters update_instance accept_status first_mismatch apply_meters
  handle_message now others id (status s) failure w =
      if not (text_eq s.instance_id id)
      then ended permission_denied w
      else let (r, db') = update_instance now id (accept_status now s) w.db in
        after_status now others id r (record w { db = db' })
  handle_message now others id (meters m) failure w =
      if not (text_eq m.instance_id id)
      then ended permission_denied w
      else if first_mismatch m
      then ended invalid_argument w
      else let (r, db') = apply_meters now id m.deltas w.db in
        after_meters now others id failure r (record w { db = db' })
  handle_message now others id (hello _) failure w = ended invalid_argument w
  handle_message now others id empty failure w = ended invalid_argument w

  -- The opening of Connect, up to the loop. `others` is what the other goroutines do to the shared
  -- state between its calls; `authorized` the result of authorizeInstance.
  pub data Opening : Type 0 where
    refuses : Code → Opening
    opens : ℕ → Instance → Opening

  unfoldable pub announce : ℕ → Instance → ℕ → World → Opening × World
  unfolding publish_if_enrolled detach
  announce now i a w =
      let e = event (text "instance.connected") i.id ((text "name", label i.name) ∷ []) in
      let (w', published) = publish_if_enrolled now e w in
      if published
      then (opens a i, w')
      else (refuses aborted, record w' { hub = (detach a w'.hub).0 })

  unfoldable pub attach_stream : ℕ → (ℕ → World → World) → Instance → ℕ → World → Opening × World
  unfolding announce activate
  attach_stream now others i a w =
      let (hub', attached) = activate a w.hub in
      let w' = record w { hub = hub' } in
      if attached then announce now i a (others 2 w') else (refuses aborted, w')

  unfoldable pub admit : ℕ → (ℕ → World → World) → Hello → ℕ → World → Opening × World
  unfolding attach_stream update_instance greet cancel
  admit now others h a w =
      let (r, db') = update_instance now h.instance_id (greet now h) w.db in
      let w' = record w { db = db' } in
      elim r [
        | err e ↦ (
          refuses (if is_not_found e then permission_denied else internal),
          record w' { hub = cancel (some a) w'.hub },
        )
        | ok i ↦ attach_stream now others i a (others 1 w')
      ]

  unfoldable pub connect :
      ℕ → (ℕ → World → World) → InstanceMessage → Option Code → World → Opening × World
  unfolding admit reserve
  connect now others (hello h) authorized w =
      if text_eq h.instance_id [] then (refuses invalid_argument, w) else elim authorized [
        | some c ↦ (refuses c, w)
        | none ↦
            let (hub', o) = reserve h.instance_id w.hub in
            elim o [
              | none ↦ (refuses aborted, record w { hub = hub' })
              | some a ↦ admit now others h a (others 0 (record w { hub = hub' }))
            ]
      ]
  connect now others _ authorized w = (refuses invalid_argument, w)

  -- `if instance.DesiredGeneration > 0` after the opening.
  unfoldable pub first_message : Instance → Option HostMessage
  unfolding desired_message
  first_message i = if ltb 0 i.desired_generation then some (desired_message i) else none

  -- The deferred end of a stream.
  unfoldable pub disconnect : ℕ → Text → ℕ → World → World
  unfolding mark_offline detach
  disconnect now id a w =
      let (hub', detached) = detach a w.hub in
      let w' = record w { hub = hub' } in if detached then mark_offline now id w' else w'
