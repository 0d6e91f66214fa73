-- ===== src/Control/Server/Publishing.antt =====
-- What a message of an instance may change, and which answers it gets.
use ulcer.Prelude.{
  ℕ, ◌≡◌, refl, ◌≢◌, Bool, true, Text, Option, none, some, arith, text_eq, Bool-cases, inl, inr,
  not, if◌then◌else◌,
}
use ulcer.Result.{Result, ok, err}
use ulcer.Model.{Instance, HostMessage, meter_ack}
use ulcer.Platform.{Platform}
use ulcer.Store.Instances.{update_instance}
use ulcer.Store.Meters.{apply_meters}
use ulcer.Control.Server.{
  World, InstanceMessage, hello, status, meters, empty, MeterBatch, Code, handle_message,
  accept_status, after_meters, after_status, first_mismatch,
}

module _ ⦃p : Platform⦄ where
  open p use {Db}

  -- A message that does not belong to the stream: it speaks of another instance, is a second
  -- hello, has no body, or is a meter batch that does not begin with its first sequence.
  abbrev pub is_foreign : Text → InstanceMessage → Bool
  is_foreign id (status s) = not (text_eq s.instance_id id)
  is_foreign id (meters m) = if not (text_eq m.instance_id id) then true else first_mismatch m
  is_foreign id (hello _) = true
  is_foreign id empty = true

  -- A message that does not belong to the stream ends it and changes nothing on the host.
  pub handle_message-foreign :
      (now : ℕ) (others : World → World) (id : Text) (m : InstanceMessage) (failure : Option Code)
      (w : World)
      → is_foreign id m ≡ true
      → ((handle_message now others id m failure w).world ≡ w)
        × ((handle_message now others id m failure w).sent ≡ none)
        × ((handle_message now others id m failure w).code ≢ none)
  unfolding handle_message
  handle_message-foreign now others id (status s) failure w h = ground arith
  handle_message-foreign now others id (meters m) failure w h = ground arith
  handle_message-foreign now others id (hello x) failure w h = (refl, refl, λ e. ground arith)
  handle_message-foreign now others id empty failure w h = (refl, refl, λ e. ground arith)

  after_status_silent :
      (now : ℕ) (others : World → World) (id : Text) (r : Result Instance) (w : World)
      → (after_status now others id r w).sent ≡ none
  unfolding after_status
  after_status_silent now others id (ok i) w = refl
  after_status_silent now others id (err e) w = refl

  after_meters_sent :
      (now : ℕ) (others : World → World) (id : Text) (failure : Option Code) (r : Result ℕ)
      (w : World) (sent : HostMessage)
      → (after_meters now others id failure r w).sent ≡ some sent
      → (n : ℕ) × (r ≡ ok n) × (sent ≡ meter_ack id n)
  unfolding after_meters
  after_meters_sent now others id none (ok n) w sent h = (n, refl, ground arith)
  after_meters_sent now others id (some c) (ok n) w sent h = absurd (ground arith)
  after_meters_sent now others id failure (err e) w sent h = absurd (ground arith)

  -- The only message that is sent back is the acknowledgement of a batch, after the batch was
  -- committed, and it carries the number that the database has stored.
  pub handle_message-ack :
      (now : ℕ) (others : World → World) (id : Text) (m : InstanceMessage) (failure : Option Code)
      (w : World) (sent : HostMessage)
      → (handle_message now others id m failure w).sent ≡ some sent
      → (b : MeterBatch) × (n : ℕ) × (m ≡ meters b)
        × (text_eq b.instance_id id ≡ true)
        × ((apply_meters now id b.deltas w.db).0 ≡ ok n)
        × (sent ≡ meter_ack id n)
  unfolding handle_message
  handle_message-ack now others id (meters b) failure w sent h =
      elim (Bool-cases (text_eq b.instance_id id)) [
        | inr e ↦ absurd (ground arith)
        | inl e ↦ elim (Bool-cases (first_mismatch b)) [
          | inl f ↦ absurd (ground arith)
          | inr f ↦
              let (n, g, k) =
                after_meters_sent now others id failure (apply_meters now id b.deltas w.db).0
                  (record w { db = (apply_meters now id b.deltas w.db).1 }) sent (ground arith) in
              (b, n, refl, e, g, k)
        ]
      ]
  handle_message-ack now others id (status s) failure w sent h =
      let q = update_instance now id (accept_status now s) w.db in
      absurd (ground (arith, after_status_silent now others id q.0 (record w { db = q.1 })))
  handle_message-ack now others id (hello x) failure w sent h = absurd (ground arith)
  handle_message-ack now others id empty failure w sent h = absurd (ground arith)
