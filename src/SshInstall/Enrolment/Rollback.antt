-- ===== src/SshInstall/Enrolment/Rollback.antt =====
-- A failed installation takes its instance back out of the store.
use ulcer.Prelude.{
  ℕ, ◌≡◌, refl, Bool, true, false, Text, Option, none, some, List, [], ◌∷◌, text, ◌-◌, arith,
  text_eq, sym, ◌∙◌,
}
use ulcer.Result.{Result, ok, err}
use ulcer.Model.{Instance, Event, Value, label, flag}
use ulcer.Platform.{Platform, Refusal, conflicts, fails}
use ulcer.Store.Keys.{instance_key, event_key, event_sequence_key}
use ulcer.Store.Txn.{update, finish}
use ulcer.Store.Instances.{delete_instance}
use ulcer.Store.Instances.Deletion.{delete_instance-erases}
use ulcer.Store.Events.{append_event, number_event}
use ulcer.Store.Events.Frame.{number_event-eq-ok, entry-trimmed, next_number, event_bytes}
use ulcer.Control.Server.{World, event, publish_event}
use ulcer.SshInstall.Checks.{Net}
use ulcer.SshInstall.Remote.{Remote}
use ulcer.SshInstall.Job.{Site}
use ulcer.Events.{Bus, deliver}
use ulcer.Events.{publish as publish_to}
use ulcer.SshInstall.Enrolment.{
  Setting, publish, after_deletion, withdraw, let_in, fence, rollback, meet, publishes,
}

event_key-ne-instance_key : (n : ℕ) (id : Text) → text_eq (event_key n) (instance_key id) ≡ false
unfolding event_key
event_key-ne-instance_key n id = refl

sequence-ne-instance_key : (id : Text) → text_eq event_sequence_key (instance_key id) ≡ false
sequence-ne-instance_key id = refl

module _ ⦃p : Platform⦄ where
  open p use {Db, entry, fault, refusal, later}

  -- There is no record of the instance.
  abbrev pub IsAbsent : Text → Db → Type 0
  IsAbsent id d = entry d (instance_key id) ≡ none

  finish-IsAbsent {ℓ} :
      {A : Type ℓ} (id : Text) (a : A) (d w : Db) (r : Option Refusal)
      → IsAbsent id w
      → IsAbsent id (later d)
      → IsAbsent id d
      → IsAbsent id (finish a d w r).1
  unfolding finish
  finish-IsAbsent id a d w none h l k = h
  finish-IsAbsent id a d w (some conflicts) h l k = l
  finish-IsAbsent id a d w (some (fails f)) h l k = k

  commit-IsAbsent {ℓ} :
      {A : Type ℓ} (id : Text) (d : Db) (r : Result (A × Db))
      → ((a : A) (w : Db) → r ≡ ok (a, w) → IsAbsent id w)
      → IsAbsent id (later d)
      → IsAbsent id d
      → IsAbsent id
          (elim r as (λ _. Result A × Db) [
            | err e ↦ (err e, d)
            | ok (a, w) ↦ finish a d w (refusal d w)
          ]).1
  commit-IsAbsent id d (ok (a, w)) after l k =
      finish-IsAbsent id a d w (refusal d w) (after a w refl) l k
  commit-IsAbsent id d (err e) after l k = k

  append_event-IsAbsent :
      (now : ℕ) (e : Event) (id : Text) (d : Db)
      → ((c : Db) → IsAbsent id c → IsAbsent id (later c))
      → IsAbsent id d
      → IsAbsent id (append_event now e d).1
  unfolding append_event update
  append_event-IsAbsent now e id d keeps h =
      commit-IsAbsent id d (number_event now e d)
        (λ x w q.
          let n = next_number now d in
          let left = (number_event-eq-ok now e d q).2 in
          rw left (
            ground (
              arith,
              entry-trimmed n (event_bytes x) d (instance_key id),
              event_key-ne-instance_key n id,
              event_key-ne-instance_key (n - 500) id,
              sequence-ne-instance_key id,
            )))
        (keeps d h) h

  told-db :
      (r : Result Event × Db) (b : Bus)
      → (elim r.0 as (λ _. Result Event × Db × Bus) [
        | err e ↦ (err e, r.1, b)
        | ok e ↦ (ok e, r.1, deliver e b)
      ]).1
        ≡ r.1
  told-db (ok e, d) b = refl
  told-db (err e, d) b = refl

  publish-db :
      (now : ℕ) (e : Event) (d : Db) (b : Bus) → (publish_to now e d b).1 ≡ (append_event now e d).1
  unfolding publish_to
  publish-db now e d b = told-db (append_event now e d) b

  publish_event-db :
      (now : ℕ) (e : Event) (w : World) → (publish_event now e w).db ≡ (append_event now e w.db).1
  unfolding publish_event append_event
  publish_event-db now e w = publish-db now e w.db w.bus

  module _ ⦃net : Net⦄ ⦃remote : Remote⦄ (g : Setting) where
    module _
        (others-keep : (m : remote.Machine) (w : World)
          → IsAbsent g.id w.db
          → IsAbsent g.id (g.others m w).db)
        (later-keeps : (c : Db) → IsAbsent g.id c → IsAbsent g.id (later c)) where
      publishes-IsAbsent :
          (type_name : Text) (details : List (Text × Value)) (s : Site)
          → IsAbsent g.id s.world.db
          → IsAbsent g.id (publishes g type_name details s).world.db
      unfolding publish
      publishes-IsAbsent type_name details s h =
          let w = g.others s.machine s.world in
          let e = event type_name g.id details in
          rw (publish_event-db (remote.now s.machine) e w) (
            append_event-IsAbsent (remote.now s.machine) e g.id w.db later-keeps
              (others-keep s.machine s.world h))

      after_deletion-IsAbsent :
          (r : Result Instance) (s : Site)
          → IsAbsent g.id s.world.db
          → IsAbsent g.id (after_deletion g r s).1.world.db
      unfolding after_deletion
      after_deletion-IsAbsent (ok i) s h =
          publishes-IsAbsent (text "instance.deleted")
            ((text "name", label g.name) ∷ (text "rollback", flag true) ∷ []) s h
      after_deletion-IsAbsent (err e) s h = h

      after_deletion-result : (r : Result Instance) (s : Site) → (after_deletion g r s).0 ≡ r
      unfolding after_deletion
      after_deletion-result (ok i) s = refl
      after_deletion-result (err e) s = refl

      withdraw-IsAbsent :
          (s : Site) (i : Instance)
          → (withdraw g s).0 ≡ ok i
          → IsAbsent g.id (withdraw g s).1.world.db
      unfolding withdraw
      withdraw-IsAbsent s i h =
          let s1 = meet g s in
          let q = delete_instance (remote.now s.machine) g.id s1.world.db in
          let s2 = record s1 { world = record s1.world { db = q.1 } } in
          after_deletion-IsAbsent q.0 s2
            (delete_instance-erases (remote.now s.machine) g.id s1.world.db
              (λ j. ((sym (after_deletion-result q.0 s2) ∙ h) j, q.1))).0

      pub rollback-IsAbsent :
          (touched : Bool) (s : Site) (i : Instance)
          → (rollback g touched s).0 ≡ ok i
          → IsAbsent g.id (rollback g touched s).1.world.db
      unfolding rollback let_in
      rollback-IsAbsent touched s i h =
          let q = fence g touched s in
          let s1 = (withdraw g q.0).1 in others-keep s1.machine s1.world (withdraw-IsAbsent q.0 i h)
