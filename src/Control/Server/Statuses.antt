-- ===== src/Control/Server/Statuses.antt =====
-- The generations of an instance record, and the agreement between the host and an agent.
use ulcer.Prelude.{ℕ, ◌≤◌, ◌<◌, ◌≡◌, refl, ◌⊎◌, Text, some, arith, text_eq_iff, text_eq_refl}
use ulcer.Result.{ok}
use ulcer.Model.{Instance, DesiredState, desired}
use ulcer.Agent.{InstanceStatus, AgentSpec, RuntimeState, reconciled}
use ulcer.Control.Server.{Hello, greet, accept_status, go_offline, desired_message}

-- The applied generation is not ahead of the desired one, and is the same only with its digest.
pub record IsConsistent (i : Instance) : Type 0 where
  pub behind : i.applied_generation ≤ i.desired_generation
  pub agrees :
      i.applied_generation ≡ i.desired_generation
      → 0 < i.applied_generation
      → i.applied_digest ≡ i.desired_digest

-- A status that is accepted leaves a consistent record, whatever the record was before, and the
-- desired state as it was.
pub accept_status-IsConsistent :
    (now : ℕ) (s : InstanceStatus) (i j : Instance)
    → accept_status now s i ≡ ok j
    → IsConsistent j
      × (j.desired_generation ≡ i.desired_generation)
      × (j.desired_digest ≡ i.desired_digest)
      × (j.desired_spec ≡ i.desired_spec)
      × (j.applied_generation ≡ s.applied_generation)
unfolding accept_status
accept_status-IsConsistent now s i j h =
    let same = text_eq_iff s.spec_digest i.desired_digest in
    (
      record { behind = ground arith; agrees = λ e p. ground (arith, same) },
      ground arith,
      ground arith,
      ground arith,
      ground arith,
    )

-- The mutations of a hello and of a disconnection keep a record consistent.
pub greet-IsConsistent :
    (now : ℕ) (h : Hello) (i j : Instance) → greet now h i ≡ ok j → IsConsistent i → IsConsistent j
unfolding greet
greet-IsConsistent now h i j e c = record {
  behind = ground (arith, c.behind);
  agrees = λ p q. ground (arith, c.agrees);
}

pub go_offline-IsConsistent :
    (i j : Instance) → go_offline i ≡ ok j → IsConsistent i → IsConsistent j
unfolding go_offline
go_offline-IsConsistent i j e c = record {
  behind = ground (arith, c.behind);
  agrees = λ p q. ground (arith, c.agrees);
}

-- The status of an agent that has carried out the host's desired message.
abbrev pub reported : Text → RuntimeState → InstanceStatus
reported id s = record {
  instance_id = id;
  applied_generation = s.applied_generation;
  spec_digest = s.spec_digest;
  phase = s.phase;
  reason = s.reason;
}

-- An agent that has carried out the desired state of a record reports a status that the host
-- accepts, as long as the record has that desired state or one of a later generation.
pub accept_status-reconciled :
    (now : ℕ) (d : DesiredState) (spec : AgentSpec) (i j : Instance)
    → desired_message i ≡ desired d
    → (i.desired_generation < j.desired_generation)
      ⊎ ((i.desired_generation ≡ j.desired_generation) × (i.desired_digest ≡ j.desired_digest))
    → (k : Instance) × (accept_status now (reported i.id (reconciled d spec)) j ≡ ok k)
      × (k.applied_generation ≡ i.desired_generation)
      × (k.applied_digest ≡ i.desired_digest)
unfolding accept_status reconciled desired_message
accept_status-reconciled now d spec i j m later = (
  record j {
    last_seen_at = some now;
    applied_generation = i.desired_generation;
    applied_digest = i.desired_digest;
    phase = (reconciled d spec).phase;
    reason = (reconciled d spec).reason;
  },
  ground (arith, text_eq_refl i.desired_digest),
  refl,
  refl,
)
