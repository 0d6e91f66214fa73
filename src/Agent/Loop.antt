-- ===== src/Agent/Loop.antt =====
-- internal/instance/client.go: the loop of connect, and Run. A list says what wakes the select of
-- the loop, one entry for each of its rounds.
pub mod Reports
pub mod Retries
use ulcer.Prelude.{
  ℕ, zero, suc, Bool, true, false, ◌||◌, Text, Option, none, some, List, [], ◌∷◌, if◌then◌else◌,
}
use ulcer.Result.{Result, ok, err}
use ulcer.Model.{HostMessage}
use ulcer.Platform.{Platform}
use ulcer.Agent.{
  StateCodec, InstanceStatus, Outcome, answers, ignores, identity_mismatch, ends, status_of,
  receive, next_backoff,
}

-- The error with which a connection ends: a gRPC status of the code Unauthenticated or
-- PermissionDenied, context.Canceled, or any other one.
pub data Failure : Type 0 where
  unauthenticated permission_denied canceled broken : Failure

unfoldable pub identity_rejected : Failure → Bool
identity_rejected unauthenticated = true
identity_rejected permission_denied = true
identity_rejected canceled = false
identity_rejected broken = false

-- `none` is io.EOF.
unfoldable pub receive_error : Option Failure → Failure
receive_error none = broken
receive_error (some f) = f

-- What the select finds after the channel of messages was closed.
pub data Closing : Type 0 where
  reports : Option Failure → Closing
  context_done : Failure → Closing
  silent : Closing

unfoldable pub closing_error : Closing → Failure
unfolding receive_error
closing_error (reports o) = receive_error o
closing_error (context_done f) = f
closing_error silent = broken

-- What wakes the loop; the last argument of a heartbeat and of a message is the error of the Send
-- that follows.
pub data Waking : Type 0 where
  context_ends : Failure → Waking
  heartbeats : Option Failure → Waking
  receive_fails : Option Failure → Waking
  closes : Closing → Waking
  receives : HostMessage → Option Failure → Waking

module _ ⦃p : Platform⦄ ⦃c : StateCodec⦄ where
  open p use {Db}

  -- The error of the loop, if it has ended, and the statuses that were sent.
  pub record Course : Type 0 where
    pub failure : Option Failure
    pub sent : List InstanceStatus
    pub db : Db

  abbrev pub fails_with : Failure → Db → Course
  fails_with f d = record { failure = some f; sent = []; db = d }

  -- sendStatus, and the rest of the loop after it.
  unfoldable pub send_status : Result InstanceStatus → Option Failure → Db → Course → Course
  send_status (err _) failure d rest = fails_with broken d
  send_status (ok s) (some f) d rest = fails_with f d
  send_status (ok s) none d rest = record rest { sent = s ∷ rest.sent }

  unfoldable pub after_message : Outcome → Option Failure → Db → Course → Course
  unfolding send_status
  after_message (answers s) failure d rest = send_status (ok s) failure d rest
  after_message ignores failure d rest = rest
  after_message identity_mismatch failure d rest = fails_with broken d
  after_message (ends _) failure d rest = fails_with broken d

  unfoldable pub converse : ℕ → Text → List Waking → Db → Course
  unfolding status_of receive send_status after_message receive_error closing_error
  converse now id [] d = record { failure = none; sent = []; db = d }
  converse now id (k ∷ ks) d = elim k [
    | context_ends f ↦ fails_with f d
    | heartbeats failure ↦
        let rest = converse now id ks d in send_status (status_of now id d) failure d rest
    | receive_fails o ↦ fails_with (receive_error o) d
    | closes how ↦ fails_with (closing_error how) d
    | receives m failure ↦
        let q = receive now id m d in
        let rest = converse now id ks q.1 in after_message q.0 failure q.1 rest
  ]

-- An attempt of Run: the error of connect, and whether the context ends in the wait after it.
pub record Attempt : Type 0 where
  pub failure : Option Failure
  pub is_cancelled : Bool

-- How Run stands: ErrIdentityRejected, the error of the context, or before the next attempt.
pub data Standing : Type 0 where
  rejected context_ended retrying : Standing

-- Whether Run goes on to a wait after an attempt.
unfoldable pub verdict : Option Failure → Standing
unfolding identity_rejected
verdict none = retrying
verdict (some f) =
    if identity_rejected f then rejected else elim f [ canceled ↦ context_ended | other ↦ retrying ]

pub record Retrying : Type 0 where
  pub standing : Standing
  pub waits : List ℕ

-- The waits, in seconds, from one on.
unfoldable pub run_from : ℕ → List Attempt → Retrying
unfolding verdict next_backoff
run_from backoff [] = record { standing = retrying; waits = [] }
run_from backoff (a ∷ as') =
    let rest = run_from (next_backoff backoff) as' in
    elim (verdict a.failure) [
      | rejected ↦ record { standing = rejected; waits = [] }
      | context_ended ↦ record { standing = context_ended; waits = [] }
      | retrying ↦
          if a.is_cancelled
          then record { standing = context_ended; waits = [] }
          else record rest { waits = backoff ∷ rest.waits }
    ]

unfoldable pub run : List Attempt → Retrying
unfolding run_from
run as' = run_from 1 as'
