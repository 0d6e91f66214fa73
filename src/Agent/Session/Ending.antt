-- ===== src/Agent/Session/Ending.antt =====
-- How Run ends, over its connections: the waits and the end are those of Run over their errors.
use ulcer.Prelude.{
  ℕ, ◌≡◌, refl, ap, ◌≢◌, Bool, true, false, Text, Option, none, some, List, [], ◌∷◌, All,
  if◌then◌else◌,
}
use ulcer.Platform.{Platform}
use ulcer.Config.{Instance}
use ulcer.Agent.{StateCodec, next_backoff}
use ulcer.Agent.Loop.{
  Failure, Attempt, Standing, rejected, context_ended, retrying, verdict, Retrying, run_from,
}
use ulcer.Agent.Session.{
  Session, Conversation, Progress, connect, after_verdict, after_connection, run_sessions,
}

module _ ⦃p : Platform⦄ ⦃c : StateCodec⦄ where
  open p use {Db}

  -- The errors of the connections, each with the state that the one before it has left.
  unfoldable pub attempts : ℕ → Instance → Text → List Session → Db → List Attempt
  attempts now config version [] d = []
  attempts now config version (s ∷ ss) d =
      let q = connect now config version s d in
      record { failure = q.course.failure; is_cancelled = s.is_cancelled }
      ∷ attempts now config version ss q.course.db

  abbrev Agrees : Progress → Retrying → Type 0
  Agrees r k = (r.standing ≡ some k.standing) × (r.waits ≡ k.waits)

  -- One connection of either run.
  abbrev step : Standing → Bool → ℕ → Retrying → Retrying
  step v is_cancelled backoff rest = elim v [
    | rejected ↦ record { standing = rejected; waits = [] }
    | context_ended ↦ record { standing = context_ended; waits = [] }
    | retrying ↦
        if is_cancelled
        then record { standing = context_ended; waits = [] }
        else record rest { waits = backoff ∷ rest.waits }
  ]

  after_verdict-Agrees :
      (v : Standing) (is_cancelled : Bool) (backoff : ℕ) (q : Conversation) (rest : Progress)
      (k : Retrying)
      → Agrees rest k
      → Agrees (after_verdict v is_cancelled backoff q rest) (step v is_cancelled backoff k)
  after_verdict-Agrees rejected is_cancelled backoff q rest k h = (refl, refl)
  after_verdict-Agrees context_ended is_cancelled backoff q rest k h = (refl, refl)
  after_verdict-Agrees retrying true backoff q rest k h = (refl, refl)
  after_verdict-Agrees retrying false backoff q rest k (h, g) = (h, ap (λ w. backoff ∷ w) g)

  after_connection-Agrees :
      (failure : Option Failure) (is_cancelled : Bool) (backoff : ℕ) (q : Conversation)
      (rest : Progress) (as' : List Attempt)
      → failure ≢ none
      → Agrees rest (run_from (next_backoff backoff) as')
      → Agrees
          (after_connection failure is_cancelled backoff q rest)
          (run_from backoff (record { failure = failure; is_cancelled = is_cancelled } ∷ as'))
  unfolding after_connection run_from
  after_connection-Agrees none is_cancelled backoff q rest as' ended h = absurd (ended refl)
  after_connection-Agrees (some f) is_cancelled backoff q rest as' ended h =
      after_verdict-Agrees (verdict (some f)) is_cancelled backoff q rest
        (run_from (next_backoff backoff) as') h

  -- When every connection of a run ends, the run stands as Run over their errors does, after the same
  -- waits.
  pub run_sessions-run_from :
      (now : ℕ) (config : Instance) (version : Text) (backoff : ℕ) (ss : List Session) (d : Db)
      → All (λ a. a.failure ≢ none) (attempts now config version ss d)
      → let r = run_sessions now config version backoff ss d in
        let k = run_from backoff (attempts now config version ss d) in
        (r.standing ≡ some k.standing) × (r.waits ≡ k.waits)
  unfolding run_sessions attempts run_from
  run_sessions-run_from now config version backoff [] d h = (refl, refl)
  run_sessions-run_from now config version backoff (s ∷ ss) d (ended, h) =
      let q = connect now config version s d in
      after_connection-Agrees q.course.failure s.is_cancelled backoff q
        (run_sessions now config version (next_backoff backoff) ss q.course.db)
        (attempts now config version ss q.course.db) ended
        (run_sessions-run_from now config version (next_backoff backoff) ss q.course.db h)
