-- ===== src/Command.antt =====
-- cmd/ulcer-instance/main.go: the status with which the agent's process exits.
use ulcer.Prelude.{ℕ, ◌≡◌, ap, ◌∙◌, Bool, Text, Option, none, some, List, [], ◌∷◌, arith}
use ulcer.Platform.{Platform}
use ulcer.Config.{Instance, instance_from_env}
use ulcer.Agent.{StateCodec}
use ulcer.Agent.Loop.{Failure, Standing, rejected, context_ended, retrying, verdict, converse}
use ulcer.Agent.Session.{
  Credentials, TlsConfig, TlsResult, configured, refused, tls_config, Session, Conversation,
  Progress, greet, opening, after_opening, connect, after_verdict, after_connection, run_sessions,
}

-- The status after Run, if it has returned; the context ends by a signal, with context.Canceled.
abbrev pub status_after : Option Standing → Option ℕ
status_after (some rejected) = some 0
status_after (some context_ended) = some 0
status_after (some retrying) = none
status_after none = none

module _ ⦃p : Platform⦄ ⦃c : StateCodec⦄ ⦃files : Credentials⦄ where
  open p use {Db}

  abbrev pub run_status : ℕ → Instance → Text → List Session → Db → TlsResult → Option ℕ
  run_status now config version ss d (refused e) = some 1
  run_status now config version ss d (configured settings) =
      status_after (run_sessions now config version 1 ss d).standing

  abbrev pub configured_status : ℕ → Text → Option Db → List Session → Option Instance → Option ℕ
  configured_status now version opened ss none = some 2
  configured_status now version none ss (some config) = some 1
  configured_status now version (some d) ss (some config) =
      run_status now config version ss d (tls_config config)

  -- `opened` is the database in memory, `none` an error of New; the result is `none` while the
  -- process runs.
  unfoldable pub exit_status :
      ℕ → (Text → Text → Text) → (Text → Text) → Text → Option Db → List Session → Option ℕ
  unfolding instance_from_env tls_config run_sessions
  exit_status now join_path getenv version opened ss =
      configured_status now version opened ss (instance_from_env join_path getenv)

  after_connection-rejected :
      (o : Option Failure) (is_cancelled : Bool) (backoff : ℕ) (q : Conversation) (rest : Progress)
      (f : Failure)
      → o ≡ some f
      → verdict (some f) ≡ rejected
      → (after_connection o is_cancelled backoff q rest).standing ≡ some rejected
  unfolding after_connection
  after_connection-rejected none is_cancelled backoff q rest f e r = absurd (ground arith)
  after_connection-rejected (some g) is_cancelled backoff q rest f e r =
      ap (λ v. (after_verdict v is_cancelled backoff q rest).standing) (ap verdict e ∙ r)

  rejected_lem :
      (now : ℕ) (config : Instance) (version : Text) (s : Session) (ss : List Session) (d : Db)
      (f : Failure)
      → opening s.dial s.stream s.greeting ≡ some f
      → verdict (some f) ≡ rejected
      → (run_sessions now config version 1 (s ∷ ss) d).standing ≡ some rejected
  unfolding run_sessions connect
  rejected_lem now config version s ss d f k r =
      after_connection-rejected _ s.is_cancelled 1 _ _ f
        (ap
          (λ o.
            (after_opening o
              (record {
                hellos = greet config version ∷ [];
                course = converse now config.id s.wakings d;
              })
              d).course.failure)
          k)
        r

  -- An agent that the host turns away when its stream opens exits with status 0, whatever would follow,
  -- so that a service with Restart=on-failure leaves it stopped.
  exit_status-rejected :
      (now : ℕ) (join_path : Text → Text → Text) (getenv : Text → Text) (version : Text) (d : Db)
      → (config : Instance) (settings : TlsConfig) (s : Session) (ss : List Session) (f : Failure)
      → instance_from_env join_path getenv ≡ some config
      → tls_config config ≡ configured settings
      → opening s.dial s.stream s.greeting ≡ some f
      → verdict (some f) ≡ rejected
      → exit_status now join_path getenv version (some d) (s ∷ ss) ≡ some 0
  unfolding exit_status
  exit_status-rejected now join_path getenv version d config settings s ss f h g k r =
      ap (configured_status now version (some d) (s ∷ ss)) h
      ∙ ap (run_status now config version (s ∷ ss) d) g
      ∙ ap status_after (rejected_lem now config version s ss d f k r)
