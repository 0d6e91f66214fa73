-- ===== src/Api/Access.antt =====
-- internal/api/api.go: the setup of the operator, the login and the sessions. A request is `none`
-- where decodeJSON refuses it; a handler reads the clock, in nanoseconds, once.
pub mod Attempts
use ulcer.Prelude.{
  ℕ, ◌/◌, Bool, true, false, Text, text, Option, none, some, List, [], not, if◌then◌else◌,
}
use ulcer.Result.{Result, Error, ok, err, invalid_code, already_configured}
use ulcer.Model.{Event}
use ulcer.Platform.{Platform}
use ulcer.Store.Operator.{operator_ready}
use ulcer.Store.Sessions.{session_valid, delete_session}
use ulcer.Events.{Bus, publish}
use ulcer.Auth.{Service, check_setup_token, begin_setup, complete_setup, login}
use ulcer.Api.Limiter.{LoginLimiter, allowed, failed, succeeded, second}
use ulcer.Api.Response.{Response, replies, refuses, malformed}

pub record Access ⦃p : Platform⦄ : Type 0 where
  pub db : p.Db
  pub bus : Bus
  pub service : Service
  pub limiter : LoginLimiter

abbrev setup_event : Event
setup_event = record {
  id = 0;
  type_name = text "operator.configured";
  resource_id = [];
  at = none;
  details = [];
}

module _ ⦃p : Platform⦄ (totp : Text → ℕ → Result Text) where
  open p use {Db}

  abbrev rate_limited : {Body : Type 0} → Response Body
  rate_limited = refuses 429 (text "rate_limited")

  abbrev count_failure : ℕ → Access → Access
  count_failure at a = record a { limiter = failed at a.limiter }

  abbrev count_success : Access → Access
  count_success a = record a { limiter = succeeded a.limiter }

  unfoldable pub after_login : ℕ → Access → Result Text → Response Text × Access
  unfolding failed succeeded
  after_login at a (ok session) = (replies 200 session, count_success a)
  after_login at a (err invalid_code) = (refuses 401 (text "invalid_code"), count_failure at a)
  after_login at a (err _) = (refuses 500 (text "auth_failed"), a)

  -- `token` is the random value of a new session.
  unfoldable pub login_request : ℕ → Option Text → Result Text → Access → Response Text × Access
  unfolding after_login allowed login
  login_request at request token a =
      if allowed at a.limiter
      then elim request [
        | none ↦ (malformed, a)
        | some code ↦
            let (r, d) = login totp (at / second) code token a.db in
            after_login at (record a { db = d }) r
      ]
      else (rate_limited, a)

  -- The checks that both requests of the setup begin with.
  unfoldable pub setup_refusal : ℕ → Option Text → Access → Option (Response Text × Access)
  unfolding allowed operator_ready check_setup_token failed
  setup_refusal at token a =
      if allowed at a.limiter
      then elim (operator_ready (at / second) a.db) [
        | err _ ↦ some (refuses 500 (text "store_error"), a)
        | ok true ↦ some (refuses 409 (text "already_configured"), a)
        | ok false ↦ elim token [
          | none ↦ some (malformed, a)
          | some t ↦
              if check_setup_token t a.service
              then none
              else some (refuses 401 (text "invalid_setup_token"), count_failure at a)
        ]
      ]
      else some (rate_limited, a)

  unfoldable pub after_begin : Access → Result (Text × Text) → Response Text × Access
  unfolding succeeded
  after_begin a (err _) = (refuses 500 (text "setup_failed"), a)
  after_begin a (ok (secret, uri)) = (replies 200 secret, count_success a)

  -- `generated` is the key of totp.Generate.
  unfoldable pub bootstrap_start :
      ℕ → Option Text → Result (Text × Text) → Access → Response Text × Access
  unfolding setup_refusal begin_setup after_begin
  bootstrap_start at token generated a = elim (setup_refusal at token a) [
    | some refused ↦ refused
    | none ↦ let (r, d) = begin_setup totp generated a.db in after_begin (record a { db = d }) r
  ]

  unfoldable pub announce_setup : ℕ → Access → Access
  unfolding publish
  announce_setup at a =
      let (_, d, b) = publish (at / second) setup_event a.db a.bus in record a { db = d; bus = b }

  unfoldable pub after_complete : ℕ → Access → Result (List Text × Text) → Response Text × Access
  unfolding announce_setup failed succeeded
  after_complete at a (ok (codes, session)) =
      (replies 201 session, announce_setup at (count_success a))
  after_complete at a (err already_configured) = (refuses 409 (text "already_configured"), a)
  after_complete at a (err invalid_code) = (refuses 401 (text "invalid_totp"), count_failure at a)
  after_complete at a (err _) = (refuses 500 (text "setup_failed"), a)

  unfoldable pub bootstrap_complete :
      ℕ → Option Text → Text → (ℕ → Result Text) → Access → Response Text × Access
  unfolding setup_refusal complete_setup after_complete
  bootstrap_complete at token code random a = elim (setup_refusal at token a) [
    | some refused ↦ refused
    | none ↦
        let (r, service, d) = complete_setup totp (at / second) code random a.service a.db in
        after_complete at (record a { db = d; service = service }) r
  ]

module _ ⦃p : Platform⦄ where
  open p use {Db}

  -- The cookie of the request, if it has one.
  unfoldable pub authenticated : ℕ → Option Text → Access → Bool
  unfolding session_valid
  authenticated at none a = false
  authenticated at (some cookie) a = elim (session_valid (at / second) cookie a.db) [
    | err _ ↦ false
    | ok valid ↦ valid
  ]

  unfoldable pub require_auth :
      {Body State : Type 0} → Bool → (State → Response Body × State) → State → Response Body × State
  require_auth true next s = next s
  require_auth false next s = (refuses 401 (text "unauthorized"), s)

  -- The response is 204 with a cookie that is over.
  unfoldable pub logout : Option Text → Access → Access
  unfolding delete_session
  logout none a = a
  logout (some cookie) a = record a { db = (delete_session cookie a.db).1 }
