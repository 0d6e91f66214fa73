-- ===== src/Auth.antt =====
-- internal/auth/auth.go: the operator's setup, TOTP and recovery-code logins and sessions. The
-- random values and the codes of the TOTP library are arguments; times are seconds after 1970.
pub mod Window
pub mod SetupToken
pub mod Login
use ulcer.Prelude.{
  ℕ, zero, suc, ◌+◌, ◌-◌, ◌*◌, ◌/◌, Bool, true, false, Text, text, Option, none, some, List, [],
  ◌∷◌, ◌++◌, ◌==◌, not, ◌&&◌, text_eq, trim_space, to_upper, if◌then◌else◌, map,
}
use ulcer.Result.{Result, Error, ok, err, invalid_code}
use ulcer.Platform.{Platform}
use ulcer.Store.Operator.{
  operator_ready, pending_totp, complete_operator, totp_secret, consume_totp_step, set_pending_totp,
  consume_recovery_code,
}
use ulcer.Store.Sessions.{create_session}

-- SessionTTL, 12 hours.
abbrev pub session_ttl : ℕ
session_ttl = 43_200

abbrev pub period : ℕ
period = 30

-- `setup_token_path` is empty for a token that the configuration gives.
pub record Service : Type 0 where
  pub setup_token : Text
  pub setup_token_path : Text

unfoldable pub check_setup_token : Text → Service → Bool
check_setup_token candidate s = not (text_eq s.setup_token []) && text_eq candidate s.setup_token

-- The offsets 0, 1 and -1; a negative step is passed over.
unfoldable pub steps_around : ℕ → List ℕ
steps_around zero = 0 ∷ 1 ∷ []
steps_around (suc c) = suc c ∷ (suc c + 1) ∷ c ∷ []

-- totp.GenerateCodeCustom at the start of each step, until one gives the code.
unfoldable pub first_match : (ℕ → Result Text) → Text → List ℕ → Option ℕ
first_match generate code [] = none
first_match generate code (step ∷ steps) = elim (generate (step * period)) [
  | err _ ↦ none
  | ok candidate ↦
      if text_eq candidate (trim_space code) then some step else first_match generate code steps
]

unfoldable pub match_totp_step : (Text → ℕ → Result Text) → Text → Text → ℕ → Option ℕ
unfolding first_match steps_around
match_totp_step totp secret code now = first_match (totp secret) code (steps_around (now / period))

unfoldable pub validate_totp : (Text → ℕ → Result Text) → Text → Text → ℕ → Bool
unfolding match_totp_step
validate_totp totp secret code now = elim (match_totp_step totp secret code now) [
  | none ↦ false
  | some _ ↦ true
]

-- One recovery code of two random parts.
unfoldable pub recovery_code : Text → Text → Text
recovery_code a b = to_upper (a ++ text "-" ++ b)

-- The loop of CompleteSetup, with the rounds that are left and the number of the next random value.
unfoldable pub recovery_codes : (ℕ → Result Text) → ℕ → ℕ → Result (List Text)
unfolding recovery_code
recovery_codes random zero k = ok []
recovery_codes random (suc n) k = elim (random k) [
  | err e ↦ err e
  | ok a ↦ elim (random (k + 1)) [
    | err e ↦ err e
    | ok b ↦ elim (recovery_codes random n (k + 2)) [
      | err e ↦ err e
      | ok codes ↦ ok (recovery_code a b ∷ codes)
    ]
  ]
]

-- What a method returns: its result, the service and the database.
module _ ⦃p : Platform⦄ (totp : Text → ℕ → Result Text) where
  open p use {Db, sha256_hex}

  -- New, once `setupToken` has given the token, its path and whether it was generated.
  unfoldable pub new_service : ℕ → Result (Text × Text × Bool) → Db → Result (Service × Bool)
  unfolding operator_ready
  new_service now token d = elim (operator_ready now d) [
    | err e ↦ err e
    | ok true ↦ ok (record { setup_token = []; setup_token_path = [] }, false)
    | ok false ↦ elim token [
      | err e ↦ err e
      | ok (t, path, generated) ↦
          ok (record { setup_token = t; setup_token_path = path }, generated)
    ]
  ]

  -- BeginSetup, with the key that totp.Generate returns: its secret and its address.
  unfoldable pub begin_setup : Result (Text × Text) → Db → Result (Text × Text) × Db
  unfolding set_pending_totp
  begin_setup (err e) d = (err e, d)
  begin_setup (ok (secret, uri)) d =
      let (r, d') = set_pending_totp secret d in
      elim r [ err e ↦ (err e, d') | ok _ ↦ (ok (secret, uri), d') ]

  unfoldable pub finish_setup :
      ℕ → Text → ℕ → List Text → Text → Service → Db → Result (List Text × Text) × Service × Db
  unfolding complete_operator
  finish_setup now secret step codes session s d =
      let (r, d') =
        complete_operator now secret step (map sha256_hex codes) session session_ttl d in
      elim r [
        | err e ↦ (err e, s, d')
        | ok _ ↦ (ok (codes, session), record { setup_token = []; setup_token_path = [] }, d')
      ]

  -- `random` numbers the values of crypto/rand: ten codes take twenty, the session the next one.
  unfoldable pub complete_setup :
      ℕ → Text → (ℕ → Result Text) → Service → Db → Result (List Text × Text) × Service × Db
  unfolding pending_totp finish_setup recovery_codes match_totp_step
  complete_setup now code random s d = elim (pending_totp now d) [
    | err e ↦ (err e, s, d)
    | ok secret ↦ elim (match_totp_step totp secret code now) [
      | none ↦ (err invalid_code, s, d)
      | some step ↦ elim (recovery_codes random 10 0) [
        | err e ↦ (err e, s, d)
        | ok codes ↦ elim (random 20) [
          | err e ↦ (err e, s, d)
          | ok session ↦ finish_setup now secret step codes session s d
        ]
      ]
    ]
  ]

  unfoldable pub new_session : ℕ → Result Text → Db → Result Text × Db
  unfolding create_session
  new_session now (err e) d = (err e, d)
  new_session now (ok token) d =
      let (r, d') = create_session now token session_ttl d in
      elim r [ err e ↦ (err e, d') | ok _ ↦ (ok token, d') ]

  unfoldable pub accept_step : ℕ → Option ℕ → Db → Result Bool × Db
  unfolding consume_totp_step
  accept_step now none d = (ok false, d)
  accept_step now (some step) d = consume_totp_step now step d

  unfoldable pub accept_recovery : ℕ → Text → Result Bool × Db → Result Bool × Db
  unfolding consume_recovery_code
  accept_recovery now code (err e, d) = (err e, d)
  accept_recovery now code (ok true, d) = (ok true, d)
  accept_recovery now code (ok false, d) = consume_recovery_code now code d

  unfoldable pub open_session : ℕ → Result Text → Result Bool × Db → Result Text × Db
  unfolding new_session
  open_session now token (err e, d) = (err e, d)
  open_session now token (ok false, d) = (err invalid_code, d)
  open_session now token (ok true, d) = new_session now token d

  unfoldable pub login : ℕ → Text → Result Text → Db → Result Text × Db
  unfolding totp_secret match_totp_step accept_step accept_recovery open_session
  login now code token d = elim (totp_secret now d) [
    | err e ↦ (err e, d)
    | ok secret ↦
        open_session now token
          (accept_recovery now code (accept_step now (match_totp_step totp secret code now) d))
  ]
