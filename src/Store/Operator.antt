-- ===== src/Store/Operator.antt =====
-- The operator's credentials in internal/store/store.go: the setup, the TOTP secret and step, and
-- the recovery codes.
pub mod Setup
pub mod SingleUse
use ulcer.Prelude.{
  ℕ, Bool, true, false, Text, Bytes, Option, none, some, List, [], ◌∷◌, leb, if◌then◌else◌,
  trim_space, to_upper,
}
use ulcer.Result.{Result, not_found, already_configured, invalid_step}
use ulcer.Platform.{Platform}
use ulcer.Store.Words.{uint64}
use ulcer.Store.Keys.{
  operator_ready_key, pending_totp_key, totp_secret_key, totp_step_key, recovery_key, session_key,
}
use ulcer.Store.Txn.{
  Txn, ◌>>=◌, ◌>>◌, pure, raise, get, set, set_uint64, set_with_ttl, delete, update, view,
}

-- []byte{1}
abbrev pub mark : Bytes
mark = 1 ∷ []

module _ ⦃p : Platform⦄ where
  open p use {Db, sha256_hex}

  abbrev pub is_some : Option Bytes → Bool
  is_some none = false
  is_some (some _) = true

  unfoldable pub operator_ready : ℕ → Db → Result Bool
  unfolding view get
  operator_ready now = view (do item ← get now operator_ready_key; pure (is_some item))

  unfoldable pub get_string : ℕ → Text → Db → Result Text
  unfolding view get
  get_string now key =
      view do item ← get now key; elim item [ none ↦ raise not_found | some v ↦ pure v ]

  unfoldable pub pending_totp : ℕ → Db → Result Text
  unfolding get_string
  pending_totp now = get_string now pending_totp_key

  unfoldable pub totp_secret : ℕ → Db → Result Text
  unfolding get_string
  totp_secret now = get_string now totp_secret_key

  unfoldable pub set_recovery_hashes : List Text → Txn (Unit {0})
  set_recovery_hashes [] = pure tt
  set_recovery_hashes (h ∷ hs) = do set (recovery_key h) mark; set_recovery_hashes hs

  unfoldable pub enrol_operator : ℕ → Text → ℕ → List Text → Text → ℕ → Txn (Unit {0})
  enrol_operator now secret totp_step recovery_hashes session_token session_ttl = do
    set totp_secret_key secret
    set_uint64 totp_step_key totp_step
    set operator_ready_key mark
    delete pending_totp_key
    set_recovery_hashes recovery_hashes
    set_with_ttl now (session_key session_token) mark session_ttl

  unfoldable pub complete_operator :
      ℕ → Text → ℕ → List Text → Text → ℕ → Db → Result (Unit {0}) × Db
  unfolding update get
  complete_operator now secret totp_step recovery_hashes session_token session_ttl = update do
    ready ← get now operator_ready_key
    elim ready [
      | some _ ↦ raise already_configured
      | none ↦ enrol_operator now secret totp_step recovery_hashes session_token session_ttl
    ]

  unfoldable pub store_step : ℕ → Txn Bool
  unfolding set_uint64
  store_step step = do set_uint64 totp_step_key step; pure true

  unfoldable pub newer_step : ℕ → Option ℕ → Txn Bool
  unfolding store_step
  newer_step step none = raise invalid_step
  newer_step step (some previous) = if leb step previous then pure false else store_step step

  unfoldable pub consume_totp_step : ℕ → ℕ → Db → Result Bool × Db
  unfolding update get newer_step
  consume_totp_step now step = update do
    item ← get now totp_step_key
    elim item [ none ↦ store_step step | some v ↦ newer_step step (uint64 v) ]

  unfoldable pub set_pending_totp : Text → Db → Result (Unit {0}) × Db
  unfolding update delete set
  set_pending_totp secret = update (do delete totp_step_key; set pending_totp_key secret)

  unfoldable pub code_key : Text → Text
  code_key code = recovery_key (sha256_hex (to_upper (trim_space code)))

  unfoldable pub consume_recovery_code : ℕ → Text → Db → Result Bool × Db
  unfolding update get delete
  consume_recovery_code now code = update do
    item ← get now (code_key code)
    elim item [ none ↦ pure false | some _ ↦ do delete (code_key code); pure true ]
