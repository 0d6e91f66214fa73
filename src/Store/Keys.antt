-- ===== src/Store/Keys.antt =====
-- The keys of internal/store/store.go.
use ulcer.Prelude.{ℕ, zero, suc, ◌+◌, ◌/◌, ◌%◌, ◌^◌, Text, text, [], ◌∷◌, ◌++◌}
use ulcer.Platform.{Platform}

abbrev pub operator_ready_key : Text
operator_ready_key = text "auth/operator-ready"

abbrev pub pending_totp_key : Text
pending_totp_key = text "auth/pending-totp"

abbrev pub totp_secret_key : Text
totp_secret_key = text "auth/totp-secret"

abbrev pub totp_step_key : Text
totp_step_key = text "auth/totp-step"

abbrev pub usage_total_key : Text
usage_total_key = text "meter/usage/total"

abbrev pub event_sequence_key : Text
event_sequence_key = text "meta/events-sequence"

abbrev pub recovery_key : Text → Text
recovery_key hash = text "auth/recovery/" ++ hash

abbrev pub instance_prefix : Text
instance_prefix = text "instance/"

abbrev pub instance_key : Text → Text
instance_key id = instance_prefix ++ id

abbrev pub meter_ack_key : Text → Text
meter_ack_key id = text "meter/ack/" ++ id

abbrev pub event_prefix : Text
event_prefix = text "events/"

abbrev pub default_event_limit : ℕ
default_event_limit = 500

-- The last `width` decimal digits, zeros on the left: %0*d of a number that has no more.
unfoldable pub zero_padded : ℕ → ℕ → Text
zero_padded zero n = []
zero_padded (suc width) n = (b'0' + n / 10 ^ width % 10) ∷ zero_padded width n

unfoldable pub event_key : ℕ → Text
unfolding zero_padded
event_key sequence = event_prefix ++ zero_padded 20 sequence

module _ ⦃p : Platform⦄ where
  open p use {sha256_hex}

  unfoldable pub session_hash : Text → Text
  session_hash token = sha256_hex token

  abbrev pub session_key : Text → Text
  session_key token = text "auth/session/" ++ session_hash token
