-- ===== src/Api/Response.antt =====
-- internal/api/api.go: what a handler writes. The message of an error is left out.
use ulcer.Prelude.{ℕ, Text, text}

pub data Response (Body : Type 0) : Type 0 where
  -- writeJSON, or a status without a body
  replies : ℕ → Body → Response Body
  -- writeError
  refuses : ℕ → Text → Response Body

abbrev pub status_of : {Body : Type 0} → Response Body → ℕ
status_of (replies status body) = status
status_of (refuses status code) = status

-- The response of decodeJSON to a request that is not the JSON that it expects.
abbrev pub malformed : {Body : Type 0} → Response Body
malformed = refuses 400 (text "invalid_json")
