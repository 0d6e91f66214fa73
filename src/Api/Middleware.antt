-- ===== src/Api/Middleware.antt =====
-- internal/api/api.go: the handlers around the mux, the session cookie and the frames of the event
-- stream.
pub mod Hardening
use ulcer.Prelude.{
  ℕ, ◌*◌, ◌/◌, ◌≡◌, refl, ◌∙◌, Bool, true, false, ◌&&◌, ◌||◌, not, Text, Bytes, text, Option, none,
  some, List, [], ◌∷◌, ◌++◌, ◌==◌, has_prefix, text_eq, text_eq_refl, if◌then◌else◌, all, arith,
  ltb, Bool-cases, inl, inr,
}
use ulcer.Api.Response.{Response, refuses}
use ulcer.Auth.{session_ttl}

abbrev pub Headers : Type 0
Headers = List (Text × Text)

-- Header.Get, where the names are already in their canonical form.
abbrev pub header : Text → Headers → Text
header name [] = []
header name ((n, v) ∷ rest) = if text_eq n name then v else header name rest

-- Header.Set; what stood under the name is no longer read.
abbrev pub set_header : Text → Text → Headers → Headers
set_header name value h = (name, value) ∷ h

abbrev pub common_headers : Headers → Headers
common_headers h = set_header (text "X-Frame-Options") (text "DENY") (
    set_header (text "X-Content-Type-Options") (text "nosniff") (
      set_header (text "Referrer-Policy") (text "no-referrer") (
        set_header (text "Content-Security-Policy")
          (text "default-src 'none'; frame-ancestors 'none'") h)))

unfoldable pub security_headers : Text → Headers → Headers
security_headers path h = common_headers (
    if has_prefix path (text "/api/")
    then set_header (text "Cache-Control") (text "no-store") h
    else h)

-- strings.NewReplacer of a carriage return and of a line feed by nothing.
unfoldable pub one_line : Text → Text
one_line [] = []
one_line (c ∷ s) = let rest = one_line s in if c == 13 || c == 10 then rest else c ∷ rest

pub record LogEntry : Type 0 where
  pub method : Text
  pub path : Text

unfoldable pub log_entry : Text → Text → LogEntry
unfolding one_line
log_entry method path = record { method = one_line method; path = one_line path }

-- How a handler ends: with what it has written, or in a panic, after a response or before one.
pub data Handled (Body : Type 0) : Type 0 where
  returned : Headers → Response Body → Handled Body
  panicked : Headers → Option (Response Body) → Handled Body

module _ {Body : Type 0} where
  -- A response that has begun keeps its status.
  unfoldable pub recover_panic : Handled Body → Headers × Response Body
  recover_panic (returned h r) = (h, r)
  recover_panic (panicked h (some r)) = (h, r)
  recover_panic (panicked h none) = (
    set_header (text "Content-Type") (text "application/json") h,
    refuses 500 (text "internal_error"),
  )

  -- Nothing is logged of a handler that panics.
  unfoldable pub access_log : Text → Text → Handled Body → List LogEntry
  unfolding log_entry
  access_log method path (returned _ _) = log_entry method path ∷ []
  access_log method path (panicked _ _) = []

-- The handlers around the mux, `next`, with what the access log gets.
unfoldable pub handle :
    {Body State : Type 0}
    → (Headers → State → Handled Body × State)
    → Text
    → Text
    → State
    → (Headers × Response Body) × List LogEntry × State
unfolding security_headers recover_panic access_log
handle next method path s =
    let (handled, s') = next (security_headers path []) s in
    (recover_panic handled, access_log method path handled, s')

pub record Cookie : Type 0 where
  pub value : Text
  pub path : Text
  pub max_age : ℕ
  pub is_http_only : Bool
  pub is_strict : Bool
  pub is_secure : Bool

-- `equal_fold` is strings.EqualFold, and `proto` the header X-Forwarded-Proto.
unfoldable pub request_is_secure : (Text → Text → Bool) → Bool → Text → Bool
request_is_secure equal_fold has_tls proto = has_tls || equal_fold proto (text "https")

unfoldable pub session_cookie : (Text → Text → Bool) → Bool → Text → Text → Cookie
unfolding request_is_secure
session_cookie equal_fold has_tls proto token = record {
  value = token;
  path = text "/";
  max_age = session_ttl;
  is_http_only = true;
  is_strict = true;
  is_secure = request_is_secure equal_fold has_tls proto;
}
