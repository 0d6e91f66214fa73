-- ===== src/Api/Middleware/Hardening.antt =====
-- What every answer of the API carries, and what its access log holds.
use ulcer.Prelude.{
  ◌≡◌, refl, Bool, false, ◌||◌, Text, text, none, some, [], ◌∷◌, ◌==◌, any, any, All, Bool-cases,
  inl, inr,
}
use ulcer.Api.Middleware.{
  Headers, header, security_headers, one_line, log_entry, Handled, returned, panicked,
  recover_panic, access_log, handle,
}

-- A character that would end a line of the log.
abbrev pub has_line_end : Text → Bool
has_line_end s = any (λ c. c == 13 || c == 10) s

one_line_lem : (s : Text) → has_line_end (one_line s) ≡ false
unfolding one_line
one_line_lem [] = refl
one_line_lem (c ∷ s) = elim (Bool-cases (c == 13 || c == 10)) [
  | inl e ↦ rw e (one_line_lem s)
  | inr e ↦ rw e (rw e (one_line_lem s))
]

abbrev pub headers_of : {Body : Type 0} → Handled Body → Headers
headers_of (returned h r) = h
headers_of (panicked h r) = h

-- The headers that are the same for every answer.
abbrev pub IsHardened : Headers → Type 0
IsHardened h =
    (header (text "X-Frame-Options") h ≡ text "DENY")
    × (header (text "X-Content-Type-Options") h ≡ text "nosniff")
    × (header (text "Referrer-Policy") h ≡ text "no-referrer")
    × (header (text "Content-Security-Policy") h
        ≡ text "default-src 'none'; frame-ancestors 'none'")

security_headers-IsHardened : (path : Text) (h : Headers) → IsHardened (security_headers path h)
unfolding security_headers
security_headers-IsHardened path h = (refl, refl, refl, refl)

recover_panic-IsHardened :
    {Body : Type 0} (q : Handled Body) → IsHardened (headers_of q) → IsHardened (recover_panic q).0
unfolding recover_panic
recover_panic-IsHardened (returned h r) k = k
recover_panic-IsHardened (panicked h (some r)) k = k
recover_panic-IsHardened (panicked h none) k = k

access_log_lem :
    {Body : Type 0} (method path : Text) (q : Handled Body)
    → All
        (λ e. (has_line_end e.method ≡ false) × (has_line_end e.path ≡ false))
        (access_log method path q)
unfolding access_log log_entry
access_log_lem method path (returned h r) = ((one_line_lem method, one_line_lem path), tt)
access_log_lem method path (panicked h r) = tt

-- Every answer has the four security headers, that to a handler that panics too, as long as no
-- handler takes them away, and no entry of the access log has a character that would end its line.
pub handle-IsHardened :
    {Body State : Type 0} (next : Headers → State → Handled Body × State) (method path : Text)
    (s : State)
    → ((h : Headers) (s : State) → IsHardened h → IsHardened (headers_of (next h s).0))
    → IsHardened (handle next method path s).0.0
      × All
          (λ e. (has_line_end e.method ≡ false) × (has_line_end e.path ≡ false))
          (handle next method path s).1
unfolding handle
handle-IsHardened next method path s keeps =
    let q = (next (security_headers path []) s).0 in
    (
      recover_panic-IsHardened q
          (keeps (security_headers path []) s (security_headers-IsHardened path [])),
      access_log_lem method path q,
    )
