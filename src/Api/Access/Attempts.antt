-- ===== src/Api/Access/Attempts.antt =====
-- What an attempt to log in may do to the limiter and to the database.
use ulcer.Prelude.{◌↔◌, ℕ, ◌≡◌, true, false, Text, some, arith, ◌/◌}
use ulcer.Result.{Result, ok, err, invalid_code}
use ulcer.Platform.{Platform}
use ulcer.Api.Limiter.{allowed, failed, succeeded, second}
use ulcer.Api.Response.{replies, status_of}
use ulcer.Auth.{login}
use ulcer.Api.Access.{Access, login_request, after_login}

module _ ⦃p : Platform⦄ (totp : Text → ℕ → Result Text) where
  after_login_lem :
      (at : ℕ) (a : Access) (r : Result Text)
      → ((status_of (after_login totp at a r).0 ≡ 401) ↔ (r ≡ err invalid_code))
        × (r ≡ err invalid_code → (after_login totp at a r).1.limiter ≡ failed at a.limiter)
        × (status_of (after_login totp at a r).0 ≡ 500
            → (after_login totp at a r).1.limiter ≡ a.limiter)
  unfolding after_login
  after_login_lem at a (ok session) =
      ((λ h. ground arith, λ h. ground arith), λ h. ground arith, λ h. ground arith)
  after_login_lem at a (err e) =
      ((λ h. ground arith, λ h. ground arith), λ h. ground arith, λ h. ground arith)

  -- While the limiter holds attempts back, a login changes nothing and is answered 429. Otherwise it
  -- is answered 401 exactly if the login says that the code is not valid, and this counts as a
  -- failure; a session is answered 200 with it and forgets the failures; and a login that is
  -- answered 500 leaves the limiter as it was.
  pub login_request_lem :
      (at : ℕ) (code : Text) (token : Result Text) (a : Access)
      → (allowed at a.limiter ≡ false
          → (status_of (login_request totp at (some code) token a).0 ≡ 429)
            × ((login_request totp at (some code) token a).1 ≡ a))
        × (allowed at a.limiter ≡ true
            → ((status_of (login_request totp at (some code) token a).0 ≡ 401)
                ↔ ((login totp (at / second) code token a.db).0 ≡ err invalid_code))
              × ((login totp (at / second) code token a.db).0 ≡ err invalid_code
                  → (login_request totp at (some code) token a).1.limiter ≡ failed at a.limiter)
              × ((session : Text)
                  → (login totp (at / second) code token a.db).0 ≡ ok session
                  → ((login_request totp at (some code) token a).0 ≡ replies 200 session)
                    × ((login_request totp at (some code) token a).1.limiter ≡ succeeded a.limiter))
              × (status_of (login_request totp at (some code) token a).0 ≡ 500
                  → (login_request totp at (some code) token a).1.limiter ≡ a.limiter))
  unfolding login_request
  login_request_lem at code token a =
      let r = (login totp (at / second) code token a.db).0 in
      let a' = record a { db = (login totp (at / second) code token a.db).1 } in
      let (same, counted, kept) = after_login_lem at a' r in
      (
        λ h. ground arith,
        λ h. (
          (λ e. same.0 (ground arith), λ e. ground (arith, same.1 e)),
          λ e. ground (arith, counted e),
          λ session e. ground arith,
          λ e. ground (arith, kept),
        ),
      )
