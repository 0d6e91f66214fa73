-- ===== src/Auth/Login.antt =====
-- What a login that succeeds has used up, and the session that it opens.
use ulcer.Prelude.{
  ℕ, ◌+◌, ◌<◌, ◌≤◌, ◌≡◌, refl, ◌≢◌, Bool, true, false, Text, Option, none, some, [], arith, ltb,
  text_eq_refl,
}
use ulcer.Result.{Result, ok, err}
use ulcer.Platform.{Platform, reads}
use ulcer.Store.Words.{u64_mod, put_uint64}
use ulcer.Store.Keys.{totp_step_key, session_key}
use ulcer.Store.Txn.Steps.{plain}
use ulcer.Store.Operator.{totp_secret, consume_totp_step, consume_recovery_code, code_key}
use ulcer.Store.Operator.SingleUse.{
  consume_totp_step-stale, step-stored, code-erased, consume_recovery_code-gone,
}
use ulcer.Store.Sessions.{create_session, session_valid}
use ulcer.Store.Sessions.Lifetime.{create-writes, session_valid-create_session}
use ulcer.Auth.{session_ttl, match_totp_step, accept_step, accept_recovery, open_session, login}

module _ ⦃p : Platform⦄ (totp : Text → ℕ → Result Text) where
  open p use {Db, entry, fault, entry-write, entry-erase}

  -- The factor that a login uses up: a TOTP step, or, where no step is accepted, a recovery code.
  -- Its consumption takes the database `d` to the one in which the session is created, and in the
  -- last one, `d'`, neither the step, if it is below 2^64, nor an older one, and no spelling of the
  -- code, is accepted at any time.
  pub data Factor (now : ℕ) (code token : Text) (d d' : Db) : Type 0 where
    by_step :
        (secret : Text) (step : ℕ) (d1 : Db)
        → totp_secret now d ≡ ok secret
        → match_totp_step totp secret code now ≡ some step
        → consume_totp_step now step d ≡ (ok true, d1)
        → create_session now token session_ttl d1 ≡ (ok tt, d')
        → ((at older : ℕ) (d'' : Db)
            → step < u64_mod
            → older ≤ step
            → consume_totp_step at older d' ≢ (ok true, d''))
        → Factor now code token d d'
    by_recovery :
        (secret : Text) (d0 d1 : Db)
        → totp_secret now d ≡ ok secret
        → accept_step totp now (match_totp_step totp secret code now) d ≡ (ok false, d0)
        → consume_recovery_code now code d0 ≡ (ok true, d1)
        → create_session now token session_ttl d1 ≡ (ok tt, d')
        → ((at : ℕ) (again : Text) (d'' : Db)
            → code_key again ≡ code_key code
            → consume_recovery_code at again d' ≢ (ok true, d''))
        → Factor now code token d d'

  step_used_up :
      (now step at older : ℕ) (token : Text) (d d1 d' d'' : Db)
      → consume_totp_step now step d ≡ (ok true, d1)
      → create_session now token session_ttl d1 ≡ (ok tt, d')
      → step < u64_mod
      → older ≤ step
      → consume_totp_step at older d' ≢ (ok true, d'')
  step_used_up now step at older token d d1 d' d'' h k b le =
      let written = create-writes now session_ttl token d1 d' k in
      let stored : entry d' totp_step_key ≡ some (plain (put_uint64 step)) =
        rw (written, step-stored now step d d1 h) (simp entry-write) in
      consume_totp_step-stale at older step d' d'' b stored le

  code_used_up :
      (now at : ℕ) (code again token : Text) (d d1 d' d'' : Db)
      → consume_recovery_code now code d ≡ (ok true, d1)
      → create_session now token session_ttl d1 ≡ (ok tt, d')
      → code_key again ≡ code_key code
      → consume_recovery_code at again d' ≢ (ok true, d'')
  unfolding code_key
  code_used_up now at code again token d d1 d' d'' h k same =
      let written = create-writes now session_ttl token d1 d' k in
      let gone : entry d' (code_key again) ≡ none =
        rw (same, written, code-erased now code d d1 h)
          (simp (entry-write, entry-erase, text_eq_refl)) in
      consume_recovery_code-gone at again d' d'' gone

  open_session-eq-ok :
      (now : ℕ) (token : Text) (r : Result Bool × Db) {t : Text} {d' : Db}
      → open_session totp now (ok token) r ≡ (ok t, d')
      → (d1 : Db) × (r ≡ (ok true, d1))
        × (create_session now token session_ttl d1 ≡ (ok tt, d'))
        × (t ≡ token)
  unfolding open_session
  open_session-eq-ok now token (err e, d) h = ground arith
  open_session-eq-ok now token (ok false, d) h = ground arith
  open_session-eq-ok now token (ok true, d) h = (d, refl, ground arith, ground arith)

  accept-Factor :
      (now : ℕ) (code secret token : Text) (d d1 d' : Db) (o : Option ℕ) (r : Result Bool × Db)
      → totp_secret now d ≡ ok secret
      → match_totp_step totp secret code now ≡ o
      → accept_step totp now o d ≡ r
      → accept_recovery totp now code r ≡ (ok true, d1)
      → create_session now token session_ttl d1 ≡ (ok tt, d')
      → Factor now code token d d'
  unfolding accept_step accept_recovery
  accept-Factor now code secret token d d1 d' o (err e, d0) s m a h k = ground arith
  accept-Factor now code secret token d d1 d' o (ok false, d0) s m a h k =
      by_recovery secret d0 d1 s (rw m a) h k
        (λ at again d'' same. code_used_up now at code again token d0 d1 d' d'' h k same)
  accept-Factor now code secret token d d1 d' none (ok true, d0) s m a h k = ground arith
  accept-Factor now code secret token d d1 d' (some step) (ok true, d0) s m a h k =
      let used : consume_totp_step now step d ≡ (ok true, d1) = ground arith in
      by_step secret step d1 s m used k
        (λ at older d'' b le. step_used_up now step at older token d d1 d' d'' used k b le)

  from_secret :
      (now later : ℕ) (code token t : Text) (d d' : Db)
      → token ≢ []
      → (s : Result Text) → totp_secret now d ≡ s
      → elim s [
        | err e ↦ (err e, d)
        | ok secret ↦ open_session totp now (ok token) (
            accept_recovery totp now code
              (accept_step totp now (match_totp_step totp secret code now) d))
      ]
        ≡ (ok t, d')
      → (t ≡ token)
        × Factor now code token d d'
        × (fault d' (reads (session_key token)) ≡ none
            → session_valid later token d' ≡ ok (ltb later (now + session_ttl)))
  from_secret now later code token t d d' ne (err e) s h = ground arith
  from_secret now later code token t d d' ne (ok secret) s h =
      let (d1, r, c, same) = open_session-eq-ok now token _ h in
      (
        same,
        accept-Factor now code secret token d d1 d' (match_totp_step totp secret code now) _ s refl
            refl r c,
        λ f. session_valid-create_session now later session_ttl token d1 d' ne c f,
      )

  -- A login that succeeds, with a random token that is not empty, returns this token and has used up
  -- a factor: the TOTP step that the code matches, or, where no step is accepted, the recovery code.
  -- The session is created in the database that the consumption leaves. In the one that the login
  -- returns no spelling of the recovery code is accepted at any time, nor the step, if it is below
  -- 2^64, nor an older one; and the session is valid for twelve hours, if its entry can be read.
  pub login-session :
      (now later : ℕ) (code token t : Text) (d d' : Db)
      → token ≢ []
      → login totp now code (ok token) d ≡ (ok t, d')
      → (t ≡ token)
        × Factor now code token d d'
        × (fault d' (reads (session_key token)) ≡ none
            → session_valid later token d' ≡ ok (ltb later (now + session_ttl)))
  unfolding login
  login-session now later code token t d d' ne h =
      from_secret now later code token t d d' ne (totp_secret now d) refl h
