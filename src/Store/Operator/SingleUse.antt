-- ===== src/Store/Operator/SingleUse.antt =====
-- A TOTP step and a recovery code open one session each.
use ulcer.Prelude.{ℕ, ◌<◌, ◌≡◌, ◌≢◌, true, Text, none, some, ◌≤◌, arith, text_eq_refl}
use ulcer.Result.{ok}
use ulcer.Platform.{Platform}
use ulcer.Store.Words.{u64_mod, put_uint64, uint64-put_uint64}
use ulcer.Store.Keys.{totp_step_key}
use ulcer.Store.Txn.{live}
use ulcer.Store.Txn.Steps.{plain}
use ulcer.Store.Operator.{consume_totp_step, consume_recovery_code, code_key}

module _ ⦃p : Platform⦄ where
  open p use {Db, entry, write, erase, entry-write, entry-erase}

  pub step-stored :
      (now step : ℕ) (d d' : Db)
      → consume_totp_step now step d ≡ (ok true, d')
      → d' ≡ write totp_step_key (plain (put_uint64 step)) d
  unfolding consume_totp_step
  step-stored now step d d' h = ground arith

  -- A step that is not newer than the stored one is refused.
  pub consume_totp_step-stale :
      (now step stored : ℕ) (d d' : Db)
      → stored < u64_mod
      → entry d totp_step_key ≡ some (plain (put_uint64 stored))
      → step ≤ stored
      → consume_totp_step now step d ≢ (ok true, d')
  unfolding consume_totp_step live
  consume_totp_step-stale now step stored d d' b e le h = ground (arith, uint64-put_uint64 stored)

  -- Two steps that are accepted one directly after the other increase strictly, the first one below
  -- 2^64: no step, and no older one, is accepted twice.
  pub consume_totp_step-lt :
      (t1 t2 s1 s2 : ℕ) (d d' d'' : Db)
      → s1 < u64_mod
      → consume_totp_step t1 s1 d ≡ (ok true, d')
      → consume_totp_step t2 s2 d' ≡ (ok true, d'')
      → s1 < s2
  unfolding consume_totp_step live
  consume_totp_step-lt t1 t2 s1 s2 d d' d'' bound h k = ground (
    arith,
    step-stored t1 s1 d d',
    entry-write d totp_step_key totp_step_key (plain (put_uint64 s1)),
    uint64-put_uint64 s1,
  )

  pub code-erased :
      (now : ℕ) (code : Text) (d d' : Db)
      → consume_recovery_code now code d ≡ (ok true, d')
      → d' ≡ erase (code_key code) d
  unfolding consume_recovery_code
  code-erased now code d d' h = ground arith

  pub consume_recovery_code-gone :
      (now : ℕ) (code : Text) (d d' : Db)
      → entry d (code_key code) ≡ none
      → consume_recovery_code now code d ≢ (ok true, d')
  unfolding consume_recovery_code live
  consume_recovery_code-gone now code d d' e h = ground arith

  -- A recovery code that was accepted is not accepted by the next call, in whatever form it is given
  -- again.
  pub consume_recovery_code_once :
      (t1 t2 : ℕ) (code again : Text) (d d' d'' : Db)
      → code_key again ≡ code_key code
      → consume_recovery_code t1 code d ≡ (ok true, d')
      → consume_recovery_code t2 again d' ≢ (ok true, d'')
  unfolding consume_recovery_code live
  consume_recovery_code_once t1 t2 code again d d' d'' same h k =
      ground (arith, entry-erase d (code_key code) (code_key code), text_eq_refl (code_key code))
