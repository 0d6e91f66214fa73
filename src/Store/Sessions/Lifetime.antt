-- ===== src/Store/Sessions/Lifetime.antt =====
-- A session is valid from its creation until its time is over or it is deleted.
use ulcer.Prelude.{
  ℕ, ◌+◌, ◌≡◌, refl, ◌≢◌, true, Text, none, some, [], ◌∷◌, arith, text_eq_refl, ltb,
}
use ulcer.Result.{ok}
use ulcer.Platform.{Platform, reads}
use ulcer.Store.Keys.{session_key}
use ulcer.Store.Txn.{live}
use ulcer.Store.Operator.{mark}
use ulcer.Store.Sessions.{create_session, session_valid, delete_session}

module _ ⦃p : Platform⦄ where
  open p use {Db, entry, write, erase, fault, entry-write, entry-erase}

  pub create-writes :
      (now ttl : ℕ) (token : Text) (d d' : Db)
      → create_session now token ttl d ≡ (ok tt, d')
      → d' ≡ write (session_key token) (record { value = mark; expires_at = some (now + ttl) }) d
  unfolding create_session
  create-writes now ttl token d d' h = ground arith

  -- A session that was created for a token that is not empty is valid exactly until its time to live
  -- has passed, if its entry can be read.
  pub session_valid-create_session :
      (now later ttl : ℕ) (token : Text) (d d' : Db)
      → token ≢ []
      → create_session now token ttl d ≡ (ok tt, d')
      → fault d' (reads (session_key token)) ≡ none
      → session_valid later token d' ≡ ok (ltb later (now + ttl))
  unfolding session_valid live
  session_valid-create_session now later ttl [] d d' ne h f = absurd (ne refl)
  session_valid-create_session now later ttl (c ∷ s) d d' ne h f =
      let e = create-writes now ttl (c ∷ s) d d' h in
      let k = session_key (c ∷ s) in
      ground (
        arith,
        entry-write d k k (record { value = mark; expires_at = some (now + ttl) }),
        text_eq_refl k,
      )

  delete-erases :
      (token : Text) (d d' : Db)
      → delete_session token d ≡ (ok tt, d')
      → d' ≡ erase (session_key token) d
  unfolding delete_session
  delete-erases token d d' h = ground arith

  -- A session that was deleted is not valid at any later time.
  pub session_valid-delete_session :
      (later : ℕ) (token : Text) (d d' : Db)
      → delete_session token d ≡ (ok tt, d')
      → session_valid later token d' ≢ ok true
  unfolding session_valid live
  session_valid-delete_session later [] d d' h v = ground arith
  session_valid-delete_session later (c ∷ s) d d' h v =
      let e = delete-erases (c ∷ s) d d' h in
      let k = session_key (c ∷ s) in ground (arith, entry-erase d k k, text_eq_refl k)
