-- ===== src/Store/Sessions.antt =====
-- The sessions of internal/store/store.go, kept under the hashes of their tokens.
pub mod Lifetime
use ulcer.Prelude.{ℕ, Bool, false, Text, [], ◌∷◌}
use ulcer.Result.{Result, ok}
use ulcer.Platform.{Platform}
use ulcer.Store.Keys.{session_key}
use ulcer.Store.Operator.{mark, is_some}
use ulcer.Store.Txn.{◌>>=◌, pure, get, set_with_ttl, delete, update, view}

module _ ⦃p : Platform⦄ where
  open p use {Db}

  unfoldable pub create_session : ℕ → Text → ℕ → Db → Result (Unit {0}) × Db
  unfolding update set_with_ttl
  create_session now token ttl = update (set_with_ttl now (session_key token) mark ttl)

  unfoldable pub session_valid : ℕ → Text → Db → Result Bool
  unfolding view get
  session_valid now [] d = ok false
  session_valid now (c ∷ s) d =
      view (do item ← get now (session_key (c ∷ s)); pure (is_some item)) d

  unfoldable pub delete_session : Text → Db → Result (Unit {0}) × Db
  unfolding update delete
  delete_session token = update (delete (session_key token))
