-- ===== src/Store/Txn.antt =====
-- Transactions of badger, as internal/store/store.go and internal/instance/state.go run them. A
-- transaction reads and writes a copy of the database: Update commits the copy of a transaction
-- that returns nil and drops that of one that returns an error. Transactions are serializable, so
-- they are modelled one after another; a conflict is a refused commit, after which the database is
-- the one that another transaction has left.
pub mod Steps
use ulcer.Prelude.{ℕ, ◌+◌, Bytes, Text, Option, none, some, ltb, if◌then◌else◌}
use ulcer.Result.{Result, Error, ok, err, platform, conflict, invalid_uint64}
use ulcer.Platform.{Platform, Entry, reads, writes, erases, Refusal, conflicts, fails}
use ulcer.Store.Words.{put_uint64, uint64}

-- An entry counts until the second at which it expires.
unfoldable pub live_until : ℕ → Bytes → Option ℕ → Option Bytes
live_until now value none = some value
live_until now value (some at_second) = if ltb now at_second then some value else none

unfoldable pub live : ℕ → Option Entry → Option Bytes
unfolding live_until
live now none = none
live now (some e) = live_until now e.value e.expires_at

module _ ⦃p : Platform⦄ where
  open p use {Db, entry, write, erase, fault, refusal, later}

  abbrev pub Txn {ℓ} : Type ℓ → Type ℓ
  Txn A = Db → Result (A × Db)

  infixl 5 ◌>>=◌ ◌>>◌
  abbrev pub ◌>>=◌ {ℓ κ} : {A : Type ℓ} {B : Type κ} → Txn A → (A → Txn B) → Txn B
  ◌>>=◌ m f d = elim (m d) [ err e ↦ err e | ok (a, d') ↦ f a d' ]

  abbrev pub ◌>>◌ {ℓ κ} : {A : Type ℓ} {B : Type κ} → Txn A → Txn B → Txn B
  m >> k = m >>= λ _. k

  abbrev pub pure {ℓ} : {A : Type ℓ} → A → Txn A
  pure a d = ok (a, d)

  abbrev pub raise {ℓ} : {A : Type ℓ} → Error → Txn A
  raise e d = err e

  abbrev pub lift {ℓ} : {A : Type ℓ} → Result A → Txn A
  lift (ok a) d = ok (a, d)
  lift (err e) d = err e

  -- `none` where the code tests for badger.ErrKeyNotFound.
  unfoldable pub get : ℕ → Text → Txn (Option Bytes)
  get now k d = elim (fault d (reads k)) [
    | some e ↦ err (platform e)
    | none ↦ ok (live now (entry d k), d)
  ]

  unfoldable pub set_entry : Text → Entry → Txn (Unit {0})
  set_entry k e d = elim (fault d (writes k)) [
    | some f ↦ err (platform f)
    | none ↦ ok (tt, write k e d)
  ]

  unfoldable pub set : Text → Bytes → Txn (Unit {0})
  unfolding set_entry
  set k v = set_entry k (record { value = v; expires_at = none })

  unfoldable pub delete : Text → Txn (Unit {0})
  delete k d = elim (fault d (erases k)) [ some f ↦ err (platform f) | none ↦ ok (tt, erase k d) ]

  -- NewEntry(k, v).WithTTL(ttl)
  unfoldable pub set_with_ttl : ℕ → Text → Bytes → ℕ → Txn (Unit {0})
  unfolding set_entry
  set_with_ttl now k v ttl = set_entry k (record { value = v; expires_at = some (now + ttl) })

  unfoldable pub finish {ℓ} : {A : Type ℓ} → A → Db → Db → Option Refusal → Result A × Db
  finish a d w none = (ok a, w)
  finish a d w (some conflicts) = (err conflict, later d)
  finish a d w (some (fails e)) = (err (platform e), d)

  unfoldable pub update {ℓ} : {A : Type ℓ} → Txn A → Db → Result A × Db
  unfolding finish
  update m d = elim (m d) [ err e ↦ (err e, d) | ok (a, w) ↦ finish a d w (refusal d w) ]

  unfoldable pub view {ℓ} : {A : Type ℓ} → Txn A → Db → Result A
  view m d = elim (m d) [ err e ↦ err e | ok (a, _) ↦ ok a ]

  unfoldable pub decode_uint64 : Option ℕ → Txn ℕ
  decode_uint64 none = raise invalid_uint64
  decode_uint64 (some v) = pure v

  unfoldable pub get_uint64 : ℕ → Text → Txn ℕ
  unfolding get decode_uint64
  get_uint64 now k = do
    item ← get now k
    elim item [ none ↦ pure 0 | some v ↦ decode_uint64 (uint64 v) ]

  unfoldable pub set_uint64 : Text → ℕ → Txn (Unit {0})
  unfolding set
  set_uint64 k v = set k (put_uint64 v)

  -- `value, _ = getUint64(…)`: an error is dropped and the value is 0.
  unfoldable pub or_zero : Txn ℕ → Txn ℕ
  or_zero m d = elim (m d) [ err _ ↦ ok (0, d) | ok (v, d') ↦ ok (v, d') ]
