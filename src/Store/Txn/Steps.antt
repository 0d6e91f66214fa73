-- ===== src/Store/Txn/Steps.antt =====
-- What a transaction that succeeds has done: inversion of the calls and of their sequence.
use ulcer.Prelude.{ℕ, ◌≡◌, refl, Bytes, Text, Option, none, arith, ◌⊎◌}
use ulcer.Result.{Result, Error, ok, err, conflict}
use ulcer.Platform.{Platform, Entry}
use ulcer.Store.Txn.{Txn, ◌>>=◌, lift, get, set, delete, update, live}

abbrev pub plain : Bytes → Entry
plain v = record { value = v; expires_at = none }

module _ ⦃p : Platform⦄ where
  open p use {Db, entry, write, erase, fault, entry-write, refusal}

  step-eq-ok {ℓ κ} :
      {A : Type ℓ} {B : Type κ} (x : Result (A × Db)) (f : A → Txn B) {r : B × Db}
      → elim x [ err e ↦ err e | ok (a, d') ↦ f a d' ] ≡ ok r
      → (a : A) × (d' : Db) × (x ≡ ok (a, d')) × (f a d' ≡ ok r)
  step-eq-ok (ok (a, d')) f h = (a, d', refl, h)
  step-eq-ok (err e) f h = ground arith

  pub >>=-eq-ok {ℓ κ} :
      {A : Type ℓ} {B : Type κ} (m : Txn A) (f : A → Txn B) (d : Db) {r : B × Db}
      → (m >>= f) d ≡ ok r
      → (a : A) × (d' : Db) × (m d ≡ ok (a, d')) × (f a d' ≡ ok r)
  >>=-eq-ok m f d h = step-eq-ok (m d) f h

  pub get-eq-ok :
      (now : ℕ) (k : Text) (d : Db) {v : Option Bytes} {d' : Db}
      → get now k d ≡ ok (v, d')
      → (v ≡ live now (entry d k)) × (d' ≡ d)
  unfolding get
  get-eq-ok now k d h = ground arith

  pub set-eq-ok :
      (k : Text) (v : Bytes) (d : Db) {x : Unit} {d' : Db}
      → set k v d ≡ ok (x, d')
      → d' ≡ write k (plain v) d
  unfolding set
  set-eq-ok k v d h = ground arith

  pub delete-eq-ok :
      (k : Text) (d : Db) {x : Unit} {d' : Db} → delete k d ≡ ok (x, d') → d' ≡ erase k d
  unfolding delete
  delete-eq-ok k d h = ground arith

  pub lift-eq-ok {ℓ} :
      {A : Type ℓ} (r : Result A) (d : Db) {a : A} {d' : Db}
      → lift r d ≡ ok (a, d')
      → (r ≡ ok a) × (d' ≡ d)
  lift-eq-ok (ok a) d h = ground arith
  lift-eq-ok (err e) d h = ground arith

  pub update-eq-ok {ℓ} :
      {A : Type ℓ} (m : Txn A) (d : Db) {a : A} {d' : Db}
      → update m d ≡ (ok a, d')
      → m d ≡ ok (a, d')
  unfolding update
  update-eq-ok m d h = ground arith

  -- A transaction that fails, other than by a conflict, changes nothing.
  pub update_atomic {ℓ} :
      {A : Type ℓ} (m : Txn A) (d : Db) {e : Error} {d' : Db}
      → update m d ≡ (err e, d')
      → (e ≡ conflict) ⊎ (d' ≡ d)
  unfolding update
  update_atomic m d h = ground arith
