-- ===== src/Store/Instances.antt =====
-- The instance records of internal/store/store.go.
pub mod Updates
pub mod Deletion
use ulcer.Prelude.{
  ℕ, zero, suc, Bool, ◌&&◌, true, false, Text, none, some, List, [], ◌∷◌, leb, has_prefix, text_lt,
  if◌then◌else◌,
}
use ulcer.Result.{Result, ok, err, not_found, conflict, is_conflict, is_not_found}
use ulcer.Model.{Instance}
use ulcer.Platform.{Platform}
use ulcer.Store.Keys.{instance_prefix, instance_key, meter_ack_key}
use ulcer.Store.Txn.{Txn, ◌>>=◌, ◌>>◌, pure, raise, lift, get, set, delete, update, view, live}

-- Iterator.Seek: the first key that is not below `start`.
unfoldable pub seek : Text → List Text → List Text
seek start [] = []
seek start (k ∷ ks) = if text_lt k start then seek start ks else k ∷ ks

-- slices.SortFunc by the creation time; equal times keep the order of their keys here.
unfoldable pub insert_by_time : Instance → List Instance → List Instance
insert_by_time i [] = i ∷ []
insert_by_time i (j ∷ l) =
    if leb i.created_at j.created_at then i ∷ j ∷ l else j ∷ insert_by_time i l

unfoldable pub sort_by_time : List Instance → List Instance
unfolding insert_by_time
sort_by_time [] = []
sort_by_time (i ∷ l) = insert_by_time i (sort_by_time l)

module _ ⦃p : Platform⦄ where
  open p use {Db, entry, keys, encode_instance, decode_instance}

  -- txn.Get, with ErrNotFound for a missing key, and json.Unmarshal.
  unfoldable pub load_instance : ℕ → Text → Txn Instance
  unfolding get
  load_instance now id = do
    item ← get now (instance_key id)
    elim item [ none ↦ raise not_found | some v ↦ lift (decode_instance v) ]

  unfoldable pub put_instance : Instance → Db → Result (Unit {0}) × Db
  unfolding update set
  put_instance i d = elim (encode_instance i) [
    | err e ↦ (err e, d)
    | ok value ↦ update (set (instance_key i.id) value) d
  ]

  unfoldable pub delete_once : ℕ → Text → Txn Instance
  unfolding load_instance delete
  delete_once now id = do
    deleted ← load_instance now id
    delete (instance_key id)
    delete (meter_ack_key id)
    pure deleted

  -- Go on with another round after a conflict only.
  unfoldable pub retry {ℓ} : {A : Type ℓ} → (Db → Result A × Db) → Result A × Db → Result A × Db
  retry again (ok a, d) = (ok a, d)
  retry again (err e, d) = if is_conflict e then again d else (err e, d)

  -- `for range 8`, with the rounds that are left.
  unfoldable pub delete_rounds : ℕ → ℕ → Text → Db → Result Instance × Db
  unfolding update delete_once retry
  delete_rounds zero now id d = (err conflict, d)
  delete_rounds (suc rounds) now id d =
      retry (delete_rounds rounds now id) (update (delete_once now id) d)

  unfoldable pub delete_instance : ℕ → Text → Db → Result Instance × Db
  unfolding delete_rounds
  delete_instance now id = delete_rounds 8 now id

  unfoldable pub instance : ℕ → Text → Db → Result Instance
  unfolding view load_instance
  instance now id = view (load_instance now id)

  -- The loop of `Instances` from the key at which the iterator stands.
  unfoldable pub instances_from : ℕ → List Text → Txn (List Instance)
  unfolding get live
  instances_from now [] = pure []
  instances_from now (k ∷ ks) = do
    item ← get now k
    elim item [
      | none ↦ instances_from now ks
      | some v ↦ elim (has_prefix k instance_prefix) [
        | false ↦ pure []
        | true ↦ do i ← lift (decode_instance v); rest ← instances_from now ks; pure (i ∷ rest)
      ]
    ]

  unfoldable pub instances : ℕ → Db → Result (List Instance)
  unfolding view instances_from sort_by_time seek
  instances now d = elim (view (instances_from now (seek instance_prefix (keys d))) d) [
    | err e ↦ err e
    | ok l ↦ ok (sort_by_time l)
  ]

  abbrev is_missing : Result Instance → Bool
  is_missing (ok _) = false
  is_missing (err e) = is_not_found e

  -- A conflict with a transaction that deleted the instance is reported as ErrNotFound.
  unfoldable pub after_conflict {ℓ} : {A : Type ℓ} → ℕ → Text → Result A × Db → Result A × Db
  unfolding instance
  after_conflict now id (ok a, d) = (ok a, d)
  after_conflict now id (err e, d) =
      if is_conflict e && is_missing (instance now id d) then (err not_found, d) else (err e, d)

  unfoldable pub mutate_instance : ℕ → Text → (Instance → Result Instance) → Txn Instance
  unfolding load_instance set
  mutate_instance now id mutate = do
    found ← load_instance now id
    updated ← lift (mutate found)
    value ← lift (encode_instance updated)
    set (instance_key id) value
    pure updated

  unfoldable pub update_instance :
      ℕ → Text → (Instance → Result Instance) → Db → Result Instance × Db
  unfolding update mutate_instance after_conflict
  update_instance now id mutate d = after_conflict now id (update (mutate_instance now id mutate) d)
