-- ===== src/Store/Instances/Updates.antt =====
-- UpdateInstance: a mutation is applied to the record as it is stored, and is stored whole or not.
use ulcer.Prelude.{ℕ, ◌≡◌, false, Text, Bytes, none, arith, text_eq, text_eq_refl, ◌∙◌, []}
use ulcer.Result.{Result, Error, ok, err, ◌>>=◌, is_conflict}
use ulcer.Model.{Instance}
use ulcer.Platform.{Platform, reads}
use ulcer.Store.Keys.{instance_key}
use ulcer.Store.Txn.{update, live}
use ulcer.Store.Txn.Steps.{plain, update-eq-ok}
use ulcer.Store.Instances.{instance, mutate_instance, update_instance, after_conflict}

module _ ⦃p : Platform⦄ where
  open p use {
    Db, entry, write, fault, entry-write, encode_instance, decode_instance, decode-encode_instance,
  }

  record_bytes : Instance → Bytes
  record_bytes i = elim (encode_instance i) [ ok b ↦ b | err _ ↦ [] ]

  after_conflict-eq-ok {ℓ} :
      {A : Type ℓ} (now : ℕ) (id : Text) (r : Result A × Db) {a : A} {d' : Db}
      → after_conflict now id r ≡ (ok a, d')
      → r ≡ (ok a, d')
  unfolding after_conflict
  after_conflict-eq-ok now id (ok a, d) h = h
  after_conflict-eq-ok now id (err e, d) h = ground arith

  mutate_instance-eq-ok :
      (now : ℕ) (id : Text) (f : Instance → Result Instance) (d : Db) {i : Instance} {d' : Db}
      → mutate_instance now id f d ≡ ok (i, d')
      → ((instance now id d >>= f) ≡ ok i)
        × (d' ≡ write (instance_key id) (plain (record_bytes i)) d)
        × (decode_instance (record_bytes i) ≡ ok i)
  unfolding mutate_instance instance record_bytes
  mutate_instance-eq-ok now id f d {i} h = ground (arith, decode-encode_instance i (record_bytes i))

  update_instance-eq-ok :
      (now : ℕ) (id : Text) (f : Instance → Result Instance) (d : Db) {i : Instance} {d' : Db}
      → update_instance now id f d ≡ (ok i, d')
      → mutate_instance now id f d ≡ ok (i, d')
  unfolding update_instance
  update_instance-eq-ok now id f d h =
      update-eq-ok (mutate_instance now id f) d
        (after_conflict-eq-ok now id (update (mutate_instance now id f) d) h)

  -- An update that succeeds returns the mutation of the record that was stored; the record reads
  -- back as what was returned, at any time and if it can be read, and no other key has changed.
  pub update_instance_lem :
      (now : ℕ) (id : Text) (f : Instance → Result Instance) (d d' : Db) (i : Instance)
      → update_instance now id f d ≡ (ok i, d')
      → ((instance now id d >>= f) ≡ ok i)
        × ((later : ℕ) → fault d' (reads (instance_key id)) ≡ none → instance later id d' ≡ ok i)
        × ((k : Text) → text_eq (instance_key id) k ≡ false → entry d' k ≡ entry d k)
  unfolding instance live
  update_instance_lem now id f d d' i h =
      let (found, state, decoded) =
        mutate_instance-eq-ok now id f d (update_instance-eq-ok now id f d h) in
      let stored = entry-write d (instance_key id) in
      (
        found,
        λ later r.
            ground (arith, stored (instance_key id) (plain (record_bytes i)), text_eq_refl id),
        λ k ne. rw state (stored k (plain (record_bytes i)) ∙ rw ne),
      )

  -- A mutation that is refused, or a record that is missing or cannot be read, is reported as it is
  -- and leaves the database as it was.
  pub update_instance-err :
      (now : ℕ) (id : Text) (f : Instance → Result Instance) (d : Db) (e : Error)
      → is_conflict e ≡ false
      → (instance now id d >>= f) ≡ err e
      → update_instance now id f d ≡ (err e, d)
  unfolding update_instance mutate_instance instance
  update_instance-err now id f d e c h = ground arith
