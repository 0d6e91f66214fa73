-- ===== src/Store/Instances/Deletion.antt =====
-- DeleteInstance: the retry after conflicts, and what a deletion leaves.
use ulcer.Prelude.{
  ℕ, zero, suc, ◌<◌, ◌≡◌, refl, false, Text, none, some, arith, text_eq_refl, inl, inr, Bool, true,
  Bool-cases, sym, ap, ◌∙◌, if◌then◌else◌, Bytes, [],
}
use ulcer.Result.{Result, Error, ok, err, not_found, is_conflict}
use ulcer.Model.{Instance}
use ulcer.Platform.{Platform, reads}
use ulcer.Store.Keys.{instance_key, meter_ack_key}
use ulcer.Store.Txn.{update, live}
use ulcer.Store.Txn.Steps.{update-eq-ok}
use ulcer.Store.Instances.{instance, delete_once, delete_rounds, delete_instance, retry}

module _ ⦃p : Platform⦄ where
  open p use {Db, entry, erase, fault, entry-erase, later, decode_instance_error}

  -- The database that the attempt after `n` conflicts finds.
  unfoldable pub after_conflicts : ℕ → Db → Db
  after_conflicts zero d = d
  after_conflicts (suc n) d = after_conflicts n (later d)

  delete_once-eq-ok :
      (now : ℕ) (id : Text) (d : Db) {i : Instance} {d' : Db}
      → delete_once now id d ≡ ok (i, d')
      → (instance now id d ≡ ok i) × (d' ≡ erase (meter_ack_key id) (erase (instance_key id) d))
  unfolding delete_once instance
  delete_once-eq-ok now id d h = ground arith

  abbrev pub conflicted {ℓ} : {A : Type ℓ} → Result A × Db → Bool
  conflicted (ok _, _) = false
  conflicted (err e, _) = is_conflict e

  record_value : ℕ → Text → Db → Bytes
  record_value now id d = elim (live now (entry d (instance_key id))) [ none ↦ [] | some v ↦ v ]

  conflict-later :
      (now : ℕ) (id : Text) (d : Db) {e : Error} {d' : Db}
      → is_conflict e ≡ true
      → update (delete_once now id) d ≡ (err e, d')
      → d' ≡ later d
  unfolding update delete_once record_value
  conflict-later now id d {e} c h = ground (arith, decode_instance_error (record_value now id d) e)

  conflicted-later :
      (now : ℕ) (id : Text) (d : Db) (r : Result Instance × Db)
      → update (delete_once now id) d ≡ r
      → conflicted r ≡ true
      → r.1 ≡ later d
  conflicted-later now id d (ok i, d') h c = ground arith
  conflicted-later now id d (err e, d') h c = conflict-later now id d c h

  retry-stop {ℓ} :
      {A : Type ℓ} (again : Db → Result A × Db) (r : Result A × Db)
      → conflicted r ≡ false
      → retry again r ≡ r
  unfolding retry
  retry-stop again (ok a, d) c = refl
  retry-stop again (err e, d) c = rw c

  retry-again {ℓ} :
      {A : Type ℓ} (again : Db → Result A × Db) (r : Result A × Db)
      → conflicted r ≡ true
      → retry again r ≡ again r.1
  unfolding retry
  retry-again again (ok a, d) c = ground arith
  retry-again again (err e, d) c = rw c

  module _ (now : ℕ) (id : Text) where
    attempt : Db → Result Instance × Db
    attempt = update (delete_once now id)

    delete_rounds-suc :
        (n : ℕ) (d : Db)
        → delete_rounds (suc n) now id d
          ≡ (if conflicted (attempt d) then delete_rounds n now id (later d) else attempt d)
    unfolding delete_rounds attempt
    delete_rounds-suc n d =
        let r = update (delete_once now id) d in
        elim (Bool-cases (conflicted r)) [
          | inl c ↦ rw c (
              retry-again (delete_rounds n now id) r c
              ∙ ap (delete_rounds n now id) (conflicted-later now id d r refl c))
          | inr c ↦ rw c (retry-stop (delete_rounds n now id) r c)
        ]

    delete_rounds_first :
        (n k : ℕ) (d : Db)
        → k < n
        → ((j : ℕ) → j < k → conflicted (attempt (after_conflicts j d)) ≡ true)
        → conflicted (attempt (after_conflicts k d)) ≡ false
        → delete_rounds n now id d ≡ attempt (after_conflicts k d)
    unfolding after_conflicts
    delete_rounds_first zero k d lt before stop = absurd (omega arith)
    delete_rounds_first (suc n) zero d lt before stop = rw (delete_rounds-suc n d, stop)
    delete_rounds_first (suc n) (suc k) d lt before stop =
        rw (delete_rounds-suc n d, before zero (omega arith))
          (delete_rounds_first n k (later d) (omega arith) (λ j h. before (suc j) (omega arith))
            stop)

    delete_rounds-eq-ok :
        (n : ℕ) (d : Db) {i : Instance} {d' : Db}
        → delete_rounds n now id d ≡ (ok i, d')
        → (d0 : Db) × (attempt d0 ≡ (ok i, d'))
    unfolding delete_rounds
    delete_rounds-eq-ok zero d h = ground arith
    delete_rounds-eq-ok (suc n) d {i} {d'} h = elim (Bool-cases (conflicted (attempt d))) [
      | inl c ↦ delete_rounds-eq-ok n (later d) (sym (rw c at (delete_rounds-suc n d)) ∙ h)
      | inr c ↦ (d, sym (rw c at (delete_rounds-suc n d)) ∙ h)
    ]

  -- A deletion is tried again after a conflict, and only then: the result is that of the first of
  -- the eight attempts that meets none, on the database that the conflicts before it have left.
  pub delete_instance_first :
      (k now : ℕ) (id : Text) (d : Db)
      → k < 8
      → ((j : ℕ) → j < k → conflicted (update (delete_once now id) (after_conflicts j d)) ≡ true)
      → conflicted (update (delete_once now id) (after_conflicts k d)) ≡ false
      → delete_instance now id d ≡ update (delete_once now id) (after_conflicts k d)
  unfolding delete_instance attempt
  delete_instance_first k now id d = delete_rounds_first now id 8 k d

  pub delete_instance-erases :
      (now : ℕ) (id : Text) (d : Db) {i : Instance} {d' : Db}
      → delete_instance now id d ≡ (ok i, d')
      → (entry d' (instance_key id) ≡ none) × (entry d' (meter_ack_key id) ≡ none)
  unfolding delete_instance attempt
  delete_instance-erases now id d h =
      let (d0, e) = delete_rounds-eq-ok now id 8 d h in
      let (_, state) = delete_once-eq-ok now id d0 (update-eq-ok (delete_once now id) d0 e) in
      let gone = entry-erase (erase (instance_key id) d0) (meter_ack_key id) in
      (
        rw state (
            ground (
              arith,
              gone (instance_key id),
              entry-erase d0 (instance_key id) (instance_key id),
              text_eq_refl id,
            )),
        rw state (gone (meter_ack_key id) ∙ rw (text_eq_refl id)),
      )

  -- After a deletion that succeeds the instance is not found, if its key can be read, and its
  -- acknowledged meter sequence is gone.
  pub instance-delete_instance :
      (now t : ℕ) (id : Text) (d d' : Db) (i : Instance)
      → delete_instance now id d ≡ (ok i, d')
      → (fault d' (reads (instance_key id)) ≡ none → instance t id d' ≡ err not_found)
        × (entry d' (meter_ack_key id) ≡ none)
  unfolding instance live
  instance-delete_instance now t id d d' i h =
      let (gone, gone_ack) = delete_instance-erases now id d h in (λ r. ground arith, gone_ack)
