-- ===== src/Agent/Reconcile.antt =====
-- What the agent accepts, stores and reports.
use ulcer.Prelude.{
  ℕ, zero, suc, ◌≤◌, ◌≡◌, refl, ◌⊎◌, Bytes, none, [], arith, text_eq_iff, text_eq_refl, ◌^◌,
}
use ulcer.Result.{Result, ok, err}
use ulcer.Model.{DesiredState}
use ulcer.Platform.{Platform, reads}
use ulcer.Store.Txn.{live}
use ulcer.Store.Txn.Steps.{plain}
use ulcer.Agent.{
  RuntimeState, AgentSpec, StateCodec, state_key, reconciled, load, check, store_state, apply,
  backoff_after,
}

module _ ⦃p : Platform⦄ ⦃c : StateCodec⦄ where
  open p use {Db, entry, write, fault, entry-write, sha256_hex}
  open c use {encode_state, decode_state, decode_spec, decode-encode_state}

  state_bytes : RuntimeState → Bytes
  state_bytes s = elim (encode_state s) [ ok b ↦ b | err _ ↦ [] ]

  store_state-eq-ok :
      (s t : RuntimeState) (d d' : Db)
      → store_state s d ≡ (ok t, d')
      → (t ≡ s)
        × (d' ≡ write state_key (plain (state_bytes s)) d)
        × (decode_state (state_bytes s) ≡ ok s)
  unfolding store_state state_bytes
  store_state-eq-ok s t d d' h = ground (arith, decode-encode_state s (state_bytes s))

  load-store_state :
      (now : ℕ) (s t : RuntimeState) (d d' : Db)
      → store_state s d ≡ (ok t, d')
      → fault d' (reads state_key) ≡ none
      → load now d' ≡ ok t
  unfolding load live
  load-store_state now s t d d' h f = ground (
    arith,
    store_state-eq-ok s t d d' h,
    entry-write d state_key state_key (plain (state_bytes s)),
  )

  check-eq-ok :
      (wanted : DesiredState) (old : RuntimeState) (spec : AgentSpec)
      → check wanted old ≡ ok spec
      → (old.applied_generation ≤ wanted.generation)
        × (sha256_hex wanted.canonical_spec ≡ wanted.spec_digest)
        × (old.applied_generation ≡ wanted.generation
            → (old.spec_digest ≡ []) ⊎ (old.spec_digest ≡ wanted.spec_digest))
  unfolding check
  check-eq-ok wanted old spec h =
      let same = text_eq_iff (sha256_hex wanted.canonical_spec) wanted.spec_digest in
      let empty = text_eq_iff old.spec_digest [] in
      let kept = text_eq_iff wanted.spec_digest old.spec_digest in
      (ground arith, ground (arith, same), λ e. ground (arith, empty, kept))

  reconciled_fields :
      (wanted : DesiredState) (spec : AgentSpec)
      → ((reconciled wanted spec).applied_generation ≡ wanted.generation)
        × ((reconciled wanted spec).spec_digest ≡ wanted.spec_digest)
  unfolding reconciled
  reconciled_fields wanted spec = ground arith

  accepted :
      (wanted : DesiredState) (old new : RuntimeState) (d d' : Db) (r : Result AgentSpec)
      → check wanted old ≡ r
      → elim r [ err e ↦ (err e, d) | ok spec ↦ store_state (reconciled wanted spec) d ]
        ≡ (ok new, d')
      → (spec : AgentSpec) × (check wanted old ≡ ok spec)
        × (store_state (reconciled wanted spec) d ≡ (ok new, d'))
  accepted wanted old new d d' (ok spec) c h = (spec, c, h)
  accepted wanted old new d d' (err e) c h = ground arith

  -- An accepted state is not older than the one before it, has the digest of its specification and
  -- keeps the digest of its generation; it is what the agent loads and reports from then on, if its
  -- entry can be read.
  pub apply_lem :
      (t1 t2 : ℕ) (wanted : DesiredState) (old new : RuntimeState) (d d' : Db)
      → load t1 d ≡ ok old
      → apply t1 wanted d ≡ (ok new, d')
      → (new.applied_generation ≡ wanted.generation)
        × (old.applied_generation ≤ new.applied_generation)
        × (new.spec_digest ≡ sha256_hex wanted.canonical_spec)
        × (new.spec_digest ≡ wanted.spec_digest)
        × (old.applied_generation ≡ new.applied_generation
            → (old.spec_digest ≡ []) ⊎ (old.spec_digest ≡ new.spec_digest))
        × (fault d' (reads state_key) ≡ none → load t2 d' ≡ ok new)
  unfolding apply
  apply_lem t1 t2 wanted old new d d' l h =
      let (spec, checked, stored) =
        accepted wanted old new d d' (check wanted old) refl (ground arith) in
      let (fresh, same, kept) = check-eq-ok wanted old spec checked in
      let fields = reconciled_fields wanted spec in
      let (eq, _, _) = store_state-eq-ok (reconciled wanted spec) new d d' stored in
      (
        ground arith,
        ground arith,
        ground arith,
        ground arith,
        λ e. ground (arith, kept),
        load-store_state t2 (reconciled wanted spec) new d d' stored,
      )

  -- The same desired state, delivered again, is accepted again and changes nothing that the agent
  -- reports.
  pub check_again :
      (wanted : DesiredState) (old : RuntimeState) (spec : AgentSpec)
      → check wanted old ≡ ok spec
      → check wanted (reconciled wanted spec) ≡ ok spec
  unfolding check reconciled
  check_again wanted old spec h = ground (arith, text_eq_refl wanted.spec_digest)

backoff-stays : (n : ℕ) → backoff_after (suc (suc (suc (suc (suc n))))) ≡ 32
unfolding backoff_after
backoff-stays zero = refl
backoff-stays (suc n) = rw (backoff-stays n)

-- The wait doubles with each attempt from one second, and stays at 32 seconds from the sixth on.
pub backoff_after_lem : (n : ℕ) → (n ≤ 5 → backoff_after n ≡ 2 ^ n) × (5 ≤ n → backoff_after n ≡ 32)
unfolding backoff_after
backoff_after_lem zero = (λ h. refl, λ h. ground arith)
backoff_after_lem (suc zero) = (λ h. refl, λ h. ground arith)
backoff_after_lem (suc (suc zero)) = (λ h. refl, λ h. ground arith)
backoff_after_lem (suc (suc (suc zero))) = (λ h. refl, λ h. ground arith)
backoff_after_lem (suc (suc (suc (suc zero)))) = (λ h. refl, λ h. ground arith)
backoff_after_lem (suc (suc (suc (suc (suc zero))))) = (λ h. refl, λ h. refl)
backoff_after_lem (suc (suc (suc (suc (suc (suc n)))))) =
    (λ h. ground arith, λ h. backoff-stays (suc n))
