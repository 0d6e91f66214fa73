-- ===== src/Api/Machines/Desired.antt =====
-- The desired state that the API sets, as the host keeps it and as the agent checks it.
use ulcer.Prelude.{
  ◌+◌, ◌≤◌, ◌<◌, ◌≡◌, ◌≢◌, Bytes, text_eq, text_eq_iff, text_eq_refl, [], arith, ◌⊎◌, inl, inr,
  Bool-cases,
}
use ulcer.Result.{ok}
use ulcer.Model.{Instance, DesiredState}
use ulcer.Platform.{Platform}
use ulcer.Store.Words.{u64_mod}
use ulcer.Control.Server.Statuses.{IsConsistent}
use ulcer.Agent.{RuntimeState, StateCodec, check}
use ulcer.Api.Machines.{desire}

module _ ⦃p : Platform⦄ where
  open p use {sha256_hex}

  -- A record without a desired state, or one whose specification has the digest that it names.
  unfoldable pub HasDigest : Instance → Type 0
  HasDigest i =
      ((i.desired_generation ≡ 0) × (i.desired_digest ≡ []))
      ⊎ (sha256_hex i.desired_spec ≡ i.desired_digest)

  abbrev pub wanted_of : Instance → DesiredState
  wanted_of i = record {
    instance_id = i.id;
    generation = i.desired_generation;
    spec_digest = i.desired_digest;
    canonical_spec = i.desired_spec;
  }

  -- Setting a desired state keeps a record consistent that is consistent and has its digest, and
  -- leaves it with the new digest, which is that of its specification. Where the record had this
  -- digest already, nothing changes; where it had another one, the generation goes up by one and the
  -- new specification is stored. The digest is not empty, and the generation is not the last of 64
  -- bits.
  pub desire-IsConsistent :
      (canonical : Bytes) (i j : Instance)
      → sha256_hex canonical ≢ []
      → i.desired_generation + 1 < u64_mod
      → IsConsistent i
      → HasDigest i
      → desire canonical (sha256_hex canonical) i ≡ ok j
      → IsConsistent j
        × (sha256_hex j.desired_spec ≡ j.desired_digest)
        × (j.desired_digest ≡ sha256_hex canonical)
        × (i.desired_digest ≡ sha256_hex canonical → j ≡ i)
        × (i.desired_digest ≢ sha256_hex canonical
            → (j.desired_generation ≡ i.desired_generation + 1) × (j.desired_spec ≡ canonical))
  unfolding desire HasDigest
  desire-IsConsistent canonical i j ne small c g h =
      let same = text_eq_iff i.desired_digest (sha256_hex canonical) in
      elim (Bool-cases (text_eq i.desired_digest (sha256_hex canonical))) [
        | inl e ↦ (
          record { behind = ground (arith, c.behind); agrees = λ q r. ground (arith, c.agrees) },
          ground (arith, same),
          ground (arith, same),
          λ q. ground arith,
          λ q. absurd (ground (arith, same)),
        )
        | inr e ↦ (
          record { behind = ground (arith, c.behind); agrees = λ q r. ground (arith, c.behind) },
          ground arith,
          ground arith,
          λ q. absurd (ground (arith, same)),
          λ q. (ground arith, ground arith),
        )
      ]

module _ ⦃p : Platform⦄ ⦃c : StateCodec⦄ where
  open p use {sha256_hex}
  open c use {decode_spec}

  -- For a desired state that the API has set, the checks of the agent have the result of decoding the
  -- stored specification, so that no check of the generation or the digest refuses it: if the agent
  -- has carried out no later generation than the record had, and that one, if it has a digest, with
  -- the digest of the record. The record was consistent and had its digest, the new digest is not
  -- empty, and the generation was not the last of 64 bits.
  pub check-desire :
      (canonical : Bytes) (i j : Instance) (old : RuntimeState)
      → sha256_hex canonical ≢ []
      → i.desired_generation + 1 < u64_mod
      → IsConsistent i
      → HasDigest i
      → old.applied_generation ≤ i.desired_generation
      → (old.applied_generation ≡ i.desired_generation
          → old.spec_digest ≢ []
          → old.spec_digest ≡ i.desired_digest)
      → desire canonical (sha256_hex canonical) i ≡ ok j
      → check (wanted_of j) old ≡ decode_spec j.desired_spec
  unfolding desire check
  check-desire canonical i j old ne small con g behind agrees h =
      let (_, digest, _, _, _) = desire-IsConsistent canonical i j ne small con g h in
      ground (
        arith,
        digest,
        agrees,
        text_eq_iff old.spec_digest [],
        text_eq_refl j.desired_digest,
        text_eq_iff j.desired_digest old.spec_digest,
      )
