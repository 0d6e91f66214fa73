-- ===== src/Api/Machines/Enrolment.antt =====
-- The credentials in the answer to the creation of an instance, at the certificate check of a stream.
use ulcer.Prelude.{
  ℕ, ◌≡◌, sym, ap, ◌∙◌, Bool, Text, text, Bytes, Option, none, some, arith, if◌then◌else◌,
  Bool-cases, inl, inr,
}
use ulcer.Result.{Result, ok, err}
use ulcer.Model.{Instance}
use ulcer.Platform.{Platform}
use ulcer.Pki.Outside.{Parts}
use ulcer.Pki.{
  Bundle, Authority, Draw, CredentialFiles, Issue, done, failed, instance_uri, issue_instance_files,
  issue_instance,
}
use ulcer.Pki.Steps.{bind-eq-done, done-inj}
use ulcer.Pki.Identity.{issue_instance_files-authorize_instance}
use ulcer.Control.Server.{World, permission_denied}
use ulcer.Control.Stream.{verified, authorize_instance}
use ulcer.Store.Instances.{put_instance}
use ulcer.Api.Response.{Response, replies, refuses}
use ulcer.Api.Machines.{create_instance, with_bundle, new_instance, validate_instance_name}

module _ ⦃p : Platform⦄ where
  stored_cases :
      {R B : Type 0} (stored : Result R) (new i : Instance) (issued b : B) (w1 w2 w' : World)
      → let q : Response (Instance × B) × World = elim stored [
        | err _ ↦ (refuses 500 (text "store_error"), w1)
        | ok _ ↦ (replies 201 (new, issued), w2)
      ] in
        q ≡ (replies 201 (i, b), w') → (new ≡ i) × (issued ≡ b)
  stored_cases (ok _) new i issued b w1 w2 w' h = (ground arith, ground arith)
  stored_cases (err _) new i issued b w1 w2 w' h = absurd (ground arith)

  with_bundle-replies :
      (now : ℕ) (name id : Text) (o : Issue Bundle) (w w' : World) (i : Instance) (b : Bundle)
      → with_bundle now name id o w ≡ (replies 201 (i, b), w')
      → (i.id ≡ id) × (o ≡ done b)
  unfolding with_bundle
  with_bundle-replies now name id (failed _) w w' i b h = absurd (ground arith)
  with_bundle-replies now name id (done issued) w w' i b h =
      let (same, kept) =
        stored_cases (put_instance (new_instance now id name) w.db).0 (new_instance now id name) i
          issued b _ _ w' h in
      (ap (λ x. x.id) (sym same), ap done kept)

module _ ⦃p : Platform⦄ ⦃parts : Parts⦄ where
  open parts use {Certificate, Disk, decode_pem, parse_certificate, certificate_uris, parse_url}

  create_instance-replies :
      (now : ℕ) (request : Option Text) (id : Text) (draw : Draw) (a : Authority) (d : Disk)
      (w w' : World) (i : Instance) (b : Bundle)
      → create_instance now request id draw a d w ≡ (replies 201 (i, b), w')
      → (i.id ≡ id) × (issue_instance now id draw a d ≡ done b)
  unfolding create_instance
  create_instance-replies now none id draw a d w w' i b h = absurd (ground arith)
  create_instance-replies now (some name) id draw a d w w' i b h =
      elim (Bool-cases (validate_instance_name name)) [
        | inl e ↦
            with_bundle-replies now name id (issue_instance now id draw a d) w w' i b (ground arith)
        | inr e ↦ absurd (ground arith)
      ]

  issue_instance-files :
      (now : ℕ) (id : Text) (draw : Draw) (a : Authority) (d : Disk) (b : Bundle)
      → issue_instance now id draw a d ≡ done b
      → (files : CredentialFiles) × (issue_instance_files now id draw a d ≡ done files)
        × (b.certificate_pem ≡ files.certificate)
  unfolding issue_instance
  issue_instance-files now id draw a d b h =
      let (files, got, made) =
        bind-eq-done (issue_instance_files now id draw a d)
          (λ files. done (record {
            certificate_pem = files.certificate;
            private_key_pem = files.private_key;
            ca_pem = files.ca;
          }))
          h in
      (files, got, ap (λ x. x.certificate_pem) (sym (done-inj made)))

  -- The certificate in the answer to the creation of an instance parses, and when its URI is spelled
  -- back as it was parsed, the certificate check of a stream accepts it for an identity exactly if
  -- the URIs of that identity and of the new instance are equal under folding.
  pub create_instance-authorize_instance :
      (equal_fold : Text → Text → Bool) (now : ℕ) (request : Option Text) (id : Text) (draw : Draw)
      → (a : Authority) (d : Disk) (bundle : Bundle) (i : Instance) (w w' : World)
      → create_instance now request id draw a d w ≡ (replies 201 (i, bundle), w')
      → parse_url (instance_uri id) ≡ some (instance_uri id)
      → (block : Bytes) × (cert : Certificate) × (decode_pem bundle.certificate_pem ≡ some block)
        × (parse_certificate block ≡ some cert)
        × ((other : Text)
            → authorize_instance equal_fold (verified (certificate_uris cert)) other ≡ (
                if equal_fold (instance_uri i.id) (instance_uri other)
                then none
                else some permission_denied))
  create_instance-authorize_instance equal_fold now request id draw a d bundle i w w' created url =
      let (same_id, made) = create_instance-replies now request id draw a d w w' i bundle created in
      let (files, got, pem) = issue_instance-files now id draw a d bundle made in
      let (block, cert, decoded, parsed, checked) =
        issue_instance_files-authorize_instance equal_fold now id draw a d files got url in
      (
        block,
        cert,
        ap decode_pem pem ∙ decoded,
        parsed,
        λ other.
            checked other
            ∙ ap
                (λ x.
                  if equal_fold (instance_uri x) (instance_uri other)
                  then none
                  else some permission_denied)
                (sym same_id),
      )
