-- ===== src/Pki/Identity.antt =====
-- The identity that an issued certificate carries, as internal/control reads it.
use ulcer.Prelude.{
  ◌≡◌, sym, ap, ◌∙◌, ℕ, Bool, Bytes, Text, text, Option, none, some, [], ◌∷◌, arith, if◌then◌else◌,
  any,
}
use ulcer.Pki.Outside.{Parts, Template, ca_crt}
use ulcer.Pki.{
  url_error, random_error, create_error, marshal_error, read_error, done, ◌>>=◌, or_fail,
  CredentialFiles, Authority, Draw, sign, issue, instance_uri, instance_template,
  issue_instance_files, path_of, certificate_pem, key_pem,
}
use ulcer.Pki.Steps.{bind-eq-done, done-inj, some-inj, or_fail-eq-done}
use ulcer.Control.Server.{permission_denied}
use ulcer.Control.Stream.{verified, authorize_instance}

any-one {ℓ} : {A : Type ℓ} (f : A → Bool) (a : A) → any f (a ∷ []) ≡ f a
any-one f a = ground arith

module _ ⦃parts : Parts⦄ where
  open parts use {
    PublicKey, PrivateKey, Certificate, create_certificate, decode_pem, parse_certificate,
    certificate_uris, parse_url, decode-encode_pem, parse-create_certificate, read_file,
    marshal_key, Disk,
  }

  -- The certificate of a pair parses, with the URIs of its template.
  abbrev IsOf : Template → Bytes → Type 0
  IsOf t pem =
      (block : Bytes) × (cert : Certificate) × (decode_pem pem ≡ some block)
      × (parse_certificate block ≡ some cert)
      × (certificate_uris cert ≡ t.uris)

  sign-IsOf :
      (t : Template) (parent : Option Certificate) (public : PublicKey)
      (private signer : PrivateKey) (pair : Bytes × Bytes)
      → sign t parent public private signer ≡ done pair
      → IsOf t pair.0
  unfolding sign
  sign-IsOf t parent public private signer pair h =
      let (der, p, q) =
        bind-eq-done (or_fail create_error (create_certificate t parent public signer))
          (λ der. or_fail marshal_error (marshal_key private) >>= λ k.
            done (certificate_pem der, key_pem k))
          h in
      let (k, _, made) =
        bind-eq-done (or_fail marshal_error (marshal_key private))
          (λ k. done (certificate_pem der, key_pem k)) q in
      let (cert, parsed, uris) =
        parse-create_certificate t parent public signer der (or_fail-eq-done create_error _ p) in
      (
        der,
        cert,
        (ap (λ x. decode_pem x.0) (sym (done-inj made))
            ∙ decode-encode_pem (text "CERTIFICATE") der),
        parsed,
        uris,
      )

  issue-IsOf :
      (t : Template) (draw : Draw) (a : Authority) (pair : Bytes × Bytes)
      → issue t draw a ≡ done pair
      → IsOf t pair.0
  unfolding issue
  issue-IsOf t draw a pair h =
      let (keys, _, q) =
        bind-eq-done (or_fail random_error draw.keys)
          (λ keys. sign t (some a.ca) keys.0 keys.1 a.ca_key) h in
      sign-IsOf t (some a.ca) keys.0 keys.1 a.ca_key pair q

  -- The files that are issued for an instance hold a certificate that parses, and when its URI is
  -- spelled back as it was parsed, the certificate check of a stream accepts that certificate for
  -- an identity exactly if the URIs of the two identities are equal under folding.
  pub issue_instance_files-authorize_instance :
      (equal_fold : Text → Text → Bool) (now : ℕ) (id : Text) (draw : Draw) (a : Authority)
      (d : Disk)
      → (files : CredentialFiles) → issue_instance_files now id draw a d ≡ done files
      → parse_url (instance_uri id) ≡ some (instance_uri id)
      → (block : Bytes) × (cert : Certificate) × (decode_pem files.certificate ≡ some block)
        × (parse_certificate block ≡ some cert)
        × ((other : Text)
            → authorize_instance equal_fold (verified (certificate_uris cert)) other ≡ (
                if equal_fold (instance_uri id) (instance_uri other)
                then none
                else some permission_denied))
  unfolding issue_instance_files instance_template authorize_instance
  issue_instance_files-authorize_instance equal_fold now id draw a d files h url =
      let (uri, p, q) =
        bind-eq-done (or_fail url_error (parse_url (instance_uri id)))
          (λ uri. issue (instance_template now draw.serial id uri) draw a >>= λ pair.
            or_fail read_error (read_file d (path_of a.dir ca_crt)) >>= λ ca.
            done (record { certificate = pair.0; private_key = pair.1; ca = ca }))
          h in
      let (pair, issued, q') =
        bind-eq-done (issue (instance_template now draw.serial id uri) draw a)
          (λ pair. or_fail read_error (read_file d (path_of a.dir ca_crt)) >>= λ ca.
            done (record { certificate = pair.0; private_key = pair.1; ca = ca }))
          q in
      let (ca, _, made) =
        bind-eq-done (or_fail read_error (read_file d (path_of a.dir ca_crt)))
          (λ ca. done (record { certificate = pair.0; private_key = pair.1; ca = ca })) q' in
      let same : uri ≡ instance_uri id = some-inj (sym (or_fail-eq-done url_error _ p) ∙ url) in
      let (block, cert, decoded, parsed, uris) =
        issue-IsOf (instance_template now draw.serial id uri) draw a pair issued in
      (
        block,
        cert,
        ap (λ f. decode_pem f.certificate) (sym (done-inj made)) ∙ decoded,
        parsed,
        λ other.
            ap (λ b. if b then none else some permission_denied)
              (ap (any (λ u. equal_fold u (instance_uri other))) (uris ∙ ap (λ u. u ∷ []) same)
                ∙ any-one (λ u. equal_fold u (instance_uri other)) (instance_uri id)),
      )
