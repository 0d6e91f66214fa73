-- ===== src/Pki.antt =====
-- internal/pki/pki.go: the authority of the host and the certificates that it issues.
pub mod Outside
pub mod Steps
pub mod Restart
pub mod Identity
pub mod Interrupted
use ulcer.Prelude.{
  ℕ, ◌-◌, Bool, true, false, Bytes, Text, text, Option, none, some, List, [], ◌∷◌, ◌++◌,
  if◌then◌else◌,
}
use Outside.{
  Parts, Stat, present, missing, unknown, Template, Name, ca_crt, ca_key, host_crt, host_key,
  name_text,
}

-- Where a call has failed.
pub data PkiError : Type 0 where
  directory_error read_error write_error random_error create_error marshal_error invalid_pem
        parse_error not_ed25519 url_error :
      PkiError

pub data Issue {ℓ} (A : Type ℓ) : Type ℓ where
  done : A → Issue A
  failed : PkiError → Issue A

pub record Bundle : Type 0 where
  pub certificate_pem : Bytes
  pub private_key_pem : Bytes
  pub ca_pem : Bytes

pub record CredentialFiles : Type 0 where
  pub certificate : Bytes
  pub private_key : Bytes
  pub ca : Bytes

-- `else` of `if err != nil { return err }`.
abbrev pub or_fail {ℓ} : {A : Type ℓ} → PkiError → Option A → Issue A
or_fail e none = failed e
or_fail e (some a) = done a

infixl 5 ◌>>=◌
abbrev pub ◌>>=◌ {ℓ κ} : {A : Type ℓ} {B : Type κ} → Issue A → (A → Issue B) → Issue B
done a >>= f = f a
failed e >>= f = failed e

module _ ⦃parts : Parts⦄ where
  open parts use {
    Disk, PublicKey, PrivateKey, Certificate, join, stat, read_file, write_file, mkdir_all,
    create_certificate, marshal_key, encode_pem, decode_pem, parse_certificate, parse_key,
    parse_url, parse_ip, add_years,
  }

  -- The pool holds the certificate of the authority alone.
  pub record Authority : Type 0 where
    pub dir : Text
    pub ca : Certificate
    pub ca_key : PrivateKey

  -- What crypto/rand gives to one certificate: a pair of keys, or an error, and a serial number
  -- below 2 ^ 128; without a serial number the package panics.
  pub record Draw : Type 0 where
    pub keys : Option (PublicKey × PrivateKey)
    pub serial : ℕ

  abbrev pub certificate_pem : Bytes → Bytes
  certificate_pem der = encode_pem (text "CERTIFICATE") der

  abbrev pub key_pem : Bytes → Bytes
  key_pem der = encode_pem (text "PRIVATE KEY") der

  -- The two encodings of a new certificate and its key.
  unfoldable pub sign :
      Template → Option Certificate → PublicKey → PrivateKey → PrivateKey → Issue (Bytes × Bytes)
  sign t parent public private signer = do
    der ← or_fail create_error (create_certificate t parent public signer)
    key_der ← or_fail marshal_error (marshal_key private)
    done (certificate_pem der, key_pem key_der)

  unfoldable pub issue : Template → Draw → Authority → Issue (Bytes × Bytes)
  unfolding sign
  issue t draw a = do
    keys ← or_fail random_error draw.keys
    sign t (some a.ca) keys.0 keys.1 a.ca_key

  unfoldable pub server_template : ℕ → ℕ → Text → Template
  server_template now serial public_name = record {
    serial = serial;
    common_name = public_name;
    not_before = now - 300;
    not_after = add_years 1 now;
    key_usage = text "digital signature" ∷ [];
    ext_key_usage = text "server auth" ∷ [];
    uris = [];
    ip_addresses = elim (parse_ip public_name) [ none ↦ [] | some address ↦ address ∷ [] ];
    dns_names = elim (parse_ip public_name) [ none ↦ public_name ∷ [] | some _ ↦ [] ];
    is_ca = false;
  }

  unfoldable pub issue_server : ℕ → Text → Draw → Authority → Issue (Bytes × Bytes)
  unfolding issue server_template
  issue_server now public_name draw a = issue (server_template now draw.serial public_name) draw a

  abbrev pub instance_uri : Text → Text
  instance_uri id = text "spiffe://ulcer/instance/" ++ id

  unfoldable pub instance_template : ℕ → ℕ → Text → Text → Template
  instance_template now serial id uri = record {
    serial = serial;
    common_name = text "ulcer-instance-" ++ id;
    not_before = now - 300;
    not_after = add_years 1 now;
    key_usage = text "digital signature" ∷ [];
    ext_key_usage = text "client auth" ∷ [];
    uris = uri ∷ [];
    ip_addresses = [];
    dns_names = [];
    is_ca = false;
  }

  abbrev pub path_of : Text → Name → Text
  path_of dir n = join dir (name_text n)

  unfoldable pub issue_instance_files : ℕ → Text → Draw → Authority → Disk → Issue CredentialFiles
  unfolding issue instance_template
  issue_instance_files now id draw a d = do
    uri ← or_fail url_error (parse_url (instance_uri id))
    pair ← issue (instance_template now draw.serial id uri) draw a
    ca ← or_fail read_error (read_file d (path_of a.dir ca_crt))
    done (record { certificate = pair.0; private_key = pair.1; ca = ca })

  unfoldable pub issue_instance : ℕ → Text → Draw → Authority → Disk → Issue Bundle
  unfolding issue_instance_files
  issue_instance now id draw a d = do
    files ← issue_instance_files now id draw a d
    done (record {
      certificate_pem = files.certificate;
      private_key_pem = files.private_key;
      ca_pem = files.ca;
    })

  -- The certificate is written before the key.
  unfoldable pub write_pair : Text → Text → Bytes × Bytes → Disk → Bool × Disk
  write_pair cert_path key_path (cert, key) d =
      let (wrote, d') = write_file cert_path cert d in
      let rest = write_file key_path key d' in if wrote then rest else (false, d')

  unfoldable pub authority_template : ℕ → ℕ → Template
  authority_template now serial = record {
    serial = serial;
    common_name = text "ulcer local instance authority";
    not_before = now - 300;
    not_after = add_years 10 now;
    key_usage = text "cert sign" ∷ text "crl sign" ∷ [];
    ext_key_usage = [];
    uris = [];
    ip_addresses = [];
    dns_names = [];
    is_ca = true;
  }

  unfoldable pub new_authority : ℕ → Draw → Issue (Bytes × Bytes)
  unfolding sign authority_template
  new_authority now draw = do
    keys ← or_fail random_error draw.keys
    sign (authority_template now draw.serial) none keys.0 keys.1 keys.1

  -- Put a new pair of files in place of a certificate that does not exist.
  unfoldable pub write_new :
      Text → Name → Name → Issue (Bytes × Bytes) → Disk → Issue (Unit {0}) × Disk
  unfolding write_pair
  write_new dir cert key (failed e) d = (failed e, d)
  write_new dir cert key (done pair) d =
      let (wrote, d') = write_pair (path_of dir cert) (path_of dir key) pair d in
      (if wrote then done tt else failed write_error, d')

  abbrev pub pair_at :
      Stat → Text → Name → Name → Issue (Bytes × Bytes) → Disk → Issue (Unit {0}) × Disk
  pair_at missing dir cert key pair d = write_new dir cert key pair d
  pair_at present dir cert key pair d = (done tt, d)
  pair_at unknown dir cert key pair d = (done tt, d)

  unfoldable pub ensure_pair :
      Text → Name → Name → Issue (Bytes × Bytes) → Disk → Issue (Unit {0}) × Disk
  ensure_pair dir cert key pair d = pair_at (stat d (path_of dir cert)) dir cert key pair d

  unfoldable pub decode_authority : Text → Bytes → Bytes → Issue Authority
  decode_authority dir cert_pem key_pem = do
    cert_block ← or_fail invalid_pem (decode_pem cert_pem)
    key_block ← or_fail invalid_pem (decode_pem key_pem)
    cert ← or_fail parse_error (parse_certificate cert_block)
    any_key ← or_fail parse_error (parse_key key_block)
    key ← or_fail not_ed25519 any_key
    done (record { dir = dir; ca = cert; ca_key = key })

  unfoldable pub load_authority : Text → Disk → Issue Authority
  unfolding decode_authority
  load_authority dir d = do
    cert_pem ← or_fail read_error (read_file d (path_of dir ca_crt))
    key_pem ← or_fail read_error (read_file d (path_of dir ca_key))
    decode_authority dir cert_pem key_pem

  -- What comes after a step that may have changed the disk.
  abbrev pub then_on {ℓ κ} :
      {A : Type ℓ} {B : Type κ} → Issue A × Disk → (A → Disk → Issue B × Disk) → Issue B × Disk
  then_on (failed e, d) f = (failed e, d)
  then_on (done a, d) f = f a d

  unfoldable pub load_or_create_authority : ℕ → Text → Draw → Disk → Issue Authority × Disk
  unfolding new_authority ensure_pair load_authority
  load_or_create_authority now dir draw d =
      then_on (ensure_pair dir ca_crt ca_key (new_authority now draw) d)
        (λ _ d'. (load_authority dir d', d'))

  unfoldable pub load_bundle : Text → Disk → Issue Bundle
  load_bundle dir d = do
    cert ← or_fail read_error (read_file d (path_of dir host_crt))
    key ← or_fail read_error (read_file d (path_of dir host_key))
    ca ← or_fail read_error (read_file d (path_of dir ca_crt))
    done (record { certificate_pem = cert; private_key_pem = key; ca_pem = ca })

  unfoldable pub ensure_server :
      ℕ → Text → Text → Draw → Authority → Disk → Issue (Authority × Bundle) × Disk
  unfolding issue_server ensure_pair load_bundle
  ensure_server now dir public_name draw a d =
      then_on (ensure_pair dir host_crt host_key (issue_server now public_name draw a) d)
        (λ _ d'. (load_bundle dir d' >>= λ b. done (a, b), d'))

  -- The draws for the authority and for the certificate of the host.
  unfoldable pub ensure : ℕ → Text → Text → Draw → Draw → Disk → Issue (Authority × Bundle) × Disk
  unfolding load_or_create_authority ensure_server
  ensure now data_dir public_name ca_draw server_draw d =
      let dir = join data_dir (text "pki") in
      let (made, d1) = mkdir_all dir d in
      let rest =
        then_on (load_or_create_authority now dir ca_draw d1)
          (λ a d2. ensure_server now dir public_name server_draw a d2) in
      if made then rest else (failed directory_error, d1)
