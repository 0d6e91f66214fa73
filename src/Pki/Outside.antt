-- ===== src/Pki/Outside.antt =====
-- What internal/pki takes from os, path/filepath, crypto/x509 and encoding/pem, with the documented
-- behaviour that the package relies on.
use ulcer.Prelude.{ℕ, ◌≡◌, ◌≢◌, Bool, true, false, Bytes, Text, text, Option, some, List, text_eq}

-- os.Stat: the file is there, os.IsNotExist holds of the error, or another error.
pub data Stat : Type 0 where
  present missing unknown : Stat

-- The fields that the package sets in a certificate template; `is_ca` stands for the four fields of
-- an authority.
pub record Template : Type 0 where
  pub serial : ℕ
  pub common_name : Text
  pub not_before : ℕ
  pub not_after : ℕ
  pub key_usage : List Text
  pub ext_key_usage : List Text
  pub uris : List Text
  pub ip_addresses : List Text
  pub dns_names : List Text
  pub is_ca : Bool

-- The names of the files of the package.
pub data Name : Type 0 where
  ca_crt ca_key host_crt host_key : Name

abbrev pub name_text : Name → Text
name_text ca_crt = text "ca.crt"
name_text ca_key = text "ca.key"
name_text host_crt = text "host.crt"
name_text host_key = text "host.key"

pub record Parts : Type 1 where
  -- A state of the file system.
  pub Disk : Type 0
  pub PublicKey : Type 0
  -- ed25519.PrivateKey
  pub PrivateKey : Type 0
  -- A parsed certificate.
  pub Certificate : Type 0
  -- filepath.Join
  pub join : Text → Text → Text
  pub stat : Disk → Text → Stat
  -- os.ReadFile, `none` being an error.
  pub read_file : Disk → Text → Option Bytes
  -- os.WriteFile and os.MkdirAll, and whether they return no error.
  pub write_file : Text → Bytes → Disk → Bool × Disk
  pub mkdir_all : Text → Disk → Bool × Disk
  -- x509.CreateCertificate with a parent, or with the template as its own parent.
  pub create_certificate : Template → Option Certificate → PublicKey → PrivateKey → Option Bytes
  pub marshal_key : PrivateKey → Option Bytes
  pub encode_pem : Text → Bytes → Bytes
  -- pem.Decode, its block.
  pub decode_pem : Bytes → Option Bytes
  pub parse_certificate : Bytes → Option Certificate
  -- x509.ParsePKCS8PrivateKey and the type assertion; the second option is its result.
  pub parse_key : Bytes → Option (Option PrivateKey)
  -- The URIs of a certificate as texts, and url.Parse with URL.String.
  pub certificate_uris : Certificate → List Text
  pub parse_url : Text → Option Text
  -- net.ParseIP, as text.
  pub parse_ip : Text → Option Text
  -- Time.AddDate by some years.
  pub add_years : ℕ → ℕ → ℕ
  -- A file that was written reads back, and other files are left alone.
  pub write_file-read :
      (path : Text) (b : Bytes) (d : Disk)
      → (write_file path b d).0 ≡ true
      → read_file (write_file path b d).1 path ≡ some b
  pub write_file_other :
      (path other : Text) (b : Bytes) (d : Disk)
      → text_eq path other ≡ false
      → (read_file (write_file path b d).1 other ≡ read_file d other)
        × (stat (write_file path b d).1 other ≡ stat d other)
  -- A directory is made without a change to files in it.
  pub mkdir_all_other :
      (path : Text) (n : Name) (d : Disk)
      → (read_file (mkdir_all path d).1 (join path (name_text n))
          ≡ read_file d (join path (name_text n)))
        × (stat (mkdir_all path d).1 (join path (name_text n)) ≡ stat d (join path (name_text n)))
  -- What can be read is there.
  pub read_file-stat :
      (path : Text) (b : Bytes) (d : Disk) → read_file d path ≡ some b → stat d path ≢ missing
  -- Different names in a directory are different paths.
  pub join_ne :
      (path : Text) (n m : Name)
      → text_eq (name_text n) (name_text m) ≡ false
      → text_eq (join path (name_text n)) (join path (name_text m)) ≡ false
  pub decode-encode_pem : (kind : Text) (b : Bytes) → decode_pem (encode_pem kind b) ≡ some b
  -- A created certificate parses, with the URIs of its template.
  pub parse-create_certificate :
      (t : Template) (parent : Option Certificate) (public : PublicKey) (signer : PrivateKey)
      (der : Bytes)
      → create_certificate t parent public signer ≡ some der
      → (c : Certificate) × (parse_certificate der ≡ some c) × (certificate_uris c ≡ t.uris)
