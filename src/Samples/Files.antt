-- ===== src/Samples/Files.antt =====
-- Files as a list of paths with what was written last first, and certificates that are the list of
-- their URIs.
use ulcer.Prelude.{
  ℕ, ◌+◌, ◌*◌, ◌≡◌, ◌≢◌, refl, sym, true, Bytes, Text, Option, none, some, List, [], ◌∷◌, ◌++◌,
  length, arith, text_eq, text_eq_refl, if◌then◌else◌, ◌∙◌,
}
use ulcer.Pki.Outside.{Parts, Stat, present, missing, Template, name_text}
use ulcer.Samples.Codec.{put_texts, take_texts, take-put_texts}

abbrev Files : Type 0
Files = List (Text × Bytes)

abbrev file : Files → Text → Option Bytes
file [] path = none
file ((p, b) ∷ d) path = if text_eq p path then some b else file d path

abbrev stat_of : Option Bytes → Stat
stat_of none = missing
stat_of (some b) = present

abbrev pub in_dir : Text → Text → Text
in_dir dir n = dir ++ b'/' ∷ n

pub append-text_eq : (p s t : Text) → text_eq (p ++ s) (p ++ t) ≡ text_eq s t
append-text_eq [] s t = refl
append-text_eq (c ∷ p) s t = ground (arith, append-text_eq p s t)

abbrev encode_certificate : Template → Bytes
encode_certificate t = length t.uris ∷ put_texts t.uris []

abbrev uris_read : Option (List Text × Bytes) → Option (List Text)
uris_read none = none
uris_read (some (uris, rest)) = some uris

abbrev certificate_of : Bytes → Option (List Text)
certificate_of [] = none
certificate_of (n ∷ b) = uris_read (take_texts n b)

pub parse-encode :
    (t : Template) (der : Bytes)
    → some (encode_certificate t) ≡ some der
    → (c : List Text) × (certificate_of der ≡ some c) × (c ≡ t.uris)
parse-encode t der h =
    let same : encode_certificate t ≡ der = ground arith in
    (t.uris, rw (sym same, take-put_texts t.uris []) refl, refl)

pub file_of_first : (path : Text) (b : Bytes) (d : Files) → file ((path, b) ∷ d) path ≡ some b
file_of_first path b d = rw (text_eq_refl path) refl

pub file-stat : (o : Option Bytes) (b : Bytes) → o ≡ some b → stat_of o ≢ missing
file-stat none b h = absurd (ground arith)
file-stat (some c) b h = λ e. absurd (ground arith)

-- Every call succeeds, and a directory needs no entry.
instance abbrev pub sample_parts : Parts
sample_parts = record {
  Disk = Files;
  PublicKey = ℕ;
  PrivateKey = ℕ;
  Certificate = List Text;
  join = in_dir;
  stat = λ d path. stat_of (file d path);
  read_file = file;
  write_file = λ path b d. (true, (path, b) ∷ d);
  mkdir_all = λ path d. (true, d);
  create_certificate = λ t parent public signer. some (encode_certificate t);
  marshal_key = λ key. some (key ∷ []);
  encode_pem = λ kind b. b;
  decode_pem = λ b. some b;
  parse_certificate = certificate_of;
  parse_key = λ b. some (some (length b));
  certificate_uris = λ uris. uris;
  parse_url = λ s. some s;
  parse_ip = λ s. none;
  add_years = λ years now. now + years * 31536000;
  write_file-read = λ path b d wrote. file_of_first path b d;
  write_file_other = λ path other b d ne. (rw ne refl, rw ne refl);
  mkdir_all_other = λ path n d. (refl, refl);
  read_file-stat = λ path b d. file-stat (file d path) b;
  join_ne = λ path n m h. append-text_eq path (b'/' ∷ name_text n) (b'/' ∷ name_text m) ∙ h;
  decode-encode_pem = λ kind b. refl;
  parse-create_certificate = λ t parent public signer der h. parse-encode t der h;
}
