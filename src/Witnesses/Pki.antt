-- ===== src/Witnesses/Pki.antt =====
-- The certificates of the host at concrete files.
use ulcer.Prelude.{
  ℕ, ◌≡◌, refl, Bytes, Text, text, none, some, List, [], ◌∷◌, text_eq, if◌then◌else◌,
}
use ulcer.Samples.Files.{sample_parts}
use ulcer.Pki.{
  PkiError, done, failed, Draw, Authority, Bundle, write_new, ensure, issue_instance, instance_uri,
}
use ulcer.Pki.Restart.{ensure-ensure}
use ulcer.Samples.{sample_platform}
use ulcer.Events.{new_bus}
use ulcer.Control.Hub.{new_hub}
use ulcer.Api.Machines.{create_instance, new_instance}
use ulcer.Api.Machines.Enrolment.{create_instance-authorize_instance}
use ulcer.Pki.Interrupted.{Start, restart, ensure_interrupted}
use ulcer.Control.Server.{World, permission_denied}
use ulcer.Control.Stream.{verified, authorize_instance}

abbrev draw : ℕ → Draw
draw n = record { keys = some (n, n); serial = n }

abbrev data_dir : Text
data_dir = text "/d"

abbrev pki_dir : Text
pki_dir = text "/d/pki"

abbrev started : Authority × Bundle
started = (
  record { dir = pki_dir; ca = []; ca_key = 1 },
  record { certificate_pem = 0 ∷ []; private_key_pem = 2 ∷ []; ca_pem = 0 ∷ [] },
)

abbrev after_start : List (Text × Bytes)
after_start =
    (text "/d/pki/host.key", 2 ∷ [])
    ∷ (text "/d/pki/host.crt", 0 ∷ [])
    ∷ (text "/d/pki/ca.key", 1 ∷ [])
    ∷ (text "/d/pki/ca.crt", 0 ∷ [])
    ∷ []

ensure-ensure_example :
    ensure 9000 data_dir (text "other.example") (draw 5) (draw 6) after_start
    ≡ (done started, after_start)
unfolding ensure write_new
ensure-ensure_example =
    ensure-ensure 1000 9000 data_dir (text "host.example") (text "other.example") (draw 1) (draw 2)
      (draw 5) (draw 6) [] after_start started refl refl

abbrev issued : Bundle
issued = record {
  certificate_pem = 1 ∷ 26 ∷ text "spiffe://ulcer/instance/r1";
  private_key_pem = 3 ∷ [];
  ca_pem = 0 ∷ [];
}

abbrev empty : World
empty = record { db = []; bus = new_bus; hub = new_hub }

-- What the creation of the instance leaves.
abbrev enrolled : World
enrolled =
    (create_instance 7 (some (text "one")) (text "r1") (draw 3) started.0 after_start empty).1

create_instance-authorize_instance_example :
    (block : Bytes) × (cert : List Text) × (some issued.certificate_pem ≡ some block)
    × (sample_parts.parse_certificate block ≡ some cert)
    × ((other : Text)
        → authorize_instance text_eq (verified cert) other ≡ (
            if text_eq (instance_uri (text "r1")) (instance_uri other)
            then none
            else some permission_denied))
unfolding issue_instance create_instance
create_instance-authorize_instance_example =
    create_instance-authorize_instance text_eq 7 (some (text "one")) (text "r1") (draw 3) started.0
      after_start issued (new_instance 7 (text "r1") (text "one")) empty enrolled refl refl

abbrev later : Start
later = record { now = 9000; name = text "host.example"; ca_draw = draw 5; server_draw = draw 6 }

ensure_interrupted_example :
    (e : PkiError) × ((ensure 9000 data_dir
        (text "host.example")
        (draw 5)
        (draw 6)
        (restart data_dir (later ∷ []) ((text "/d/pki/ca.crt", 0 ∷ []) ∷ []))).0
      ≡ failed e)
ensure_interrupted_example = ensure_interrupted data_dir (0 ∷ []) (later ∷ []) later [] refl refl
