-- ===== src/Witnesses/Installation.antt =====
-- The checks of an SSH installation at concrete inputs.
use ulcer.Prelude.{
  not, sym, ap, ◌∙◌, text_eq, text_eq_sound, any, All, Bool-cases, inl, inr, if◌then◌else◌, arith,
  ◌≡◌, refl, true, Text, text, none, some, List, [], ◌∷◌, ◌++◌, ◌==◌, all,
}
use ulcer.Samples.Net.{sample_net}
use ulcer.Samples.Server.{identity}
use ulcer.Config.{instance_from_env}
use ulcer.Config.Environment.{IsReadFrom, instance_from_env-render_instance_env}
use ulcer.SshInstall.Checks.{render_instance_env, line, fixed_lines}
use ulcer.SshInstall.Image.{cut, cut_prefix}
use ulcer.SshInstall.Safety.{lines}

abbrev environment : Text
environment = line (text "ULCER_INSTANCE_ID=") identity (
    line (text "ULCER_INSTANCE_NAME=") (text "eu-1") (
      line (text "ULCER_HOST_GRPC=") (text "host.net:443")
        (line (text "ULCER_HOST_SERVER_NAME=") (text "host.net") fixed_lines)))

cut_mark :
    (key value : Text)
    → all (λ c. not (c == b'=')) key ≡ true
    → cut (text "=") (key ++ b'=' ∷ value) ≡ some (key, value)
unfolding cut cut_prefix
cut_mark [] value h = refl
cut_mark (c ∷ key) value h = ground (arith, cut_mark key value)

abbrev read_env : List (Text × Text) → Text → Text
read_env [] key = []
read_env ((k, v) ∷ kvs) key = if text_eq k key then v else read_env kvs key

abbrev variables : List (Text × Text)
variables =
    (text "ULCER_INSTANCE_ID", identity)
    ∷ (text "ULCER_INSTANCE_NAME", text "eu-1")
    ∷ (text "ULCER_HOST_GRPC", text "host.net:443")
    ∷ (text "ULCER_HOST_SERVER_NAME", text "host.net")
    ∷ (text "ULCER_INSTANCE_DATA_DIR", text "/var/lib/ulcer-instance")
    ∷ (text "ULCER_INSTANCE_CERT", text "/run/ulcer-identity/instance.crt")
    ∷ (text "ULCER_INSTANCE_KEY", text "/run/ulcer-identity/instance.key")
    ∷ (text "ULCER_INSTANCE_CA", text "/run/ulcer-identity/ca.crt")
    ∷ []

abbrev Gives : Text → Type 0
Gives l =
    (key value : Text)
    → all (λ c. not (c == b'=')) key ≡ true
    → key ++ b'=' ∷ value ≡ l
    → read_env variables key ≡ value

gives :
    (k v : Text)
    → all (λ c. not (c == b'=')) k ≡ true
    → read_env variables k ≡ v
    → Gives (k ++ b'=' ∷ v)
gives k v plain read key value h same =
    let pairs : some (key, value) ≡ some (k, v) =
      sym (cut_mark key value h) ∙ ap (cut (text "=")) same ∙ cut_mark k v plain in
    let pair : (key, value) ≡ (k, v) =
      ap (λ o. elim o as (λ _. Text × Text) [ none ↦ ([], []) | some q ↦ q ]) pairs in
    ap (λ q. read_env variables q.0) pair ∙ read ∙ sym (ap (λ q. q.1) pair)

no_line : Gives []
no_line [] value h same = absurd (ground arith)
no_line (c ∷ key) value h same = absurd (ground arith)

any-All :
    (P : Text → Type 0) (x : Text) (ls : List Text)
    → All P ls
    → any (text_eq x) ls ≡ true
    → (l : Text) × (x ≡ l) × P l
any-All P x [] h m = absurd (ground arith)
any-All P x (l ∷ ls) h m = elim (Bool-cases (text_eq x l)) [
  | inl e ↦ (l, text_eq_sound x l e, h.0)
  | inr e ↦ any-All P x ls h.1 (ground arith)
]

environment-IsReadFrom : IsReadFrom environment (read_env variables)
environment-IsReadFrom key value h m =
    let (l, same, g) =
      any-All Gives (key ++ b'=' ∷ value) (lines environment)
        (
          gives (text "ULCER_INSTANCE_ID") identity refl refl,
          (
            gives (text "ULCER_INSTANCE_NAME") (text "eu-1") refl refl,
            (
              gives (text "ULCER_HOST_GRPC") (text "host.net:443") refl refl,
              (
                gives (text "ULCER_HOST_SERVER_NAME") (text "host.net") refl refl,
                (
                  gives (text "ULCER_INSTANCE_DATA_DIR") (text "/var/lib/ulcer-instance") refl refl,
                  (
                    gives (text "ULCER_INSTANCE_CERT") (text "/run/ulcer-identity/instance.crt")
                        refl refl,
                    (
                      gives (text "ULCER_INSTANCE_KEY") (text "/run/ulcer-identity/instance.key")
                          refl refl,
                      (
                        gives (text "ULCER_INSTANCE_CA") (text "/run/ulcer-identity/ca.crt") refl
                            refl,
                        (no_line, tt),
                      ),
                    ),
                  ),
                ),
              ),
            ),
          ),
        )
        m in
    g key value h same

instance_from_env-render_instance_env_example :
    instance_from_env (λ a b. a ++ b) (read_env variables)
    ≡ some (record {
      id = identity;
      name = text "eu-1";
      host = text "host.net:443";
      server_name = text "host.net";
      data_dir = text "/var/lib/ulcer-instance";
      cert_file = text "/run/ulcer-identity/instance.crt";
      key_file = text "/run/ulcer-identity/instance.key";
      ca_file = text "/run/ulcer-identity/ca.crt";
    })
unfolding render_instance_env
instance_from_env-render_instance_env_example =
    instance_from_env-render_instance_env (λ a b. a ++ b) (read_env variables) identity
      (text "eu-1") (text "host.net:443") (text "host.net") environment refl environment-IsReadFrom
