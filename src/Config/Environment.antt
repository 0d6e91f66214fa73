-- ===== src/Config/Environment.antt =====
-- The environment file that the installer writes, read by the instance.
use ulcer.Prelude.{
  ◌≡◌, refl, ◌⊎◌, inl, inr, true, false, not, Text, text, some, [], ◌∷◌, ◌++◌, arith, all, any,
  text_eq, text_eq_refl, ◌==◌, Option-cases,
}
use ulcer.Config.{env_or, instance_from_env}
use ulcer.Api.Machines.{validate_instance_name}
use ulcer.SshInstall.Checks.{
  Net, safe_uuid, safe_environment_value, valid_endpoint, valid_server_name, render_instance_env,
}
use ulcer.SshInstall.Safety.{lines, checked, lines-render_instance_env}

-- An environment that holds the values of a file: each line is a name, the first `=` and a value.
abbrev pub IsReadFrom : Text → (Text → Text) → Type 0
IsReadFrom file getenv =
    (key value : Text)
    → all (λ c. not (c == b'=')) key ≡ true
    → any (text_eq (key ++ b'=' ∷ value)) (lines file) ≡ true
    → getenv key ≡ value

env_or-eq :
    (getenv : Text → Text) (key fallback value : Text)
    → getenv key ≡ value
    → text_eq value [] ≡ false
    → env_or getenv key fallback ≡ value
unfolding env_or
env_or-eq getenv key fallback value h ne = rw (h, ne) refl

uuid-ne-nil : (id : Text) → safe_uuid id ≡ true → text_eq id [] ≡ false
unfolding safe_uuid
uuid-ne-nil [] h = absurd (ground arith)
uuid-ne-nil (c ∷ s) h = refl

name-ne-nil : (name : Text) → validate_instance_name name ≡ true → text_eq name [] ≡ false
unfolding validate_instance_name
name-ne-nil [] h = absurd (ground arith)
name-ne-nil (c ∷ s) h = refl

module _ ⦃net : Net⦄ where
  open net use {split_host_port, split_host_port-eq-some}

  server_name-ne-nil : (s : Text) → valid_server_name s ≡ true → text_eq s [] ≡ false
  unfolding valid_server_name safe_environment_value
  server_name-ne-nil [] h = absurd (ground arith)
  server_name-ne-nil (c ∷ s) h = refl

  split-ne-nil :
      (endpoint host port : Text)
      → (endpoint ≡ host ++ b':' ∷ port) ⊎ (endpoint ≡ b'[' ∷ host ++ b']' ∷ b':' ∷ port)
      → text_eq endpoint [] ≡ false
  split-ne-nil endpoint [] port (inl h) = rw h refl
  split-ne-nil endpoint (c ∷ host) port (inl h) = rw h refl
  split-ne-nil endpoint host port (inr h) = rw h refl

  endpoint-ne-nil : (s : Text) → valid_endpoint s ≡ true → text_eq s [] ≡ false
  unfolding valid_endpoint
  endpoint-ne-nil s h = elim (Option-cases (split_host_port s)) [
    | inl e ↦ absurd (ground arith)
    | inr (q, e) ↦ split-ne-nil s q.0 q.1 (split_host_port-eq-some s q.0 q.1 e)
  ]

  -- An instance that starts with the environment file that the installer has written for it has the
  -- identity, the name, the host and the server name that the file was written for, and the files of
  -- its identity at the places where the unit mounts them.
  pub instance_from_env-render_instance_env :
      (join_path : Text → Text → Text) (getenv : Text → Text)
      (id name endpoint server_name file : Text)
      → render_instance_env id name endpoint server_name ≡ some file
      → IsReadFrom file getenv
      → instance_from_env join_path getenv
        ≡ some (record {
          id = id;
          name = name;
          host = endpoint;
          server_name = server_name;
          data_dir = text "/var/lib/ulcer-instance";
          cert_file = text "/run/ulcer-identity/instance.crt";
          key_file = text "/run/ulcer-identity/instance.key";
          ca_file = text "/run/ulcer-identity/ca.crt";
        })
  unfolding instance_from_env render_instance_env
  instance_from_env-render_instance_env join_path getenv id name endpoint server_name file h read =
      let is_lines = lines-render_instance_env id name endpoint server_name file h in
      let (uuid, named, address, server, _) =
        checked (safe_uuid id) (validate_instance_name name) (valid_endpoint endpoint)
          (valid_server_name server_name) _ file h in
      let e1 =
        read (text "ULCER_INSTANCE_ID") id refl (rw is_lines (ground (arith, text_eq_refl id))) in
      let e2 =
        read (text "ULCER_INSTANCE_NAME") name refl
          (rw is_lines (ground (arith, text_eq_refl name))) in
      let e3 =
        read (text "ULCER_HOST_GRPC") endpoint refl
          (rw is_lines (ground (arith, text_eq_refl endpoint))) in
      let e4 =
        read (text "ULCER_HOST_SERVER_NAME") server_name refl
          (rw is_lines (ground (arith, text_eq_refl server_name))) in
      let f1 =
        read (text "ULCER_INSTANCE_DATA_DIR") (text "/var/lib/ulcer-instance") refl
          (rw is_lines (ground arith)) in
      let f2 =
        read (text "ULCER_INSTANCE_CERT") (text "/run/ulcer-identity/instance.crt") refl
          (rw is_lines (ground arith)) in
      let f3 =
        read (text "ULCER_INSTANCE_KEY") (text "/run/ulcer-identity/instance.key") refl
          (rw is_lines (ground arith)) in
      let f4 =
        read (text "ULCER_INSTANCE_CA") (text "/run/ulcer-identity/ca.crt") refl
          (rw is_lines (ground arith)) in
      let n2 =
        env_or-eq getenv (text "ULCER_INSTANCE_NAME") (text "local-instance") name e2
          (name-ne-nil name named) in
      let n3 =
        env_or-eq getenv (text "ULCER_HOST_GRPC") (text "localhost:8443") endpoint e3
          (endpoint-ne-nil endpoint address) in
      let n4 =
        env_or-eq getenv (text "ULCER_HOST_SERVER_NAME") (text "localhost") server_name e4
          (server_name-ne-nil server_name server) in
      let dir = env_or getenv (text "ULCER_INSTANCE_DATA_DIR") (text "./data/instance") in
      let g1 =
        env_or-eq getenv (text "ULCER_INSTANCE_DATA_DIR") (text "./data/instance") _ f1 refl in
      let g2 =
        env_or-eq getenv (text "ULCER_INSTANCE_CERT") (join_path dir (text "instance.crt")) _ f2
          refl in
      let g3 =
        env_or-eq getenv (text "ULCER_INSTANCE_KEY") (join_path dir (text "instance.key")) _ f3
          refl in
      let g4 =
        env_or-eq getenv (text "ULCER_INSTANCE_CA") (join_path dir (text "ca.crt")) _ f4 refl in
      let present : text_eq (getenv (text "ULCER_INSTANCE_ID")) [] ≡ false =
        rw e1 (uuid-ne-nil id uuid) in
      rw present (λ i. some (record {
        id = e1 i;
        name = n2 i;
        host = n3 i;
        server_name = n4 i;
        data_dir = g1 i;
        cert_file = g2 i;
        key_file = g3 i;
        ca_file = g4 i;
      }))
