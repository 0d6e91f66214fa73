-- ===== src/Config.antt =====
-- internal/config/config.go: the settings of the host and of an instance, from their environments.
-- An environment variable that is not set reads as the empty text.
pub mod Environment
use ulcer.Prelude.{
  Text, text, Option, none, some, [], ◌∷◌, text_eq, trim_space, if◌then◌else◌, ◌&&◌,
}
use ulcer.SshInstall.Checks.{starts_with, ends_with, trim_suffix, drop_first}

pub record Host : Type 0 where
  pub http_addr : Text
  pub grpc_addr : Text
  pub data_dir : Text
  pub public_name : Text
  pub public_grpc : Text
  pub instance_image : Text
  pub setup_token : Text

pub record Instance : Type 0 where
  pub id : Text
  pub name : Text
  pub host : Text
  pub server_name : Text
  pub data_dir : Text
  pub cert_file : Text
  pub key_file : Text
  pub ca_file : Text

-- `getenv` is os.Getenv.
unfoldable pub env_or : (Text → Text) → Text → Text → Text
env_or getenv key fallback = if text_eq (getenv key) [] then fallback else getenv key

unfoldable pub public_host : Text → Text
unfolding trim_space
public_host value =
    let host = trim_space value in
    if starts_with b'[' host && ends_with b']' host
    then trim_suffix b']' (drop_first host)
    else host

-- `join` is net.JoinHostPort.
unfoldable pub public_grpc_default : (Text → Text → Text) → Text → Text
unfolding public_host
public_grpc_default join public_name =
    let host = public_host public_name in
    join (if text_eq host [] then text "localhost" else host) (text "8443")

unfoldable pub host_from_env : (Text → Text → Text) → (Text → Text) → Host
unfolding env_or public_host public_grpc_default
host_from_env join getenv =
    let public_name = public_host (env_or getenv (text "ULCER_PUBLIC_NAME") (text "localhost")) in
    record {
      http_addr = env_or getenv (text "ULCER_HTTP_ADDR") (text "127.0.0.1:8080");
      grpc_addr = env_or getenv (text "ULCER_GRPC_ADDR") (text "127.0.0.1:8443");
      data_dir = env_or getenv (text "ULCER_DATA_DIR") (text "./data/host");
      public_name = public_name;
      public_grpc = env_or getenv (text "ULCER_PUBLIC_GRPC") (public_grpc_default join public_name);
      instance_image = getenv (text "ULCER_INSTANCE_IMAGE");
      setup_token = getenv (text "ULCER_SETUP_TOKEN");
    }

-- `join_path` is filepath.Join; `none` is the error for a missing identity.
unfoldable pub instance_from_env : (Text → Text → Text) → (Text → Text) → Option Instance
unfolding env_or
instance_from_env join_path getenv =
    let data_dir = env_or getenv (text "ULCER_INSTANCE_DATA_DIR") (text "./data/instance") in
    if text_eq (getenv (text "ULCER_INSTANCE_ID")) []
    then none
    else some (record {
      id = getenv (text "ULCER_INSTANCE_ID");
      name = env_or getenv (text "ULCER_INSTANCE_NAME") (text "local-instance");
      host = env_or getenv (text "ULCER_HOST_GRPC") (text "localhost:8443");
      server_name = env_or getenv (text "ULCER_HOST_SERVER_NAME") (text "localhost");
      data_dir = data_dir;
      cert_file =
          env_or getenv (text "ULCER_INSTANCE_CERT") (join_path data_dir (text "instance.crt"));
      key_file =
          env_or getenv (text "ULCER_INSTANCE_KEY") (join_path data_dir (text "instance.key"));
      ca_file = env_or getenv (text "ULCER_INSTANCE_CA") (join_path data_dir (text "ca.crt"));
    })
