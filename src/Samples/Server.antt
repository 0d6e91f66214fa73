-- ===== src/Samples/Server.antt =====
-- A server on which the installation is run.
use ulcer.Prelude.{
  ℕ, suc, ◌||◌, ◌≡◌, Bool, true, false, not, Bytes, Text, text, some, [], ◌∷◌, arith, if◌then◌else◌,
  ltb, text_eq,
}
use ulcer.Samples.{sample_platform}
use ulcer.Samples.Net.{sample_net}
use ulcer.Control.Hub.{new_hub, reserve, activate}
use ulcer.Control.Server.{World}
use ulcer.Config.{Host}
use ulcer.SshInstall.Remote.{Remote, Request, Handshake, connected, refused_key}
use ulcer.SshInstall.Job.{Site}
use ulcer.SshInstall.Enrolment.{packages_command}
use ulcer.SshInstall.Install.{Surroundings}
use ulcer.Events.{new_bus}

abbrev pub key : Text
key = text "SHA256:0123456789abcdef0123456789abcdef"

abbrev pub shake : (Text → Bool) → Handshake Text
shake callback = if callback key then connected key else refused_key

pub shake_checked :
    (callback : Text → Bool) (c : Text) → shake callback ≡ connected c → callback c ≡ true
shake_checked callback c h = ground arith

-- Each step takes a second. From the second 100 on no package is installed.
instance abbrev pub sample_remote : Remote
sample_remote = record {
  Machine = ℕ;
  Client = Text;
  Signer = Bytes;
  parse_private_key = λ b. some b;
  parse_private_key_with_passphrase = λ b q. some b;
  dial = λ a n m. (true, suc m);
  set_deadline = λ m. (true, suc m);
  new_client_conn = λ user auth callback m. (shake callback, suc m);
  shown_key = λ c. c;
  run = λ c command b m. (not (text_eq command packages_command) || ltb m 100, suc m);
  is_ended = λ m. false;
  now = λ m. m;
  tick = λ m. suc m;
  new_client_conn_checked = λ user auth callback m c h. shake_checked callback c h;
}

abbrev pub identity : Text
identity = text "01234567-89ab-cdef-0123-456789abcdef"

abbrev pub image : Text
image = text "ghcr.io/u/i@sha256:0123456789abcdef0123456789abcdef0123456789abcdef0123456789abcdef"

abbrev pub configured : Host
configured = record {
  http_addr = [];
  grpc_addr = [];
  data_dir = [];
  public_name = text "host.net";
  public_grpc = text "host.net:443";
  instance_image = image;
  setup_token = [];
}

-- In every step of the others the instance connects anew.
abbrev pub joins : ℕ → World → World
joins m w = record w { hub = (activate w.hub.next (reserve identity w.hub).0).0 }

abbrev pub surroundings : Surroundings
surroundings = record {
  others = joins;
  ticks = 2;
  base64 = record { decode = λ t. some t; encode = λ t. t };
  lookup = λ name. some (8 ∷ 9 ∷ []);
  config = configured;
  id = identity;
  issued = some (record { certificate = text "crt"; private_key = text "key"; ca = text "ca" });
}

abbrev pub request : Request
request = record {
  name = text "eu-1";
  host = text "host.net";
  port = 22;
  user = text "root";
  host_key_sha256 = key;
  password = text "secret";
  private_key_pem = [];
  private_key_password = [];
}

-- Before the second 100 an installation succeeds, and later it fails.
abbrev pub site : ℕ → Site
site m = record { world = record { db = []; bus = new_bus; hub = new_hub }; slots = 1; machine = m }
