-- ===== src/SshInstall/Install.antt =====
-- internal/sshinstall/install.go: Install, its checks and what is done before PutInstance.
pub mod Lifting
pub mod Failure
pub mod Success
pub mod Reach
use ulcer.Prelude.{
  ℕ, zero, suc, ◌+◌, ◌-◌, Bool, true, false, ◌&&◌, ◌||◌, not, Bytes, Text, text, Option, none, some,
  List, [], ◌∷◌, ◌++◌, text_eq, ltb, if◌then◌else◌,
}
use ulcer.Result.{Result, ok, err}
use ulcer.Model.{Instance, Value, label, flag}
use ulcer.Platform.{Platform}
use ulcer.Config.{Host}
use ulcer.Store.Instances.{instance, put_instance, delete_instance}
use ulcer.Control.Hub.{revoke, release, online, if_online}
use ulcer.Control.Server.{World, event, publish_event}
use ulcer.Api.Machines.{validate_instance_name, new_instance}
use ulcer.SshInstall.Checks.{
  Net, valid_endpoint, valid_server_name, render_instance_env, resolve_target, Target,
  invalid_target, blocked, resolved,
}
use ulcer.SshInstall.Image.{
  Base64, valid_image, render_unit, fingerprint_callback, instance_directory,
}
use ulcer.SshInstall.Remote.{
  Request, AuthMethod, Remote, Connecting, succeeds, fails_with, ConnectError, host_key_mismatch,
  connection_failed, authentication_method, connect_to, run_command, prepare_remote, upload_file,
  cleanup_remote, unit_name,
}
use ulcer.SshInstall.Job.{
  InstallError, err_unavailable, err_invalid_name, err_invalid_user, err_invalid_host_key, err_busy,
  err_invalid_auth, err_invalid_target, err_target_blocked, err_host_key_mismatch, err_connect,
  err_preflight, err_install, err_online, Outcome, done, failed, Site, Job, ◌>>=◌, ◌>>◌, must,
}
use ulcer.SshInstall.Enrolment.{Setting, Credentials, enrol}

abbrev pub install_slots : ℕ
install_slots = 2

abbrev pub preflight_command : Text
preflight_command =
    text
      "test \"$(id -u)\" = 0 && test -r /etc/os-release && . /etc/os-release && case \"${ID:-}\" in debian|ubuntu) ;; *) exit 20 ;; esac && "
    ++ text
        "case \"$(uname -m)\" in x86_64|amd64) ;; *) exit 21 ;; esac && test -d /run/systemd/system && command -v systemctl >/dev/null && test -r /sys/fs/cgroup/cgroup.controllers"

abbrev pub connect_outcome {ℓ} : {A : Type ℓ} → Bool → ConnectError → Outcome A
connect_outcome ended host_key_mismatch = failed err_host_key_mismatch
connect_outcome ended connection_failed = failed (if ended then err_install else err_connect)

unfoldable pub available : ⦃net : Net⦄ → Host → Bool
unfolding valid_image valid_endpoint valid_server_name
available c =
    valid_image c.instance_image && valid_endpoint c.public_grpc && valid_server_name c.public_name

module _ ⦃p : Platform⦄ ⦃net : Net⦄ ⦃remote : Remote⦄ where
  open net use {Addr}
  open remote use {Machine, Client, Signer, is_ended, now, tick}

  -- What surrounds a request: the arguments that are not of the program.
  pub record Surroundings : Type 0 where
    pub others : Machine → World → World
    pub ticks : ℕ
    pub base64 : Base64
    pub lookup : Text → Option (List Addr)
    pub config : Host
    -- uuid.NewString, and the result of IssueInstanceFiles.
    pub id : Text
    pub issued : Option Credentials

  abbrev pub leave_slot : Outcome Instance × Site → Outcome Instance × Site
  leave_slot (o, s) = (o, record s { slots = s.slots - 1 })

  abbrev pub is_some {ℓ} : {A : Type ℓ} → Option A → Bool
  is_some none = false
  is_some (some _) = true

  module _ (e : Surroundings) (r : Request) where
    abbrev pub setting :
        Addr → ℕ → AuthMethod Signer → Client → Bytes → Bytes → Credentials → Setting
    setting address port auth client environment unit credentials = record {
      others = e.others;
      ticks = e.ticks;
      id = e.id;
      name = r.name;
      image = e.config.instance_image;
      address = address;
      port = port;
      user = r.user;
      confirmed = r.host_key_sha256;
      auth = auth;
      client = client;
      environment = environment;
      unit = unit;
      credentials = credentials;
    }

    -- After renderInstanceEnv, renderUnit and IssueInstanceFiles, in this order.
    unfoldable pub with_files :
        Option Bytes
        → Option Bytes
        → Option Credentials
        → Addr
        → ℕ
        → AuthMethod Signer
        → Client
        → Job Instance
    unfolding enrol
    with_files none unit issued address port auth client s = (failed err_unavailable, s)
    with_files (some environment) none issued address port auth client s =
        (failed err_unavailable, s)
    with_files (some environment) (some unit) none address port auth client s =
        (failed err_install, s)
    with_files (some environment) (some unit) (some credentials) address port auth client s =
        enrol (setting address port auth client environment unit credentials) s

    unfoldable pub prepare : Addr → ℕ → AuthMethod Signer → Client → Job Instance
    unfolding render_instance_env render_unit with_files
    prepare =
        with_files (render_instance_env e.id r.name e.config.public_grpc e.config.public_name)
          (render_unit e.id e.config.instance_image) e.issued

    unfoldable pub after_connect : Addr → ℕ → AuthMethod Signer → Connecting Client → Job Instance
    unfolding prepare
    after_connect address port auth (fails_with error) s =
        (connect_outcome (is_ended s.machine) error, s)
    after_connect address port auth (succeeds client) s =
        (must err_preflight (run_command client preflight_command)
            >> prepare address port auth client)
          s

    unfoldable pub to_target : AuthMethod Signer → Target → Job Instance
    unfolding after_connect connect_to
    to_target auth invalid_target s = (failed err_invalid_target, s)
    to_target auth blocked s = (failed err_target_blocked, s)
    to_target auth (resolved host address port) s =
        let (connecting, m) = connect_to address port r.user r.host_key_sha256 auth s.machine in
        after_connect address port auth connecting (record s { machine = m })

    unfoldable pub with_auth : Option (AuthMethod Signer) → Job Instance
    unfolding to_target resolve_target
    with_auth none s = (failed err_invalid_auth, s)
    with_auth (some auth) s = to_target auth (resolve_target e.lookup r.host r.port) s

    -- The part of an installation that holds a slot.
    unfoldable pub in_slot : Job Instance
    unfolding authentication_method with_auth
    in_slot = with_auth (authentication_method r)

    -- The checks before a slot is taken, in their order.
    unfoldable pub refusal : Option InstallError
    unfolding available validate_instance_name fingerprint_callback
    refusal =
        if not (available e.config)
        then some err_unavailable
        else if not (validate_instance_name r.name)
        then some err_invalid_name
        else if not (text_eq r.user (text "root"))
        then some err_invalid_user
        else if not (is_some (fingerprint_callback e.base64 r.host_key_sha256))
        then some err_invalid_host_key
        else none

    unfoldable pub admitted : Option InstallError → Job Instance
    unfolding in_slot
    admitted (some error) s = (failed error, s)
    admitted none s =
        if ltb s.slots install_slots
        then leave_slot (in_slot (record s { slots = s.slots + 1 }))
        else (failed err_busy, s)

    unfoldable pub install : Job Instance
    unfolding refusal admitted
    install = admitted refusal
