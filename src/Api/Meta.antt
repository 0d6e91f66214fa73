-- ===== src/Api/Meta.antt =====
-- internal/api/api.go and internal/sshinstall/target.go: what the API says of the host, and of the
-- host key of a server on which an instance is to be installed.
pub mod Probing
use ulcer.Prelude.{ℕ, Bool, true, false, Text, text, Option, none, some, List, if◌then◌else◌}
use ulcer.Config.{Host}
use ulcer.BuildInfo.{Linked, RuntimeInfo, current, source_revision_url}
use ulcer.SshInstall.Checks.{Net, Target, invalid_target, blocked, resolved, resolve_target}
use ulcer.SshInstall.Remote.{Remote, dial_target}
use ulcer.SshInstall.Install.{available}
use ulcer.Api.Response.{Response, replies, refuses, malformed}

pub record Meta : Type 0 where
  pub version : Text
  pub revision : Text
  pub source_ref : Text
  pub source_url : Text
  pub license_url : Text
  pub grpc_endpoint : Text
  pub grpc_server_name : Text
  pub instance_image : Text
  pub ssh_install_available : Bool

unfoldable pub meta : ⦃net : Net⦄ → Linked → Option RuntimeInfo → Host → Meta
unfolding current source_revision_url available
meta linked runtime config =
    let info = current linked runtime in
    record {
      version = info.version;
      revision = info.revision;
      source_ref = info.source_ref;
      source_url = source_revision_url info.revision;
      license_url = info.license_url;
      grpc_endpoint = config.public_grpc;
      grpc_server_name = config.public_name;
      instance_image = config.instance_image;
      ssh_install_available = available config;
    }

pub record HostKey : Type 0 where
  pub algorithm : Text
  pub fingerprint : Text

pub data ProbeError : Type 0 where
  err_invalid_target err_target_blocked handshake_failed : ProbeError

pub data Probe : Type 0 where
  shows : HostKey → Probe
  probe_fails : ProbeError → Probe

module _ ⦃net : Net⦄ ⦃remote : Remote⦄ where
  open net use {Addr}
  open remote use {Machine}

  abbrev pub after_capture : Option HostKey × Machine → Probe × Machine
  after_capture (none, m) = (probe_fails handshake_failed, m)
  after_capture (some key, m) = (shows key, m)

  abbrev pub answer_probe : Probe × Machine → Response HostKey × Machine
  answer_probe (shows key, m) = (replies 200 key, m)
  answer_probe (probe_fails err_invalid_target, m) = (refuses 400 (text "invalid_ssh_target"), m)
  answer_probe (probe_fails err_target_blocked, m) = (refuses 400 (text "invalid_ssh_target"), m)
  answer_probe (probe_fails handshake_failed, m) = (refuses 502 (text "ssh_probe_failed"), m)

  -- The handshake whose callback notes the key and refuses it; `none` is an end without a key, or
  -- with an error that is not that of the callback.
  module _ (capture : Machine → Option HostKey × Machine) where
    unfoldable pub probe_resolved_host_key : Addr → ℕ → Machine → Probe × Machine
    unfolding dial_target
    probe_resolved_host_key address port m =
        let (dialed, m') = dial_target address port m in
        let captured = after_capture (capture m') in
        if dialed then captured else (probe_fails handshake_failed, m')

    abbrev pub probe_target : Target → Machine → Probe × Machine
    probe_target invalid_target m = (probe_fails err_invalid_target, m)
    probe_target blocked m = (probe_fails err_target_blocked, m)
    probe_target (resolved host address port) m = probe_resolved_host_key address port m

    unfoldable pub probe_host_key :
        (Text → Option (List Addr)) → Text → ℕ → Machine → Probe × Machine
    unfolding resolve_target
    probe_host_key lookup host port m = probe_target (resolve_target lookup host port) m

    -- A request is `none` where decodeJSON refuses it.
    unfoldable pub ssh_host_key :
        (Text → Option (List Addr)) → Option (Text × ℕ) → Machine → Response HostKey × Machine
    unfolding probe_host_key
    ssh_host_key lookup none m = (malformed, m)
    ssh_host_key lookup (some (host, port)) m = answer_probe (probe_host_key lookup host port m)
