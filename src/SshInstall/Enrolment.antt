-- ===== src/SshInstall/Enrolment.antt =====
-- internal/sshinstall/install.go: the part of Install from PutInstance on. Each call on the state that
-- the goroutines share is one step, and `others` is what other goroutines have done before it.
pub mod Rollback
pub mod Refused
use ulcer.Prelude.{
  ℕ, zero, suc, ◌+◌, ◌-◌, Bool, true, false, ◌&&◌, ◌||◌, not, Bytes, Text, text, Option, none, some,
  List, [], ◌∷◌, ◌++◌, text_eq, ltb, if◌then◌else◌,
}
use ulcer.Result.{Result, ok, err}
use ulcer.Model.{Instance, Value, label, flag}
use ulcer.Platform.{Platform}
use ulcer.Config.{Host}
use ulcer.Store.Instances.{instance, put_instance, delete_instance}
use ulcer.Control.Hub.{revoke, release, online, if_online}
use ulcer.Control.Server.{World, event, publish_event}
use ulcer.Api.Machines.{validate_instance_name, new_instance}
use ulcer.SshInstall.Checks.{
  Net, valid_endpoint, valid_server_name, render_instance_env, resolve_target, Target,
  invalid_target, blocked, resolved,
}
use ulcer.SshInstall.Image.{
  Base64, valid_image, render_unit, fingerprint_callback, instance_directory,
}
use ulcer.SshInstall.Remote.{
  Request, AuthMethod, Remote, Connecting, succeeds, fails_with, ConnectError, host_key_mismatch,
  connection_failed, authentication_method, connect_to, run_command, prepare_remote, upload_file,
  cleanup_remote, unit_name,
}
use ulcer.SshInstall.Job.{
  InstallError, err_unavailable, err_invalid_name, err_invalid_user, err_invalid_host_key, err_busy,
  err_invalid_auth, err_invalid_target, err_target_blocked, err_host_key_mismatch, err_connect,
  err_preflight, err_install, err_online, Outcome, done, failed, Site, Job, ◌>>=◌, ◌>>◌, must,
}

-- The files of IssueInstanceFiles.
pub record Credentials : Type 0 where
  pub certificate : Bytes
  pub private_key : Bytes
  pub ca : Bytes

abbrev pub packages_command : Text
packages_command =
    text
      "export DEBIAN_FRONTEND=noninteractive; apt-get update && apt-get install --yes --no-install-recommends "
    ++ text
        "aardvark-dns ca-certificates containernetworking-plugins fuse-overlayfs iproute2 nftables podman procps slirp4netns uidmap"

module _ ⦃p : Platform⦄ ⦃net : Net⦄ ⦃remote : Remote⦄ where
  open net use {Addr}
  open remote use {Machine, Client, Signer, is_ended, now, tick}

  unfoldable pub publish : ℕ → Text → Text → List (Text × Value) → World → World
  unfolding publish_event
  publish t event_type id details = publish_event t (event event_type id details)

  -- What an installation works with: its parameters beside the request, after the checks.
  pub record Setting : Type 0 where
    pub others : Machine → World → World
    -- How often the ticker wakes waitOnline before its timer, or the context, does.
    pub ticks : ℕ
    pub id : Text
    pub name : Text
    pub image : Text
    pub address : Addr
    pub port : ℕ
    pub user : Text
    pub confirmed : Text
    pub auth : AuthMethod Signer
    pub client : Client
    pub environment : Bytes
    pub unit : Bytes
    pub credentials : Credentials

  module _ (g : Setting) where
    -- The call comes after what the others have done.
    abbrev pub meet : Site → Site
    meet s = record s { world = g.others s.machine s.world; machine = tick s.machine }

    abbrev pub publishes : Text → List (Text × Value) → Site → Site
    publishes event_type details s = record (meet s) {
      world = publish (now s.machine) event_type g.id details (meet s).world;
    }

    abbrev pub announce : Text → List (Text × Value) → Job (Unit {0})
    announce event_type details s = (done tt, publishes event_type details s)

    abbrev pub named : List (Text × Value)
    named = (text "name", label g.name) ∷ []

    -- The clean-up on the server, over a new connection if the old one has failed.
    unfoldable pub clean_machine : Machine → Machine
    unfolding cleanup_remote connect_to
    clean_machine m =
        let (cleaned, m1) = cleanup_remote g.client g.id m in
        let (connecting, m2) = connect_to g.address g.port g.user g.confirmed g.auth m1 in
        if cleaned then m1 else elim connecting [
          | fails_with _ ↦ m2
          | succeeds client ↦ (cleanup_remote client g.id m2).1
        ]

    -- DeleteInstance and the event after it, with the result of the call.
    unfoldable pub after_deletion : Result Instance → Site → Result Instance × Site
    unfolding publish
    after_deletion (err e) s = (err e, s)
    after_deletion (ok i) s = (
      ok i,
      publishes (text "instance.deleted")
          ((text "name", label g.name) ∷ (text "rollback", flag true) ∷ []) s,
    )

    unfoldable pub withdraw : Site → Result Instance × Site
    unfolding delete_instance after_deletion
    withdraw s =
        let s1 = meet s in
        let (r, d) = delete_instance (now s.machine) g.id s1.world.db in
        after_deletion r (record s1 { world = record s1.world { db = d } })

    -- The function that Revoke has returned.
    unfoldable pub let_in : ℕ → Site → Site
    unfolding release
    let_in k s =
        let s1 = meet s in record s1 { world = record s1.world { hub = release k s1.world.hub } }

    -- What the deferred function does before DeleteInstance, with the number of the function that
    -- ends the revocation.
    unfoldable pub fence : Bool → Site → Site × ℕ
    unfolding clean_machine revoke publish
    fence touched s =
        let s1 = meet s in
        let (hub', k) = revoke g.id s1.world.hub in
        (
          publishes (text "instance.ssh_install.failed") named (record s1 {
            world = record s1.world { hub = hub' };
            machine = if touched then clean_machine s1.machine else s1.machine;
          }),
          k,
        )

    -- The deferred function of an installation that has failed after PutInstance, with the result
    -- of DeleteInstance.
    unfoldable pub rollback : Bool → Site → Result Instance × Site
    unfolding fence withdraw let_in
    rollback touched s =
        let (s1, k) = fence touched s in let (r, s2) = withdraw s1 in (r, let_in k s2)

    abbrev pub upload : Text → Text → Text → Bytes → Job (Unit {0})
    upload path mode owner content = must err_install (upload_file g.client path mode owner content)

    unfoldable pub upload_all : Job (Unit {0})
    unfolding upload_file
    upload_all = do
      upload (instance_directory g.id ++ text "/instance.env") (text "0600") (text "root:root")
          g.environment
      upload (instance_directory g.id ++ text "/instance.crt") (text "0640") (text "root:65532")
          g.credentials.certificate
      upload (instance_directory g.id ++ text "/instance.key") (text "0640") (text "root:65532")
          g.credentials.private_key
      upload (instance_directory g.id ++ text "/ca.crt") (text "0640") (text "root:65532")
          g.credentials.ca
      upload (text "/etc/systemd/system/" ++ unit_name g.id) (text "0644") (text "root:root") g.unit

    -- The loop of waitOnline, by the wakings of the ticker that are left.
    unfoldable pub wait_online : ℕ → Job (Unit {0})
    unfolding online
    wait_online zero s =
        let s1 = meet s in
        (
          if not (is_ended s.machine) && online g.id s1.world.hub
              then done tt
              else failed err_online,
          s1,
        )
    wait_online (suc n) s =
        let s1 = meet s in
        let again = wait_online n s1 in
        if is_ended s.machine
        then (failed err_online, s1)
        else if online g.id s1.world.hub
        then (done tt, s1)
        else again

    abbrev pub check_context : Job (Unit {0})
    check_context s = (if is_ended s.machine then failed err_online else done tt, s)

    -- The action of IfOnline runs under the mutex of the hub.
    unfoldable pub finish_with : Result Instance → Site → Outcome Instance × Site
    unfolding publish
    finish_with (err _) s = (failed err_install, s)
    finish_with (ok i) s = (
      done i,
      record s {
        world = publish (now s.machine) (text "instance.ssh_install.succeeded") g.id named s.world;
      },
    )

    unfoldable pub finish : Job Instance
    unfolding if_online instance finish_with
    finish s =
        let s1 = meet s in
        if if_online g.id s1.world.hub
        then finish_with (instance (now s.machine) g.id s1.world.db) s1
        else (failed err_install, s1)

    -- The steps on the server after it has been touched, up to the instance's connection.
    unfoldable pub start_agent : Job (Unit {0})
    unfolding prepare_remote upload_all wait_online
    start_agent = do
      must err_install (prepare_remote g.client g.id)
      upload_all
      must err_install (run_command g.client (text "podman pull --quiet " ++ g.image))
      must err_install (
          run_command g.client
            (text "systemctl daemon-reload && systemctl enable --now " ++ unit_name g.id))
      wait_online g.ticks
      check_context

    unfoldable pub deploy : Job Instance
    unfolding start_agent finish
    deploy = start_agent >> finish

    -- The return of the enrolled part: a failure runs the deferred function.
    unfoldable pub settle : Bool → Outcome Instance × Site → Outcome Instance × Site
    unfolding rollback
    settle touched (done i, s) = (done i, s)
    settle touched (failed e, s) = (failed e, (rollback touched s).1)

    abbrev pub install_packages : Job (Unit {0})
    install_packages = do
      announce (text "instance.enrolled")
          ((text "name", label g.name) ∷ (text "method", label (text "ssh")) ∷ [])
      announce (text "instance.ssh_install.started") named
      must err_install (run_command g.client packages_command)

    unfoldable pub after_packages : Outcome (Unit {0}) × Site → Outcome Instance × Site
    unfolding settle deploy
    after_packages (failed e, s) = settle false (failed e, s)
    after_packages (done _, s) = settle true (deploy s)

    unfoldable pub after_put : Result (Unit {0}) → Job Instance
    unfolding after_packages publish
    after_put (err _) s = (failed err_install, s)
    after_put (ok _) s = after_packages (install_packages s)

    -- PutInstance, and what comes after it.
    unfoldable pub enrol : Job Instance
    unfolding put_instance after_put
    enrol s =
        let s1 = meet s in
        let (r, d) = put_instance (new_instance (now s.machine) g.id g.name) s1.world.db in
        after_put r (record s1 { world = record s1.world { db = d } })
