-- ===== src/SshInstall/Install/Lifting.antt =====
-- What holds after each way through Install, from what holds after its enrolled part.
use ulcer.Prelude.{ℕ, ◌≡◌, refl, Bytes, Option, none, some, if◌then◌else◌}
use ulcer.Model.{Instance}
use ulcer.Platform.{Platform}
use ulcer.SshInstall.Checks.{
  Net, render_instance_env, resolve_target, Target, invalid_target, blocked, resolved,
}
use ulcer.SshInstall.Image.{render_unit}
use ulcer.SshInstall.Remote.{
  Remote, Request, AuthMethod, Connecting, succeeds, fails_with, host_key_mismatch,
  connection_failed, connect_to, authentication_method, run_command,
}
use ulcer.SshInstall.Job.{InstallError, Outcome, done, failed, Site, err_preflight}
use ulcer.SshInstall.Enrolment.{Setting, Credentials, enrol}
use ulcer.SshInstall.Install.{
  Surroundings, setting, with_files, with_auth, prepare, after_connect, to_target, in_slot,
  preflight_command,
}

module _ ⦃p : Platform⦄ ⦃net : Net⦄ ⦃remote : Remote⦄ (e : Surroundings) (r : Request) where
  open remote use {Machine, Client, Signer}

  -- A setting of this installation.
  abbrev pub IsOf : Setting → Type 0
  IsOf g = (g.id ≡ e.id) × (g.name ≡ r.name) × (g.others ≡ e.others)

  module _ (Before : Site → Type 0) (After : Outcome Instance × Site → Type 0)
      (moved : (s : Site) (m : Machine) → Before s → Before (record s { machine = m }))
      (refused : (x : InstallError) (s : Site) → Before s → After (failed x, s))
      (enrolled : (g : Setting) (s : Site) → IsOf g → Before s → After (enrol g s)) where
    with_files_lem :
        (environment unit : Option Bytes) (issued : Option Credentials) (address : net.Addr)
        (port : ℕ) (auth : AuthMethod Signer) (client : Client) (s : Site)
        → Before s
        → After (with_files e r environment unit issued address port auth client s)
    unfolding with_files
    with_files_lem none unit issued address port auth client s h = refused _ s h
    with_files_lem (some v) none issued address port auth client s h = refused _ s h
    with_files_lem (some v) (some u) none address port auth client s h = refused _ s h
    with_files_lem (some v) (some u) (some c) address port auth client s h =
        enrolled (setting e r address port auth client v u c) s (refl, refl, refl) h

    checked_lem :
        (o : Outcome (Unit {0})) (m : Machine) (address : net.Addr) (port : ℕ)
        (auth : AuthMethod Signer) (client : Client) (s : Site)
        → Before s
        → After (elim o as (λ _. Outcome Instance × Site) [
          | failed x ↦ (failed x, record s { machine = m })
          | done _ ↦ prepare e r address port auth client (record s { machine = m })
        ])
    unfolding prepare
    checked_lem (failed x) m address port auth client s h = refused x _ (moved s m h)
    checked_lem (done _) m address port auth client s h =
        with_files_lem (render_instance_env e.id r.name e.config.public_grpc e.config.public_name)
          (render_unit e.id e.config.instance_image) e.issued address port auth client _
          (moved s m h)

    after_connect_lem :
        (address : net.Addr) (port : ℕ) (auth : AuthMethod Signer) (c : Connecting Client)
        (s : Site)
        → Before s
        → After (after_connect e r address port auth c s)
    unfolding after_connect
    after_connect_lem address port auth (fails_with host_key_mismatch) s h = refused _ s h
    after_connect_lem address port auth (fails_with connection_failed) s h = refused _ s h
    after_connect_lem address port auth (succeeds client) s h =
        let q = run_command client preflight_command s.machine in
        checked_lem (if q.0 then done tt else failed err_preflight) q.1 address port auth client s h

    to_target_lem :
        (auth : AuthMethod Signer) (t : Target) (s : Site)
        → Before s
        → After (to_target e r auth t s)
    unfolding to_target
    to_target_lem auth invalid_target s h = refused _ s h
    to_target_lem auth blocked s h = refused _ s h
    to_target_lem auth (resolved host address port) s h =
        let q = connect_to address port r.user r.host_key_sha256 auth s.machine in
        after_connect_lem address port auth q.0 (record s { machine = q.1 }) (moved s q.1 h)

    with_auth_lem :
        (a : Option (AuthMethod Signer)) (s : Site) → Before s → After (with_auth e r a s)
    unfolding with_auth
    with_auth_lem none s h = refused _ s h
    with_auth_lem (some auth) s h = to_target_lem auth (resolve_target e.lookup r.host r.port) s h

    pub in_slot_lem : (s : Site) → Before s → After (in_slot e r s)
    unfolding in_slot
    in_slot_lem s h = with_auth_lem (authentication_method r) s h
