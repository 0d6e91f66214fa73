-- ===== src/Api/Installations.antt =====
-- internal/api/api.go: the handler of an installation over SSH, and the answers that only read.
use ulcer.Prelude.{ℕ, Bool, true, false, text, Option, none, some, if◌then◌else◌}
use ulcer.Result.{ok, err}
use ulcer.Model.{Instance}
use ulcer.Platform.{Platform}
use ulcer.Store.Operator.{operator_ready}
use ulcer.Api.Response.{Response, replies, refuses, malformed}
use ulcer.SshInstall.Checks.{Net}
use ulcer.SshInstall.Remote.{Remote, Request}
use ulcer.SshInstall.Job.{
  InstallError, err_unavailable, err_invalid_name, err_invalid_user, err_invalid_host_key, err_busy,
  err_invalid_auth, err_invalid_target, err_target_blocked, err_host_key_mismatch, err_connect,
  err_preflight, err_install, err_online, Outcome, done, failed, Site,
}
use ulcer.SshInstall.Install.{Surroundings, install}

-- `cancelled` is whether the context of the request has ended.
unfoldable pub install_refusal : Bool → InstallError → Response Instance
install_refusal cancelled err_unavailable = refuses 503 (text "ssh_install_unavailable")
install_refusal cancelled err_busy = refuses 429 (text "ssh_install_busy")
install_refusal cancelled err_invalid_name = refuses 400 (text "invalid_name")
install_refusal cancelled err_invalid_user = refuses 400 (text "invalid_ssh_user")
install_refusal cancelled err_invalid_auth = refuses 400 (text "invalid_ssh_auth")
install_refusal cancelled err_invalid_host_key = refuses 400 (text "invalid_host_key")
install_refusal cancelled err_invalid_target = refuses 400 (text "invalid_ssh_target")
install_refusal cancelled err_target_blocked = refuses 400 (text "invalid_ssh_target")
install_refusal cancelled err_host_key_mismatch = refuses 409 (text "host_key_mismatch")
install_refusal cancelled err_connect = refuses 502 (text "ssh_connect_failed")
install_refusal cancelled err_preflight = refuses 422 (text "ssh_preflight_failed")
install_refusal cancelled err_online = refuses 504 (text "instance_connect_timeout")
install_refusal true err_install = refuses 408 (text "ssh_install_cancelled")
install_refusal false err_install = refuses 502 (text "ssh_install_failed")

unfoldable pub install_response : Bool → Outcome Instance → Response Instance
unfolding install_refusal
install_response cancelled (done i) = replies 201 i
install_response cancelled (failed e) = install_refusal cancelled e

-- The results of the two calls of Decode: the value, and whether the second one reports io.EOF.
unfoldable pub decode_json : {A : Type 0} → Option A → Bool → Option A
decode_json none at_end = none
decode_json (some a) at_end = if at_end then some a else none

module _ ⦃p : Platform⦄ where
  open p use {Db}

  unfoldable pub bootstrap_status : ℕ → Db → Response Bool
  unfolding operator_ready
  bootstrap_status now d = elim (operator_ready now d) [
    | err _ ↦ refuses 500 (text "store_error")
    | ok ready ↦ replies 200 ready
  ]

  module _ ⦃net : Net⦄ ⦃remote : Remote⦄ where
    -- A request that decodeJSON refuses is `none`.
    unfoldable pub install_instance_ssh :
        Surroundings → Bool → Option Request → Site → Response Instance × Site
    unfolding install install_response
    install_instance_ssh e cancelled none s = (malformed, s)
    install_instance_ssh e cancelled (some r) s =
        let (o, s') = install e r s in (install_response cancelled o, s')
